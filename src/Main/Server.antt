-- ===== src/Main/Server.antt =====
-- `main`: the server and its sampler thread. The thread loads the flag `running`, and then either
-- ends or runs a round; the main thread clears the flag once `listen` has returned. A round is one
-- step: no other step writes to the store. Main/Live has its sections as steps.
pub mod Stop
pub mod Reach
mod Tests
use system_monitoring_dashbo.Prelude.{
  ℕ, ◌+◌, Bool, true, false, Option, none, some, List, [], ◌∷◌, if◌then◌else◌,
}
use system_monitoring_dashbo.Prelude.Text.{Text}
use system_monitoring_dashbo.Prelude.Double.{Double}
use system_monitoring_dashbo.Json.{Json}
use system_monitoring_dashbo.Config.{keep_seconds, sample_period_s}
use system_monitoring_dashbo.Store.{Store, new}
use system_monitoring_dashbo.Sampler.{Readings, Sampler, sample_round}
use system_monitoring_dashbo.Main.Info.{Machine, cache_system_metadata}

-- Where the sampler thread stands: before it loads the flag, before its round, behind its loop, or at
-- the fault or the exception that ends the program.
pub data Thread : Type 0 where
  testing : Thread
  sampling : Thread
  ended : Thread
  crashed : Thread

pub record Server (W J : Type 0) : Type 0 where
  pub running : Bool
  pub thread : Thread
  pub sampler : Sampler W
  pub store : Store W J

-- What happens: the thread takes a step, with what a round reads now, or `listen` has returned.
pub data Event : Type 0 where
  thread_runs : Readings → Event
  listen_returned : Event

module _ {W J : Type 0} where
  -- The server behind a round.
  abbrev pub end_round : Server W J → Option (Sampler W × Store W J) → Server W J
  end_round server none = record server { thread = crashed }
  end_round server (some (sampler, store)) = record server {
    thread = testing;
    sampler = sampler;
    store = store;
  }

  -- `sampler_running = false;`
  abbrev pub stop : Server W J → Server W J
  stop server = record server { running = false }

  -- `sampler_thread.join()` returns.
  abbrev pub joins : Server W J → Bool
  joins server = elim server.thread [
    | testing ↦ false
    | sampling ↦ false
    | ended ↦ true
    | crashed ↦ false
  ]

-- `return server_ok ? 0 : 1;`
abbrev pub exit_code : Bool → ℕ
exit_code server_ok = if server_ok then 0 else 1

module _ {W J : Type 0} (j : Json W J) where
  -- The server when `bind_routes` is called: the thread starts with the variables as they are
  -- initialized.
  unfoldable pub start_server : Machine → Sampler W → Server W J
  unfolding cache_system_metadata
  start_server machine sampler = record {
    running = true;
    thread = testing;
    sampler = sampler;
    store = cache_system_metadata j machine (new keep_seconds sample_period_s);
  }

module _ {W J : Type 0} ⦃d : Double W⦄ (j : Json W J) (host : Text)
    (pw_name : ℕ → Option Text) where
  -- A step of the thread, from where it stands.
  unfoldable pub run_at : Thread → Readings → Server W J → Server W J
  unfolding sample_round
  run_at testing r server = record server { thread = if server.running then sampling else ended }
  run_at sampling r server =
      end_round server (sample_round j host pw_name r server.sampler server.store)
  run_at ended r server = server
  run_at crashed r server = server

  abbrev pub run_thread : Readings → Server W J → Server W J
  run_thread r server = run_at server.thread r server

  unfoldable pub handle : Event → Server W J → Server W J
  unfolding run_at
  handle (thread_runs r) server = run_thread r server
  handle listen_returned server = stop server

  unfoldable pub run_events : List Event → Server W J → Server W J
  unfolding handle
  run_events [] server = server
  run_events (e ∷ events) server = run_events events (handle e server)
