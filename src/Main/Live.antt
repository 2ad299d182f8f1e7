-- ===== src/Main/Live.antt =====
-- `main` with its threads side by side: the sampler thread runs one critical section of the store at
-- a time, as `start_sampler` of collector/loop.cpp calls for it, and requests are served in between.
pub mod Stands
pub mod Names
pub mod Kept
pub mod Query
pub mod Stop
pub mod Served
pub mod Cached
mod Tests
use system_monitoring_dashbo.Prelude.{
  ℕ, ◌≡◌, refl, ap, ap₂, Bool, true, false, Option, none, some, List, [], ◌∷◌, if◌then◌else◌,
}
use mathlib.Core.Option
use system_monitoring_dashbo.Prelude.Text.{Text}
use system_monitoring_dashbo.Prelude.Double.{Double}
use system_monitoring_dashbo.Json.{Json}
use system_monitoring_dashbo.Cpu.{
  CoreState, TotalState, get_cpu_core_percent, get_cpu_total_percent,
}
use system_monitoring_dashbo.Proc.{ProcSnapshot}
use system_monitoring_dashbo.Proc.Snapshot.{read_proc_snapshot}
use system_monitoring_dashbo.Store.{Store}
use system_monitoring_dashbo.Store.History.{Write, run}
use system_monitoring_dashbo.Store.Section.{Section, perform, sections}
use system_monitoring_dashbo.Sampler.{
  Readings, Sampler, sample_all, keep_all, round_from, sample_round, current_of,
}
use system_monitoring_dashbo.Sampler.Log.{total_log, round_log, sample_all-run}
use system_monitoring_dashbo.Main.Info.{Machine}
use system_monitoring_dashbo.Main.Server.{Server, Event, thread_runs, listen_returned, start_server}

-- Where the sampler thread stands: before it loads the flag; in a round, with the sections that are
-- left and the state behind it, if the round does not end the program; behind its loop; at the fault
-- or the exception that ends the program.
pub data Point (W J : Type 0) : Type 0 where
  checking : Point W J
  in_round : List (Section W J) → Option (Sampler W) → Point W J
  finished : Point W J
  faulted : Point W J

pub record Live (W J : Type 0) : Type 0 where
  pub running : Bool
  pub point : Point W J
  pub sampler : Sampler W
  pub store : Store W J

module _ {W J : Type 0} ⦃d : Double W⦄ (j : Json W J) (host : Text)
    (pw_name : ℕ → Option Text) where
  -- The calls that a round makes of the store, and the state behind it: the fault comes behind the
  -- first of them, the exception before the last.
  unfoldable pub calls_from :
      Readings
      → W
      → TotalState
      → Option (Bool × List W × CoreState)
      → Option (Option ProcSnapshot)
      → Sampler W
      → List (Write W J) × Option (Sampler W)
  unfolding keep_all
  calls_from r p total none current s = (total_log host r.timestamp_ms p, none)
  calls_from r p total (some (cores_read, cores, core)) none s =
      (round_log j host pw_name r p cores_read cores none s, none)
  calls_from r p total (some (cores_read, cores, core)) (some current) s = (
    round_log j host pw_name r p cores_read cores current s,
    some (keep_all j host pw_name r total core cores current s),
  )

  unfoldable pub round_calls : Readings → Sampler W → List (Write W J) × Option (Sampler W)
  unfolding calls_from read_proc_snapshot
  round_calls r s =
      let (p, total) = get_cpu_total_percent r.stat_total s.total in
      calls_from r p total (get_cpu_core_percent r.stat_core s.core_percent_buffer s.core)
        (current_of (read_proc_snapshot r.processes)) s

  -- A round is its calls, one after the other.
  abbrev pub made :
      Store W J → List (Write W J) × Option (Sampler W) → Option (Sampler W × Store W J)
  made store (calls, next) = Option.map (λ s. (s, run store calls)) next

  calls_from-made :
      (r : Readings) (p : W) (total : TotalState) (cores : Option (Bool × List W × CoreState))
      (current : Option (Option ProcSnapshot)) (s : Sampler W) (store : Store W J)
      → round_from j host pw_name r p total cores current s store
        ≡ made store (calls_from r p total cores current s)
  unfolding round_from calls_from
  calls_from-made r p total none current s store = refl
  calls_from-made r p total (some cores) none s store = refl
  calls_from-made r p total (some (cores_read, cores, core)) (some current) s store =
      ap (λ written. some (keep_all j host pw_name r total core cores current s, written))
        (sample_all-run j host pw_name r p cores_read cores current s store)

  pub sample_round-made :
      (r : Readings) (s : Sampler W) (store : Store W J)
      → sample_round j host pw_name r s store ≡ made store (round_calls r s)
  unfolding sample_round round_calls
  sample_round-made r s store =
      let (p, total) = get_cpu_total_percent r.stat_total s.total in
      calls_from-made r p total (get_cpu_core_percent r.stat_core s.core_percent_buffer s.core)
        (current_of (read_proc_snapshot r.processes)) s store

  -- What a thread does that loads the flag.
  unfoldable pub load_flag : Bool → List (Write W J) × Option (Sampler W) → Point W J
  unfolding sections
  load_flag running round = if running then in_round (sections round.0) round.1 else finished

  -- A step of the sampler thread, from where it stands. A round starts with what it will read.
  unfoldable pub step_at : Point W J → Readings → Live W J → Live W J
  unfolding round_calls perform load_flag
  step_at checking r live = record live {
    point = load_flag live.running (round_calls r live.sampler);
  }
  step_at (in_round (op ∷ rest) next) r live = record live {
    point = in_round rest next;
    store = perform live.store op;
  }
  step_at (in_round [] (some s)) r live = record live { point = checking; sampler = s }
  step_at (in_round [] none) r live = record live { point = faulted }
  step_at finished r live = live
  step_at faulted r live = live

  unfoldable pub live_event : Event → Live W J → Live W J
  unfolding step_at
  live_event (thread_runs r) live = step_at live.point r live
  live_event listen_returned live = record live { running = false }

  unfoldable pub run_live : List Event → Live W J → Live W J
  unfolding live_event
  run_live [] live = live
  run_live (e ∷ events) live = run_live events (live_event e live)

module _ {W J : Type 0} (j : Json W J) where
  -- The server when `bind_routes` is called.
  unfoldable pub start_live : Machine → Sampler W → Live W J
  unfolding start_server
  start_live machine sampler =
      let server = start_server j machine sampler in
      record {
        running = server.running;
        point = checking;
        sampler = server.sampler;
        store = server.store;
      }
