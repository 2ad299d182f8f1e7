-- ===== src/Main/Live/Kept.antt =====
-- What the tables of the store hold while the server runs: only series that the sampler names.
use system_monitoring_dashbo.Prelude.{
  ℕ, ap, Bool, true, false, Option, none, some, List, [], ◌∷◌, All,
}
use system_monitoring_dashbo.Prelude.Text.{Text, codes}
use system_monitoring_dashbo.Prelude.Dict.{Dict, insert, text_key}
use system_monitoring_dashbo.Prelude.Double.{Double}
use system_monitoring_dashbo.Json.{Json}
use system_monitoring_dashbo.Store.{put_metadata}
use system_monitoring_dashbo.Store.History.{Write}
use system_monitoring_dashbo.Sampler.Named.{IsNamed}
use system_monitoring_dashbo.Sampler.Round.{total_log-IsNamed, round_log-IsNamed}
use system_monitoring_dashbo.Sampler.{Readings, Sampler, current_of}
use system_monitoring_dashbo.Cpu.{
  CoreState, TotalState, get_cpu_core_percent, get_cpu_total_percent,
}
use system_monitoring_dashbo.Proc.{ProcSnapshot}
use system_monitoring_dashbo.Proc.Snapshot.{read_proc_snapshot}
use system_monitoring_dashbo.Config.{keep_seconds, sample_period_s}
use system_monitoring_dashbo.Main.Info.{
  Machine, collect_system_info, system_json, cache_system_metadata,
}
use system_monitoring_dashbo.Main.Server.{Event, thread_runs, listen_returned, start_server}
use system_monitoring_dashbo.Main.Live.{
  Live, Point, checking, in_round, finished, faulted, calls_from, round_calls, load_flag, step_at,
  live_event, run_live, start_live,
}
use system_monitoring_dashbo.Main.Live.Names.{
  IsKept, IsNamedSection, sections-IsNamed, perform-IsKept, new-IsKept,
}

module _ {W J : Type 0} ⦃d : Double W⦄ (j : Json W J) (host : Text)
    (pw_name : ℕ → Option Text) where
  calls_from-IsNamed :
      (r : Readings) (p : W) (total : TotalState) (cores : Option (Bool × List W × CoreState))
      (current : Option (Option ProcSnapshot)) (s : Sampler W)
      → All (IsNamed host) (calls_from j host pw_name r p total cores current s).0
  unfolding calls_from
  calls_from-IsNamed r p total none current s = total_log-IsNamed j host r.timestamp_ms p
  calls_from-IsNamed r p total (some (cores_read, cores, core)) none s =
      round_log-IsNamed j host pw_name r p cores_read cores none s
  calls_from-IsNamed r p total (some (cores_read, cores, core)) (some current) s =
      round_log-IsNamed j host pw_name r p cores_read cores current s

  pub round_calls-IsNamed :
      (r : Readings) (s : Sampler W) → All (IsNamed host) (round_calls j host pw_name r s).0
  unfolding round_calls
  round_calls-IsNamed r s =
      let (p, total) = get_cpu_total_percent r.stat_total s.total in
      calls_from-IsNamed r p total (get_cpu_core_percent r.stat_core s.core_percent_buffer s.core)
        (current_of (read_proc_snapshot r.processes)) s

  -- What is left of a round is so named.
  abbrev pub IsNamedPoint : Point W J → Type 0
  IsNamedPoint checking = Unit
  IsNamedPoint (in_round todo next) = All (IsNamedSection host) todo
  IsNamedPoint finished = Unit
  IsNamedPoint faulted = Unit

  pub record IsLive (cached : Dict Text J) (live : Live W J) : Type 0 where
    pub kept : IsKept host cached live.store
    pub left : IsNamedPoint live.point

  load_flag-IsNamed :
      (running : Bool) (round : List (Write W J) × Option (Sampler W))
      → All (IsNamed host) round.0
      → IsNamedPoint (load_flag j host pw_name running round)
  unfolding load_flag
  load_flag-IsNamed true round named = sections-IsNamed host round.0 named
  load_flag-IsNamed false round named = tt

  step_at-IsLive :
      (cached : Dict Text J) (point : Point W J) (r : Readings) (live : Live W J)
      → IsNamedPoint point
      → IsLive cached live
      → IsLive cached (step_at j host pw_name point r live)
  unfolding step_at
  step_at-IsLive cached checking r live left whole = record {
    kept = whole.kept;
    left =
        load_flag-IsNamed live.running (round_calls j host pw_name r live.sampler)
          (round_calls-IsNamed r live.sampler);
  }
  step_at-IsLive cached (in_round (op ∷ rest) next) r live (named, left) whole = record {
    kept = perform-IsKept host cached live.store op named whole.kept;
    left = left;
  }
  step_at-IsLive cached (in_round [] (some s)) r live left whole = record {
    kept = whole.kept;
    left = tt;
  }
  step_at-IsLive cached (in_round [] none) r live left whole = record {
    kept = whole.kept;
    left = tt;
  }
  step_at-IsLive cached finished r live left whole = whole
  step_at-IsLive cached faulted r live left whole = whole

  pub run_live-IsLive :
      (cached : Dict Text J) (events : List Event) (live : Live W J)
      → IsLive cached live
      → IsLive cached (run_live j host pw_name events live)
  unfolding run_live live_event
  run_live-IsLive cached [] live whole = whole
  run_live-IsLive cached (thread_runs r ∷ events) live whole =
      run_live-IsLive cached events (step_at j host pw_name live.point r live)
        (step_at-IsLive cached live.point r live whole.left whole)
  run_live-IsLive cached (listen_returned ∷ events) live whole =
      run_live-IsLive cached events (record live { running = false })
        (record { kept = whole.kept; left = whole.left })

  -- What `main` caches.
  abbrev pub cached_at_start : Machine → Dict Text J
  cached_at_start machine = insert (codes "system") (system_json j (collect_system_info machine)) []

  start_live-IsLive :
      (machine : Machine) (sampler : Sampler W)
      → IsLive (cached_at_start machine) (start_live j machine sampler)
  unfolding start_live start_server cache_system_metadata put_metadata
  start_live-IsLive machine sampler =
      let made = new-IsKept host keep_seconds sample_period_s in
      record {
        kept = record {
          scalars = made.scalars;
          vectors = made.vectors;
          cached_only =
              ap (insert (codes "system") (system_json j (collect_system_info machine)))
                made.cached_only;
        };
        left = tt;
      }

  -- Whatever happens to a server that has been started.
  pub started-IsLive :
      (machine : Machine) (sampler : Sampler W) (events : List Event)
      → IsLive
          (cached_at_start machine)
          (run_live j host pw_name events (start_live j machine sampler))
  started-IsLive machine sampler events =
      run_live-IsLive (cached_at_start machine) events (start_live j machine sampler)
        (start_live-IsLive machine sampler)
