-- ===== src/Main/Server/Tests.antt =====
-- A server that samples twice and stops.
use system_monitoring_dashbo.Prelude.{ℕ, ◌≡◌, refl, true, Option, none, some, List, [], ◌∷◌, All}
use system_monitoring_dashbo.Prelude.Int.{pos}
use system_monitoring_dashbo.Prelude.Text.{Text, codes}
use system_monitoring_dashbo.Prelude.Double.{whole_double}
use system_monitoring_dashbo.Json.Plain.{plain_json}
use system_monitoring_dashbo.Config.{keep_seconds, sample_period_s}
use system_monitoring_dashbo.Store.{new}
use system_monitoring_dashbo.Store.Lookup.{IsWithin}
use system_monitoring_dashbo.Store.History.{Write, metadata, run}
use system_monitoring_dashbo.Api.{Request}
use system_monitoring_dashbo.Cpu.{get_cpu_core_percent}
use system_monitoring_dashbo.Proc.Stat.{read_stat}
use system_monitoring_dashbo.Proc.Snapshot.{read_proc_snapshot}
use system_monitoring_dashbo.Sampler.{sample_round}
use system_monitoring_dashbo.Sampler.Named.{IsNamed}
use system_monitoring_dashbo.Sampler.Example.{start, readings}
use system_monitoring_dashbo.Main.Info.{Machine, collect_system_info, system_json}
use system_monitoring_dashbo.Main.Server.{
  Server, Event, thread_runs, listen_returned, start_server, run_at, run_events, joins,
}
use system_monitoring_dashbo.Main.Server.Reach.{store-run_events}

abbrev machine : Machine
machine = record {
  processors_online = pos 4;
  meminfo = some (codes "MemTotal: 4 kB\nMemAvailable: 1 kB\n");
  hostname = codes "pi";
  uname = some (codes "Linux", codes "6.1");
}

abbrev host : Text
host = codes "pi"

abbrev no_names : ℕ → Option Text
no_names uid = none

-- The first round, and the flag loaded again.
abbrev first_round : List Event
first_round = thread_runs readings ∷ thread_runs readings ∷ thread_runs readings ∷ []

abbrev fresh : Server ℕ Text
fresh = start_server plain_json machine start

abbrev asks_for_system : Request
asks_for_system name = codes "system"

store-run_events_example :
    ((log : List (Write ℕ Text)) × All (IsNamed host) log
      × ((run_events plain_json host no_names first_round fresh).store
          ≡ run (new keep_seconds sample_period_s) (
              metadata (codes "system") (system_json plain_json (collect_system_info machine))
              ∷ log)))
    × IsWithin 7200 (run_events plain_json host no_names first_round fresh).store
store-run_events_example = store-run_events plain_json host no_names machine start first_round

-- The thread is joined behind a stop between two rounds.
joins_test :
    joins (
      run_events plain_json host no_names
        (thread_runs readings ∷ thread_runs readings ∷ listen_returned ∷ thread_runs readings ∷ [])
        fresh)
    ≡ true
unfolding run_events run_at sample_round get_cpu_core_percent read_proc_snapshot read_stat
    start_server
joins_test = refl
