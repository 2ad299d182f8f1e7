-- ===== src/Main/Live/Tests.antt =====
-- A server that is asked and stopped within its first round.
use system_monitoring_dashbo.Prelude.{
  ℕ, ◌≡◌, ◌≢◌, ◌⊎◌, ◌≤◌, refl, arith, Option, none, some, List, [], ◌∷◌, if◌then◌else◌, All,
}
use system_monitoring_dashbo.Prelude.Int.{pos}
use system_monitoring_dashbo.Prelude.Text.{Text, codes, text_eq}
use system_monitoring_dashbo.Prelude.Double.{whole_double}
use system_monitoring_dashbo.Json.Plain.{plain_json}
use system_monitoring_dashbo.Api.{Env, Request, write_json_response}
use system_monitoring_dashbo.Api.Routes.{info, query_route, export_route}
use system_monitoring_dashbo.Api.Sections.Export.{export_route_sections}
use system_monitoring_dashbo.Store.{list_series_keys}
use system_monitoring_dashbo.Store.Section.Listing.{IsListedIn, list_series_keys_sections}
use system_monitoring_dashbo.Api.Sections.{query_route_sections}
use system_monitoring_dashbo.Cpu.{get_cpu_core_percent, get_cpu_total_percent}
use system_monitoring_dashbo.Memory.{get_system_memory_bytes}
use system_monitoring_dashbo.Disk.{get_disk_io}
use system_monitoring_dashbo.Net.{get_net_stats}
use system_monitoring_dashbo.Proc.Stat.{read_stat}
use system_monitoring_dashbo.Proc.Snapshot.{read_proc_snapshot}
use system_monitoring_dashbo.Store.Section.{sections}
use system_monitoring_dashbo.Sampler.Example.{start, readings}
use system_monitoring_dashbo.Main.Info.{Machine, collect_system_info, system_json}
use system_monitoring_dashbo.Main.Server.{
  Event, thread_runs, listen_returned, start_server, run_events,
}
use system_monitoring_dashbo.Main.Live.{
  Live, finished, live_event, run_live, calls_from, round_calls, load_flag, step_at, start_live,
}
use system_monitoring_dashbo.Main.Live.Stands.{Stands, run_live-refines}
use system_monitoring_dashbo.Main.Live.Served.{store-run_live}
use system_monitoring_dashbo.Config.{keep_seconds, sample_period_s}
use system_monitoring_dashbo.Store.{new}
use system_monitoring_dashbo.Store.Lookup.{IsWithin}
use system_monitoring_dashbo.Store.History.{Write, metadata, run}
use system_monitoring_dashbo.Store.Section.Seen.{IsSeenAlike}
use system_monitoring_dashbo.Sampler.Named.{IsNamed}
use system_monitoring_dashbo.Main.Live.Query.{
  query_route-run_live, export_route-run_live, list_series_keys-run_live,
}
use system_monitoring_dashbo.Main.Live.Cached.{info-run_live}
use system_monitoring_dashbo.Main.Live.Stop.{IsHalted, steps_left, start_live-stops}

abbrev machine : Machine
machine = record {
  processors_online = pos 4;
  meminfo = some (codes "MemTotal: 4 kB\nMemAvailable: 1 kB\n");
  hostname = codes "pi";
  uname = some (codes "Linux", codes "6.1");
}

abbrev host : Text
host = codes "pi"

abbrev no_names : ℕ → Option Text
no_names uid = none

-- The flag is loaded, and the series `mem.used` is made.
abbrev first_steps : List Event
first_steps = thread_runs readings ∷ thread_runs readings ∷ []

abbrev live : Live ℕ Text
live = run_live plain_json host no_names first_steps (start_live plain_json machine start)

abbrev asks_for_system : Request
asks_for_system name = codes "system"

-- `metric=mem.used`, and nothing else.
abbrev asks_for_memory : Request
asks_for_memory key = if text_eq key (codes "metric") then codes "mem.used" else []

abbrev env : Env
env = record { host_label = host; labels_order = λ labels. labels }

run_live-refines_example :
    (steps : List Event) × Stands plain_json host no_names live
      (run_events plain_json host no_names steps (start_server plain_json machine start))
run_live-refines_example = run_live-refines plain_json host no_names machine start first_steps

store-run_live_example :
    ((log : List (Write ℕ Text)) × All (IsNamed host) log
      × IsSeenAlike live.store (
          run (new keep_seconds sample_period_s) (
            metadata (codes "system") (system_json plain_json (collect_system_info machine))
            ∷ log)))
    × IsWithin 7200 live.store
store-run_live_example = store-run_live plain_json host no_names machine start first_steps

query_route-run_live_example :
    let found = run_live plain_json host no_names first_steps live in
    let read = run_live plain_json host no_names first_steps found in
    (query_route_sections plain_json env asks_for_memory live.store found.store read.store
      ≡ query_route plain_json env asks_for_memory live.store)
    ⊎ (query_route_sections plain_json env asks_for_memory live.store found.store read.store
        ≡ query_route plain_json env asks_for_memory read.store)
query_route-run_live_example =
    query_route-run_live plain_json host no_names env asks_for_memory machine start first_steps
      first_steps first_steps

-- `metric=mem.used&from=1&to=2&format=csv`
abbrev asks_for_export : Request
asks_for_export key =
    if text_eq key (codes "from")
    then codes "1"
    else if text_eq key (codes "to")
    then codes "2"
    else if text_eq key (codes "format")
    then codes "csv"
    else asks_for_memory key

export_route-run_live_example :
    let found = run_live plain_json host no_names first_steps live in
    let read = run_live plain_json host no_names first_steps found in
    (export_route_sections plain_json env asks_for_export found.store read.store
      ≡ export_route plain_json env asks_for_export live.store)
    ⊎ (export_route_sections plain_json env asks_for_export found.store read.store
        ≡ export_route plain_json env asks_for_export read.store)
export_route-run_live_example =
    export_route-run_live plain_json host no_names env asks_for_export machine start first_steps
      first_steps first_steps

list_series_keys-run_live_example :
    let second = run_live plain_json host no_names first_steps live in
    IsListedIn (list_series_keys live.store) (list_series_keys_sections live.store second.store)
    × IsListedIn (list_series_keys_sections live.store second.store) (list_series_keys second.store)
list_series_keys-run_live_example =
    list_series_keys-run_live plain_json host no_names machine start first_steps first_steps

info-run_live_example :
    info plain_json asks_for_system live.store
    ≡ write_json_response plain_json (system_json plain_json (collect_system_info machine)) 200
unfolding system_json
info-run_live_example =
    info-run_live plain_json host no_names machine start first_steps asks_for_system refl refl refl

-- Twelve steps of the thread, and the flag cleared once more among them.
abbrev last_steps : List Event
last_steps =
    thread_runs readings
    ∷ thread_runs readings
    ∷ thread_runs readings
    ∷ thread_runs readings
    ∷ listen_returned
    ∷ thread_runs readings
    ∷ thread_runs readings
    ∷ thread_runs readings
    ∷ thread_runs readings
    ∷ thread_runs readings
    ∷ thread_runs readings
    ∷ thread_runs readings
    ∷ thread_runs readings
    ∷ []

few_left : steps_left live.point ≤ 12
unfolding run_live live_event step_at load_flag round_calls calls_from start_live start_server
    get_cpu_core_percent get_cpu_total_percent get_system_memory_bytes get_disk_io get_net_stats
    read_proc_snapshot read_stat sections
few_left = omega arith

start_live-stops_example :
    (live.point ≢ finished)
    × IsHalted
        (run_live plain_json host no_names last_steps
          (live_event plain_json host no_names listen_returned live)).point
start_live-stops_example =
    start_live-stops plain_json host no_names machine start first_steps last_steps tt few_left
