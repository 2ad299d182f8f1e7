-- ===== src/Store/Tests.antt =====
-- Runs of a small store, and the theorems about stores at it.
use system_monitoring_dashbo.Prelude.{ℕ, ◌≡◌, true, ◌||◌, List, [], ◌∷◌, arith}
use system_monitoring_dashbo.Prelude.Int.{pos}
use system_monitoring_dashbo.Prelude.Text.{Text, codes}
use system_monitoring_dashbo.Prelude.Double.{whole_double}
use system_monitoring_dashbo.Json.Plain.{plain_json}
use system_monitoring_dashbo.Store.{
  Store, Sample, new, query, query_vector, count, capacity_per_metric, list_series_keys,
  get_snapshot, get_metadata,
}
use system_monitoring_dashbo.Store.Lookup.{IsValid}
use system_monitoring_dashbo.Store.History.{
  Write, scalar, vector, snapshot, metadata, run, run-IsValid,
}
use system_monitoring_dashbo.Store.Limits.{new-IsValid, query-run, get-run}
use system_monitoring_dashbo.Store.Keys.{listed, list_series_keys-run}

abbrev name : Text
name = codes "cpu"

-- Three scalar samples and a vector under one name, a scalar under another, a snapshot.
abbrev log : List (Write ℕ Text)
log =
    scalar name (pos 1) 10
    ∷ scalar (codes "mem") (pos 1) 7
    ∷ scalar name (pos 2) 20
    ∷ vector name (pos 2) (1 ∷ 2 ∷ [])
    ∷ scalar name (pos 3) 30
    ∷ snapshot (codes "processes") (codes "old")
    ∷ snapshot (codes "processes") (codes "rows")
    ∷ metadata (codes "system") (codes "linux")
    ∷ []

abbrev sample : ℕ → ℕ → Sample ℕ
sample t v = record { ts_ms = pos t; value = v }

start : Store ℕ Text
start = new 2 1

start-IsValid : IsValid start
unfolding start
start-IsValid = new-IsValid 2 1 (omega arith)

run-IsValid_example : IsValid (run start log)
run-IsValid_example = run-IsValid start log start-IsValid

-- The store keeps two samples.
query-run_example :
    (query (run start log) name (pos 0) (pos 9) ≡ sample 2 20 ∷ sample 3 30 ∷ [])
    × (query_vector (run start log) name (pos 0) (pos 9)
        ≡ record { ts_ms = pos 2; vals = 1 ∷ 2 ∷ [] } ∷ [])
    × (count (run start log) name ≡ 2)
unfolding start new capacity_per_metric
query-run_example = query-run 2 1 (omega arith) log name (pos 0) (pos 9)

get-run_example :
    (get_snapshot plain_json (run start log) (codes "processes") ≡ codes "rows")
    × (get_metadata plain_json (run start log) (codes "processes") ≡ [])
unfolding start
get-run_example = get-run 2 1 (omega arith) plain_json log (codes "processes")

list_series_keys-run_example :
    listed (codes "mem") (list_series_keys (run start log))
    ≡ (true || listed (codes "mem") (list_series_keys start))
list_series_keys-run_example = list_series_keys-run start log (codes "mem")
