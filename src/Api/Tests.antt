-- ===== src/Api/Tests.antt =====
-- Requests to a small store, and the theorems about the API at them.
use system_monitoring_dashbo.Prelude.{
  ℕ, ◌≡◌, ◌↔◌, refl, List, [], ◌∷◌, arith, some, none, if◌then◌else◌, keep, keep_last, map,
}
use mathlib.Core.List
use mathlib.Core.List.{Permᴰ}
use system_monitoring_dashbo.Prelude.Int.{pos, negsuc}
use system_monitoring_dashbo.Prelude.Text.{Text, codes, text_eq}
use system_monitoring_dashbo.Prelude.Dict.{lookup}
use system_monitoring_dashbo.Prelude.Double.{whole_double, whole_double_line}
use system_monitoring_dashbo.Json.Plain.{plain_json}
use system_monitoring_dashbo.Scan.{tokens, show_ℤ}
use system_monitoring_dashbo.Store.{Store, Sample, new, vec_series_exists, capacity_per_metric}
use system_monitoring_dashbo.Store.History.{Write, scalar, run, scalar_log, vector_log}
use system_monitoring_dashbo.Selector.{metric_with_labels}
use system_monitoring_dashbo.Api.{
  Env, IsOrder, Request, parse_int64, write_csv_response, max_int64, write_json_response,
}
use system_monitoring_dashbo.Ring.{in_range}
use system_monitoring_dashbo.Api.Number.{parse_int64-show_ℤ}
use system_monitoring_dashbo.Api.Registry.{member, metric_registry, validate_metric_and_labels}
use system_monitoring_dashbo.Api.Validate.{IsAllowed, validate_iff}
use system_monitoring_dashbo.Api.Query.{host_labels, query_route-run}
use system_monitoring_dashbo.Api.Export.{tokens-write_csv_response}
use system_monitoring_dashbo.Api.Routes.{query_route, query_json, sample_json, sample_vec_json}

abbrev env : Env
env = record { host_label = codes "ubuntu"; labels_order = λ labels. labels }

same-IsOrder : IsOrder env.labels_order
same-IsOrder labels = List.Permᴰ.refl labels

-- `metric=mem.used`, and nothing else.
abbrev request : Request
request key = if text_eq key (codes "metric") then codes "mem.used" else []

abbrev mem_used : Text
mem_used = codes "mem.used{host=ubuntu}"

mem_used_name : metric_with_labels (codes "mem.used") (host_labels env) ≡ mem_used
unfolding metric_with_labels
mem_used_name = refl

mem_used-IsAllowed : IsAllowed (codes "mem.used") (host_labels env)
unfolding metric_registry member lookup
mem_used-IsAllowed = (record { unit = codes "bytes"; labels = codes "host" ∷ [] }, refl, (refl, tt))

parse_int64_run :
    (parse_int64 (codes " -15") ≡ some (negsuc 14))
    × (parse_int64 (codes "15s") ≡ none)
    × (parse_int64 (codes "") ≡ none)
unfolding parse_int64
parse_int64_run = (refl, refl, refl)

parse_int64-show_ℤ_example : parse_int64 (show_ℤ (negsuc 41)) ≡ some (negsuc 41)
parse_int64-show_ℤ_example = parse_int64-show_ℤ (negsuc 41) (omega arith)

validate_iff_example :
    (validate_metric_and_labels (codes "mem.used") (env.labels_order (host_labels env)) ≡ none)
    ↔ IsAllowed (codes "mem.used") (host_labels env)
validate_iff_example =
    validate_iff env.labels_order (codes "mem.used") (host_labels env) same-IsOrder

abbrev log : List (Write ℕ Text)
log = scalar mem_used (pos 1) 10 ∷ scalar mem_used (pos 2) 20 ∷ []

abbrev rows : List (Sample ℕ)
rows = record { ts_ms = pos 1; value = 2 } ∷ record { ts_ms = negsuc 0; value = 3 } ∷ []

query_route-run_example :
    let name = metric_with_labels (codes "mem.used") (host_labels env) in
    let start : Store ℕ Text = new 2 1 in
    let s = run start log in
    query_route plain_json env request s
    ≡ write_json_response plain_json
        (query_json plain_json
          (codes "mem.used")
          (host_labels env)
          (if vec_series_exists s name
            then map (sample_vec_json plain_json) (
                keep
                  (in_range (λ x. x.ts_ms) (pos 0) max_int64)
                  (keep_last (capacity_per_metric start) (vector_log name log)))
            else map (sample_json plain_json) (
                keep
                  (in_range (λ x. x.ts_ms) (pos 0) max_int64)
                  (keep_last (capacity_per_metric start) (scalar_log name log))))
          (vec_series_exists s name))
        200
unfolding parse_int64
query_route-run_example =
    query_route-run plain_json env request 2 1 log (omega arith) same-IsOrder refl refl refl
      mem_used-IsAllowed

tokens-write_csv_response_example :
    tokens b'\n' (write_csv_response rows (codes "export.csv")).content
    ≡ codes "timestamp,value" ∷ codes "1,11" ∷ codes "-1,111" ∷ []
unfolding show_ℤ
tokens-write_csv_response_example =
    tokens-write_csv_response whole_double_line rows (codes "export.csv")

-- `metric=mem.used&from=1&to=2&format=csv`
abbrev export_request : Request
export_request key =
    if text_eq key (codes "metric")
    then codes "mem.used"
    else if text_eq key (codes "from")
    then codes "1"
    else if text_eq key (codes "to")
    then codes "2"
    else if text_eq key (codes "format")
    then codes "csv"
    else []
