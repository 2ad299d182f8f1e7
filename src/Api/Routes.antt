-- ===== src/Api/Routes.antt =====
-- `bind_routes`: one function for each route. A handler reads the request's parameters and the
-- store, and returns the response.
use system_monitoring_dashbo.Prelude.{
  ◌-◌, Bool, ◌&&◌, ◌||◌, not, Option, none, some, List, [], ◌∷◌, map, if◌then◌else◌, length, drop,
}
use system_monitoring_dashbo.Prelude.Int.{ℤ, pos, ltb_ℤ, pos_part}
use system_monitoring_dashbo.Prelude.Text.{Text, codes, is_nil, text_eq}
use system_monitoring_dashbo.Prelude.Dict.{Dict, has_key, emplace, text_key}
use system_monitoring_dashbo.Prelude.Double.{Double}
use system_monitoring_dashbo.Json.{Json}
use system_monitoring_dashbo.Store.{
  Store, Sample, SampleVec, query, query_vector, vec_series_exists, get_snapshot, get_metadata,
  all_metadata,
}
use system_monitoring_dashbo.Selector.{parse_label_filters, build_selector}
use system_monitoring_dashbo.Api.{
  Env, Request, Reply, parse_int64, max_int64, write_json_response, write_error_response,
  labels_to_json, write_csv_response,
}
use system_monitoring_dashbo.Api.Registry.{
  MetricDesc, metric_registry, validate_metric_and_labels, infer_unit_for_metric,
}

-- `value_or`
abbrev pub value_or : Option ℤ → ℤ → ℤ
value_or none d = d
value_or (some z) d = z

-- `limit_opt && *limit_opt > 0`
abbrev pub limit_of : Option ℤ → ℤ
limit_of none = max_int64
limit_of (some z) = if ltb_ℤ (pos 0) z then z else max_int64

-- The labels of a request, with the host's label where the request gives none.
unfoldable pub request_labels : Env → Request → Dict Text Text
unfolding has_key emplace
request_labels env req =
    let labels = parse_label_filters (req (codes "labels")) in
    if not (is_nil env.host_label) && not (has_key (codes "host") labels)
    then emplace (codes "host") env.host_label labels
    else labels

-- `rows.erase(rows.begin(), rows.end() - limit)` if there are more rows than `limit`.
unfoldable pub last_rows {ℓ} : {A : Type ℓ} → ℤ → List A → List A
last_rows limit rows =
    if ltb_ℤ limit (pos (length rows)) then drop (length rows - pos_part limit) rows else rows

module _ {W J : Type 0} (j : Json W J) where
  unfoldable pub sample_json : Sample W → J
  sample_json sample = j.arr (j.int sample.ts_ms ∷ j.num sample.value ∷ [])

  unfoldable pub sample_vec_json : SampleVec W → J
  sample_vec_json sample = j.arr (j.int sample.ts_ms ∷ j.arr (map j.num sample.vals) ∷ [])

  -- GET /api/info
  unfoldable pub info : Request → Store W J → Reply
  info req store =
      let key = req (codes "key") in
      let found = get_metadata j store key in
      if is_nil key
      then write_json_response j (all_metadata j store) 200
      else if j.is_null found || j.is_empty found
      then write_error_response j 400 (codes "No key found")
      else write_json_response j found 200

  -- GET /api/status; the seconds since the start come from the clock.
  unfoldable pub status : ℤ → Reply
  status uptime_seconds =
      write_json_response j
        (j.obj (
          (codes "status", j.str (codes "ok"))
          ∷ (codes "uptime_s", j.int uptime_seconds)
          ∷ (codes "metrics_collected", j.int (pos 0))
          ∷ (codes "store_size_mb", j.int (pos 0))
          ∷ []))
        200

  desc_json : Text × MetricDesc → J
  desc_json (name, desc) = j.obj (
      (codes "name", j.str name)
      ∷ (codes "unit", j.str desc.unit)
      ∷ (codes "labels", j.arr (map j.str desc.labels))
      ∷ [])

  -- GET /api/metrics; the argument is the order of iteration over the registry.
  unfoldable pub metrics : (Dict Text MetricDesc → Dict Text MetricDesc) → Reply
  unfolding desc_json
  metrics registry_order =
      write_json_response j
        (j.obj ((codes "metrics", j.arr (map desc_json (registry_order metric_registry))) ∷ [])) 200

  -- GET /api/processes
  unfoldable pub processes : Store W J → Reply
  processes store =
      let snapshot = get_snapshot j store (codes "processes") in
      write_json_response j (if j.is_null snapshot then j.arr [] else snapshot) 200

  -- The payload of /api/query.
  unfoldable pub query_json : Text → Dict Text Text → List J → Bool → J
  query_json metric_name labels samples is_vector = j.obj (
      (codes "metric", j.str metric_name)
      ∷ (codes "unit", j.str (infer_unit_for_metric metric_name))
      ∷ (codes "labels", labels_to_json j labels)
      ∷ (codes "samples", j.arr samples)
      ∷ (codes "vector", j.bool is_vector)
      ∷ [])

  -- The payload of /api/export in JSON.
  unfoldable pub export_json : Text → Dict Text Text → List J → J
  export_json metric_name labels samples = j.obj (
      (codes "metric", j.str metric_name)
      ∷ (codes "unit", j.str (infer_unit_for_metric metric_name))
      ∷ (codes "rollup", j.str (codes "raw"))
      ∷ (codes "labels", labels_to_json j labels)
      ∷ (codes "samples", j.arr samples)
      ∷ [])

  module _ (env : Env) (req : Request) (store : Store W J) where
    -- The samples of /api/query under a name.
    unfoldable pub query_samples : Text → ℤ → ℤ → List J
    unfolding sample_json sample_vec_json
    query_samples selector from_ms to_ms =
        if vec_series_exists store selector
        then map sample_vec_json (query_vector store selector from_ms to_ms)
        else map sample_json (query store selector from_ms to_ms)

    -- GET /api/query
    unfoldable pub query_route : Reply
    unfolding request_labels query_samples query_json
    query_route =
        let metric_name = req (codes "metric") in
        let from_ms = value_or (parse_int64 (req (codes "from"))) (pos 0) in
        let to_ms = value_or (parse_int64 (req (codes "to"))) max_int64 in
        let labels = request_labels env req in
        let selector = build_selector metric_name (env.labels_order labels) in
        if is_nil metric_name
        then write_error_response j 400 (codes "Missing ?metric")
        else elim (validate_metric_and_labels metric_name (env.labels_order labels)) [
          | some error_message ↦ write_error_response j 422 error_message
          | none ↦
              write_json_response j
                (query_json metric_name labels (query_samples selector from_ms to_ms)
                  (vec_series_exists store selector))
                200
        ]

  -- GET /api/export, with what `store.query` returns as an argument.
  module _ (env : Env) (req : Request) (query_of : Text → ℤ → ℤ → List (Sample W)) where
    -- The part of /api/export behind the checks of its parameters.
    unfoldable pub export_rows : ⦃d : Double W⦄ → ℤ → ℤ → Reply
    unfolding request_labels last_rows export_json sample_json
    export_rows from_ms to_ms =
        let metric_name = req (codes "metric") in
        let labels = request_labels env req in
        let limit = limit_of (parse_int64 (req (codes "limit"))) in
        let selector = build_selector metric_name (env.labels_order labels) in
        let rows = last_rows limit (query_of selector from_ms to_ms) in
        elim (validate_metric_and_labels metric_name (env.labels_order labels)) [
          | some error_message ↦ write_error_response j 422 error_message
          | none ↦
              if text_eq (req (codes "format")) (codes "csv")
              then some (write_csv_response rows (codes "export.csv"))
              else write_json_response j (export_json metric_name labels (map sample_json rows)) 200
        ]

    -- The last checks of /api/export: both times are numbers, in order.
    unfoldable pub export_range : ⦃d : Double W⦄ → Option ℤ → Option ℤ → Reply
    unfolding export_rows
    export_range (some from_ms) (some to_ms) =
        if ltb_ℤ to_ms from_ms
        then write_error_response j 400 (codes "'from' must be <= 'to'")
        else export_rows from_ms to_ms
    export_range _ _ =
        write_error_response j 400
          (codes "Parameters 'from' and 'to' must be epoch milliseconds (integers)")

    -- GET /api/export, from its checks on.
    unfoldable pub export_answer : ⦃d : Double W⦄ → Reply
    unfolding export_range
    export_answer =
        let format = req (codes "format") in
        if is_nil (req (codes "metric"))
        then write_error_response j 400 (codes "Missing required parameter 'metric'")
        else if is_nil (req (codes "from")) || is_nil (req (codes "to"))
        then write_error_response j 400 (codes "Missing required parameter 'from' or 'to'")
        else if not (text_eq format (codes "csv")) && not (text_eq format (codes "json"))
        then write_error_response j 400 (codes "Parameter 'format' must be 'csv' or 'json'")
        else export_range (parse_int64 (req (codes "from"))) (parse_int64 (req (codes "to")))

  -- GET /api/export
  unfoldable pub export_route : ⦃d : Double W⦄ → Env → Request → Store W J → Reply
  unfolding export_answer
  export_route env req store = export_answer env req (query store)
