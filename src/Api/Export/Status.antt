-- ===== src/Api/Export/Status.antt =====
-- GET /api/export: which requests are answered, and with what status.
use system_monitoring_dashbo.Prelude.{if◌then◌else◌, map, ◌≡◌, ◌⊎◌, Bool, false, some, ◌&&◌, not}
use system_monitoring_dashbo.Prelude.Int.{ℤ, ltb_ℤ}
use system_monitoring_dashbo.Prelude.Text.{Text, codes, is_nil, text_eq}
use system_monitoring_dashbo.Prelude.Double.{Double}
use system_monitoring_dashbo.Json.{Json}
use system_monitoring_dashbo.Store.{Store, query}
use system_monitoring_dashbo.Api.{
  Env, Request, Reply, parse_int64, write_json_response, write_error_response, write_csv_response,
}
use system_monitoring_dashbo.Selector.{build_selector}
use system_monitoring_dashbo.Api.Validate.{IsAllowed}
use system_monitoring_dashbo.Api.Routes.{
  request_labels, limit_of, last_rows, export_json, sample_json, export_rows,
}

-- The times that a request names.
abbrev pub IsTimes : Request → ℤ → ℤ → Type 0
IsTimes req from_ms to_ms =
    (parse_int64 (req (codes "from")) ≡ some from_ms)
    × (parse_int64 (req (codes "to")) ≡ some to_ms)

-- Two times in order.
abbrev pub IsRange : Request → Type 0
IsRange req =
    (from_ms : ℤ) × (to_ms : ℤ) × (parse_int64 (req (codes "from")) ≡ some from_ms)
    × (parse_int64 (req (codes "to")) ≡ some to_ms)
    × (ltb_ℤ to_ms from_ms ≡ false)

-- A request with a metric, a known format, and such times.
abbrev pub IsComplete : Request → Type 0
IsComplete req =
    (is_nil (req (codes "metric")) ≡ false)
    × ((req (codes "format") ≡ codes "csv") ⊎ (req (codes "format") ≡ codes "json"))
    × IsRange req

module _ {W J : Type 0} ⦃d : Double W⦄ (j : Json W J) (env : Env) (req : Request)
    (s : Store W J) where
  abbrev MayExport : Type 0
  MayExport = IsAllowed (req (codes "metric")) (request_labels env req)

  -- The rows of the request, in the format that it names.
  abbrev pub exported : ℤ → ℤ → Reply
  exported from_ms to_ms =
      let metric = req (codes "metric") in
      let labels = request_labels env req in
      let selector = build_selector metric (env.labels_order labels) in
      let rows =
        last_rows (limit_of (parse_int64 (req (codes "limit")))) (query s selector from_ms to_ms) in
      if text_eq (req (codes "format")) (codes "csv")
      then some (write_csv_response rows (codes "export.csv"))
      else write_json_response j (export_json j metric labels (map (sample_json j) rows)) 200

unknown_format : (format : Text) → Bool
unknown_format format = not (text_eq format (codes "csv")) && not (text_eq format (codes "json"))

module _ {W J : Type 0} ⦃d : Double W⦄ (j : Json W J) (env : Env) (req : Request)
    (s : Store W J) where
  -- The request is refused with 400, or its rows are looked up.
  abbrev IsAnswered : Reply → Type 0
  IsAnswered response =
      (¬ IsComplete req × (message : Text) × (response ≡ write_error_response j 400 message))
      ⊎ (IsComplete req
          × (from_ms : ℤ) × (to_ms : ℤ) × IsTimes req from_ms to_ms
          × (response ≡ export_rows j env req (query s) from_ms to_ms))
