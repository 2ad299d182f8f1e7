-- ===== src/Api/Bind/Answers.antt =====
-- What the handlers of the API answer.
use system_monitoring_dashbo.Prelude.{
  ℕ, ◌≡◌, refl, Bool, true, false, ◌||◌, Option, none, some, List, ◌⊎◌, inl, inr, if◌then◌else◌,
}
use system_monitoring_dashbo.Prelude.Int.{ℤ, ltb_ℤ}
use system_monitoring_dashbo.Prelude.Text.{Text, codes, is_nil, text_eq}
use system_monitoring_dashbo.Prelude.Dict.{text_key}
use system_monitoring_dashbo.Prelude.Double.{Double}
use system_monitoring_dashbo.Json.{Json}
use system_monitoring_dashbo.Store.{Store, Sample, query}
use system_monitoring_dashbo.Api.{
  Env, Request, Reply, Response, parse_int64, write_json_response, write_error_response,
  write_csv_response,
}
use system_monitoring_dashbo.Api.Registry.{validate_metric_and_labels}
use system_monitoring_dashbo.Api.Routes.{
  info, query_route, export_rows, export_range, export_answer, export_route,
}

module _ {W J : Type 0} (j : Json W J) where
  -- The request is answered with the status 200, or refused with an error in JSON that repeats its
  -- status; either way unless the JSON library throws at what is to be sent.
  abbrev pub IsAnswer : Reply → Type 0
  IsAnswer reply =
      ((payload : J) × (reply ≡ write_json_response j payload 200))
      ⊎ (((r : Response) × (reply ≡ some r) × (r.status ≡ 200))
          ⊎ ((code : ℕ) × (message : Text) × ((code ≡ 400) ⊎ (code ≡ 422))
              × (reply ≡ write_error_response j code message)))

  pub sent : (payload : J) → IsAnswer (write_json_response j payload 200)
  sent payload = inl (payload, refl)

  refused_400 : (message : Text) → IsAnswer (write_error_response j 400 message)
  refused_400 message = inr (inr (400, message, inl refl, refl))

  refused_422 : (message : Text) → IsAnswer (write_error_response j 422 message)
  refused_422 message = inr (inr (422, message, inr refl, refl))

  if-IsAnswer : (b : Bool) (x y : Reply) → IsAnswer x → IsAnswer y → IsAnswer (if b then x else y)
  if-IsAnswer true x y hx hy = hx
  if-IsAnswer false x y hx hy = hy

  -- An answer behind the validation.
  valid-IsAnswer :
      (checked : Option Text) (x : Reply)
      → IsAnswer x
      → IsAnswer (elim checked [ some message ↦ write_error_response j 422 message | none ↦ x ])
  valid-IsAnswer none x h = h
  valid-IsAnswer (some message) x h = refused_422 message

  pub info-IsAnswer : (req : Request) (store : Store W J) → IsAnswer (info j req store)
  unfolding info
  info-IsAnswer req store =
      if-IsAnswer (is_nil (req (codes "key"))) _ _ (sent _)
        (if-IsAnswer _ _ _ (refused_400 (codes "No key found")) (sent _))

  pub query_route-IsAnswer :
      (env : Env) (req : Request) (store : Store W J) → IsAnswer (query_route j env req store)
  unfolding query_route
  query_route-IsAnswer env req store =
      if-IsAnswer (is_nil (req (codes "metric"))) _ _ (refused_400 (codes "Missing ?metric"))
        (valid-IsAnswer (validate_metric_and_labels (req (codes "metric")) _) _ (sent _))

  module _ ⦃d : Double W⦄ (env : Env) (req : Request)
      (query_of : Text → ℤ → ℤ → List (Sample W)) where
    export_rows-IsAnswer :
        (from_ms to_ms : ℤ) → IsAnswer (export_rows j env req query_of from_ms to_ms)
    unfolding export_rows write_csv_response
    export_rows-IsAnswer from_ms to_ms =
        valid-IsAnswer (validate_metric_and_labels (req (codes "metric")) _) _ (
          if-IsAnswer (text_eq (req (codes "format")) (codes "csv")) _ _ (inr (inl (_, refl, refl)))
            (sent _))

    export_range-IsAnswer :
        (from_ms to_ms : Option ℤ) → IsAnswer (export_range j env req query_of from_ms to_ms)
    unfolding export_range
    export_range-IsAnswer (some from_ms) (some to_ms) =
        if-IsAnswer (ltb_ℤ to_ms from_ms) _ _ (refused_400 (codes "'from' must be <= 'to'"))
          (export_rows-IsAnswer from_ms to_ms)
    export_range-IsAnswer (some from_ms) none = refused_400 _
    export_range-IsAnswer none to_ms = refused_400 _

    export_answer-IsAnswer : IsAnswer (export_answer j env req query_of)
    unfolding export_answer
    export_answer-IsAnswer = if-IsAnswer (is_nil (req (codes "metric"))) _ _ (refused_400 _) (
        if-IsAnswer (is_nil (req (codes "from")) || is_nil (req (codes "to"))) _ _ (refused_400 _) (
          if-IsAnswer _ _ _ (refused_400 _) (
            export_range-IsAnswer (parse_int64 (req (codes "from")))
              (parse_int64 (req (codes "to"))))))

  pub export_route-IsAnswer :
      ⦃d : Double W⦄ (env : Env) (req : Request) (store : Store W J)
      → IsAnswer (export_route j env req store)
  unfolding export_route
  export_route-IsAnswer env req store = export_answer-IsAnswer env req (query store)
