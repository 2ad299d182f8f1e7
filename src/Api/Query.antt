-- ===== src/Api/Query.antt =====
-- GET /api/query: its status, and what it returns of the samples that were written.
use system_monitoring_dashbo.Prelude.{
  ℕ, ◌⊎◌, ◌≤◌, ◌^◌, ◌≡◌, refl, ap, ap₂, ◌∙◌, false, none, List, [], ◌∷◌, map, if◌then◌else◌, keep,
  keep_last,
}
use mathlib.Core.List.{Permᴰ}
use system_monitoring_dashbo.Prelude.Int.{ℤ, pos}
use system_monitoring_dashbo.Prelude.Text.{Text, codes, is_nil}
use system_monitoring_dashbo.Prelude.Dict.{Dict, text_key}
use system_monitoring_dashbo.Prelude.Double.{Double}
use system_monitoring_dashbo.Json.{Json}
use system_monitoring_dashbo.Ring.{in_range}
use system_monitoring_dashbo.Store.{Store, new, vec_series_exists, capacity_per_metric}
use system_monitoring_dashbo.Store.History.{Write, run, scalar_log, vector_log}
use system_monitoring_dashbo.Store.Limits.{query-run}
use system_monitoring_dashbo.Selector.{parse_label_filters, build_selector, metric_with_labels}
use system_monitoring_dashbo.Selector.Print.{build_selector-metric_with_labels}
use system_monitoring_dashbo.Selector.Filters.{parse_label_filters-nil}
use system_monitoring_dashbo.Api.{
  Env, IsOrder, Request, Reply, parse_int64, max_int64, write_json_response, write_error_response,
}
use system_monitoring_dashbo.Api.Registry.{validate_metric_and_labels}
use system_monitoring_dashbo.Api.Validate.{IsAllowed, validate_iff}
use system_monitoring_dashbo.Api.Routes.{
  value_or, request_labels, sample_json, sample_vec_json, query_json, query_samples, query_route,
}

-- The label that a request gets that names none.
abbrev pub host_labels : Env → Dict Text Text
host_labels env = (codes "host", env.host_label) ∷ []

request_labels-default :
    (env : Env) (req : Request)
    → req (codes "labels") ≡ []
    → is_nil env.host_label ≡ false
    → request_labels env req ≡ host_labels env
unfolding request_labels
request_labels-default env req e h =
    let parsed : parse_label_filters (req (codes "labels")) ≡ [] =
      ap parse_label_filters e ∙ parse_label_filters-nil in
    rw (parsed, h)

perm-nil : (xs ys : Dict Text Text) → Permᴰ xs ys → ys ≡ [] → xs ≡ []
perm-nil xs ys Permᴰ.nil h = h
perm-nil xs ys (Permᴰ.cons e p) h = absurd (cc)
perm-nil xs ys (Permᴰ.swap e f) h = absurd (cc)
perm-nil xs ys (Permᴰ.trans {l₂} p q) h = perm-nil xs l₂ p (perm-nil l₂ ys q h)

perm-one : (x : Text × Text) (xs ys : Dict Text Text) → Permᴰ xs ys → ys ≡ x ∷ [] → xs ≡ x ∷ []
perm-one x xs ys Permᴰ.nil h = h
perm-one x xs ys (Permᴰ.cons {a} {b} {l₁} {l₂} e p) h =
    let rest : l₁ ≡ [] = perm-nil l₁ l₂ p (cc) in cc
perm-one x xs ys (Permᴰ.swap e f) h = absurd (cc)
perm-one x xs ys (Permᴰ.trans {l₂} p q) h = perm-one x xs l₂ p (perm-one x l₂ ys q h)

-- One of three replies: an error with the status 400 to a request that is not complete, an error with
-- the status 422 to another one that is not allowed, and to all others what is given.
abbrev pub IsDecided : {W J : Type 0} → Json W J → Type 0 → Type 0 → Reply → Type 0 → Type 0
IsDecided j complete allowed reply given =
    (¬ complete × (message : Text) × (reply ≡ write_error_response j 400 message))
    ⊎ ((complete × ¬ allowed × (message : Text) × (reply ≡ write_error_response j 422 message))
        ⊎ (complete × allowed × given))

module _ {W J : Type 0} (j : Json W J) (env : Env) (req : Request) (s : Store W J) where
  abbrev from_of : ℤ
  from_of = value_or (parse_int64 (req (codes "from"))) (pos 0)

  abbrev to_of : ℤ
  to_of = value_or (parse_int64 (req (codes "to"))) max_int64

  abbrev name_of : Text
  name_of = build_selector (req (codes "metric")) (env.labels_order (request_labels env req))

  query_route-accepted :
      is_nil (req (codes "metric")) ≡ false
      → validate_metric_and_labels
          (req (codes "metric"))
          (env.labels_order (request_labels env req))
        ≡ none
      → query_route j env req s
        ≡ write_json_response j
            (query_json j
              (req (codes "metric"))
              (request_labels env req)
              (query_samples j env req s name_of from_of to_of)
              (vec_series_exists s name_of))
            200
  unfolding query_route
  query_route-accepted h e = rw (h, e)

module _ {W J : Type 0} ⦃d : Double W⦄ (j : Json W J) (env : Env) (req : Request) where
  -- A request for a registered metric that names no label, after any sequence of writes to a new
  -- store, is answered from the series that a collector names by `metric_with_labels` with the
  -- host's label alone: with the samples of the closed interval among the last `capacity` ones, from
  -- the vector series if there is one. The host has a label, and the time to keep is at most 2 ^ 63.
  pub query_route-run :
      (keep_seconds sample_period_s : ℕ) (log : List (Write W J))
      → keep_seconds ≤ 2 ^ 63
      → IsOrder env.labels_order
      → is_nil env.host_label ≡ false
      → req (codes "labels") ≡ []
      → is_nil (req (codes "metric")) ≡ false
      → IsAllowed (req (codes "metric")) (host_labels env)
      → let metric = req (codes "metric") in
        let name = metric_with_labels metric (host_labels env) in
        let start = new {W = W} {J = J} keep_seconds sample_period_s in
        let s = run start log in
        let n = capacity_per_metric start in
        let from_ms = value_or (parse_int64 (req (codes "from"))) (pos 0) in
        let to_ms = value_or (parse_int64 (req (codes "to"))) max_int64 in
        query_route j env req s
        ≡ write_json_response j
            (query_json j metric
              (host_labels env)
              (if vec_series_exists s name
                then map (sample_vec_json j) (
                    keep
                      (in_range (λ x. x.ts_ms) from_ms to_ms)
                      (keep_last n (vector_log name log)))
                else map (sample_json j) (
                    keep
                      (in_range (λ x. x.ts_ms) from_ms to_ms)
                      (keep_last n (scalar_log name log))))
              (vec_series_exists s name))
            200
  unfolding query_samples
  query_route-run keep_seconds sample_period_s log bounded ordered host none_named full allowed =
      let metric = req (codes "metric") in
      let start = new {W = W} {J = J} keep_seconds sample_period_s in
      let s = run start log in
      let labels = request_labels-default env req none_named host in
      let one : env.labels_order (host_labels env) ≡ host_labels env =
        perm-one (codes "host", env.host_label) (env.labels_order (host_labels env))
          (host_labels env) (ordered (host_labels env)) refl in
      let visited : env.labels_order (request_labels env req) ≡ host_labels env =
        ap env.labels_order labels ∙ one in
      let name : name_of j env req s ≡ metric_with_labels metric (host_labels env) =
        ap (build_selector metric) visited
        ∙ build_selector-metric_with_labels metric (host_labels env) (λ e. cc) in
      let valid : validate_metric_and_labels metric (env.labels_order (request_labels env req))
          ≡ none =
        ap (λ ls. validate_metric_and_labels metric (env.labels_order ls)) labels
        ∙ (validate_iff env.labels_order metric (host_labels env) ordered).1 allowed in
      let (scalars, vectors, _) =
        query-run keep_seconds sample_period_s bounded log
          (metric_with_labels metric (host_labels env)) (from_of j env req s) (to_of j env req s) in
      let collected = metric_with_labels metric (host_labels env) in
      let payload : Dict Text Text → Text → List J → Reply = λ ls nm samples.
        write_json_response j (query_json j metric ls samples (vec_series_exists s nm)) 200 in
      let from_ms = from_of j env req s in
      let to_ms = to_of j env req s in
      query_route-accepted j env req s full valid
      ∙ ap
          (λ ls.
            payload ls (name_of j env req s)
              (query_samples j env req s (name_of j env req s) from_ms to_ms))
          labels
      ∙ ap (λ nm. payload (host_labels env) nm (query_samples j env req s nm from_ms to_ms)) name
      ∙ ap (payload (host_labels env) collected) (
          ap₂
            (λ xs ys.
              if vec_series_exists s collected
              then map (sample_vec_json j) xs
              else map (sample_json j) ys)
            vectors scalars)
