-- ===== src/Api/Sections.antt =====
-- `bind_routes`, GET /api/query while the sampler thread writes: the handler takes the locks of the
-- store one after the other, and other threads may run before each.
pub mod Export
use system_monitoring_dashbo.Prelude.{
  ◌≡◌, sym, ap, ◌∙◌, Bool, true, false, none, some, List, ◌⊎◌, inl, inr, map, if◌then◌else◌,
  Option-cases,
}
use system_monitoring_dashbo.Prelude.Int.{ℤ, pos}
use system_monitoring_dashbo.Prelude.Text.{Text, codes, is_nil}
use system_monitoring_dashbo.Prelude.Dict.{lookup, text_key}
use system_monitoring_dashbo.Json.{Json}
use system_monitoring_dashbo.Store.{Store, query, query_vector, vec_series_exists}
use system_monitoring_dashbo.Store.Section.Same.{IsPresent}
use system_monitoring_dashbo.Store.Section.Reads.{
  query_sections, query_vector_sections, IsGrown, query_sections-absent, query_sections-found,
  query_vector_sections-found, vec_series_exists-true, vec_series_exists-false, IsApart,
}
use system_monitoring_dashbo.Selector.{build_selector}
use system_monitoring_dashbo.Api.{
  Env, Request, Reply, parse_int64, max_int64, write_json_response, write_error_response,
}
use system_monitoring_dashbo.Api.Registry.{validate_metric_and_labels}
use system_monitoring_dashbo.Api.Routes.{
  value_or, request_labels, sample_json, sample_vec_json, query_json, query_samples, query_route,
}

module _ {W J : Type 0} (j : Json W J) (env : Env) (req : Request) where
  -- The samples of /api/query, where `vec_series_exists` has returned the first argument.
  unfoldable pub query_samples_sections : Bool → Store W J → Store W J → Text → ℤ → ℤ → List J
  unfolding query_sections query_vector_sections sample_json sample_vec_json
  query_samples_sections is_vector found store selector from_ms to_ms =
      if is_vector
      then map (sample_vec_json j) (query_vector_sections found store selector from_ms to_ms)
      else map (sample_json j) (query_sections found store selector from_ms to_ms)

  -- GET /api/query: the stores at the test of the vector table, where the query finds the series, and
  -- where it reads the ring.
  unfoldable pub query_route_sections : Store W J → Store W J → Store W J → Reply
  unfolding request_labels query_samples_sections query_json
  query_route_sections tested found store =
      let metric_name = req (codes "metric") in
      let from_ms = value_or (parse_int64 (req (codes "from"))) (pos 0) in
      let to_ms = value_or (parse_int64 (req (codes "to"))) max_int64 in
      let labels = request_labels env req in
      let selector = build_selector metric_name (env.labels_order labels) in
      let is_vector_metric = vec_series_exists tested selector in
      if is_nil metric_name
      then write_error_response j 400 (codes "Missing ?metric")
      else elim (validate_metric_and_labels metric_name (env.labels_order labels)) [
        | some error_message ↦ write_error_response j 422 error_message
        | none ↦
            write_json_response j
              (query_json j metric_name labels
                (query_samples_sections is_vector_metric found store selector from_ms to_ms)
                is_vector_metric)
              200
      ]

  name_of : Text
  name_of = build_selector (req (codes "metric")) (env.labels_order (request_labels env req))

  from_of : ℤ
  from_of = value_or (parse_int64 (req (codes "from"))) (pos 0)

  to_of : ℤ
  to_of = value_or (parse_int64 (req (codes "to"))) max_int64

  -- The response as a function of what comes from the store.
  route_of : List J → Bool → Reply
  route_of samples is_vector =
      if is_nil (req (codes "metric"))
      then write_error_response j 400 (codes "Missing ?metric")
      else elim (validate_metric_and_labels (req (codes "metric"))
          (env.labels_order (request_labels env req))) [
            | some error_message ↦ write_error_response j 422 error_message
            | none ↦
                write_json_response j
                  (query_json j (req (codes "metric")) (request_labels env req) samples is_vector)
                  200
          ]

  module _ (tested found store : Store W J) where
    query_route_sections-scalar :
        vec_series_exists tested name_of ≡ false
        → query_route_sections tested found store
          ≡ route_of (map (sample_json j) (query_sections found store name_of from_of to_of)) false
    unfolding query_route_sections route_of query_samples_sections name_of from_of to_of
    query_route_sections-scalar e =
        ap (λ b. route_of (query_samples_sections b found store name_of from_of to_of) b) e

    query_route_sections-vector :
        vec_series_exists tested name_of ≡ true
        → query_route_sections tested found store
          ≡ route_of
              (map (sample_vec_json j) (query_vector_sections found store name_of from_of to_of))
              true
    unfolding query_route_sections route_of query_samples_sections name_of from_of to_of
    query_route_sections-vector e =
        ap (λ b. route_of (query_samples_sections b found store name_of from_of to_of) b) e

    query_route-scalar :
        vec_series_exists store name_of ≡ false
        → query_route j env req store
          ≡ route_of (map (sample_json j) (query store name_of from_of to_of)) false
    unfolding query_route route_of query_samples name_of from_of to_of
    query_route-scalar e =
        ap
          (λ b.
            route_of
              (if b
                then map (sample_vec_json j) (query_vector store name_of from_of to_of)
                else map (sample_json j) (query store name_of from_of to_of))
              b)
          e

    query_route-vector :
        vec_series_exists store name_of ≡ true
        → query_route j env req store
          ≡ route_of (map (sample_vec_json j) (query_vector store name_of from_of to_of)) true
    unfolding query_route route_of query_samples name_of from_of to_of
    query_route-vector e =
        ap
          (λ b.
            route_of
              (if b
                then map (sample_vec_json j) (query_vector store name_of from_of to_of)
                else map (sample_json j) (query store name_of from_of to_of))
              b)
          e

  module _ (a b c : Store W J) (ab : IsGrown a b) (bc : IsGrown b c) where
    -- The handler's answer to a metric that has a vector series when it tests for one.
    vector_seen :
        IsPresent name_of a.vec_series → query_route_sections a b c ≡ query_route j env req c
    vector_seen there =
        let there_b = ab.1 name_of there in
        query_route_sections-vector a b c (vec_series_exists-true a name_of there)
        ∙ ap (λ xs. route_of (map (sample_vec_json j) xs) true)
            (query_vector_sections-found a b c ab name_of from_of to_of there_b)
        ∙ sym (query_route-vector c c c (vec_series_exists-true c name_of (bc.1 name_of there_b)))

    -- The answer where the query finds a scalar series.
    scalar_found :
        IsApart c
        → lookup name_of a.vec_series ≡ none
        → IsPresent name_of b.series
        → query_route_sections a b c ≡ query_route j env req c
    scalar_found apart absent there =
        query_route_sections-scalar a b c (vec_series_exists-false a name_of absent)
        ∙ ap (λ xs. route_of (map (sample_json j) xs) false)
            (query_sections-found a b c ab name_of from_of to_of there)
        ∙ sym (
            query_route-scalar c c c
              (vec_series_exists-false c name_of (apart name_of (bc.0 name_of there))))

    -- The answer where there is neither.
    neither_found :
        lookup name_of a.vec_series ≡ none
        → lookup name_of b.series ≡ none
        → query_route_sections a b c ≡ query_route j env req a
    neither_found absent missing =
        query_route_sections-scalar a b c (vec_series_exists-false a name_of absent)
        ∙ ap (λ xs. route_of (map (sample_json j) xs) false)
            (query_sections-absent a b c ab name_of from_of to_of missing)
        ∙ sym (query_route-scalar a a a (vec_series_exists-false a name_of absent))

    -- GET /api/query takes three locks: it tests for a vector series, finds the series, and reads its
    -- ring. If no series goes away in between, and no name is both a scalar and a vector series in the
    -- end, its response is the one that the whole handler gives on the first store or on the last.
    pub query_route-sections :
        IsApart c
        → (query_route_sections a b c ≡ query_route j env req a)
          ⊎ (query_route_sections a b c ≡ query_route j env req c)
    query_route-sections apart = elim (Option-cases (lookup name_of a.vec_series)) [
      | inr there ↦ inr (vector_seen there)
      | inl absent ↦ elim (Option-cases (lookup name_of b.series)) [
        | inl missing ↦ inl (neither_found absent missing)
        | inr found ↦ inr (scalar_found apart absent found)
      ]
    ]
