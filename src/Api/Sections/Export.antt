-- ===== src/Api/Sections/Export.antt =====
-- GET /api/export while other threads write: it takes the locks of `query`, one after the other.
use system_monitoring_dashbo.Prelude.{◌≡◌, ap, ◌⊎◌, inl, inr, List, Option-cases}
use mathlib.Core.Path.{fun_ext}
use system_monitoring_dashbo.Prelude.Int.{ℤ}
use system_monitoring_dashbo.Prelude.Text.{Text, codes}
use system_monitoring_dashbo.Prelude.Dict.{lookup, text_key}
use system_monitoring_dashbo.Prelude.Double.{Double}
use system_monitoring_dashbo.Json.{Json}
use system_monitoring_dashbo.Store.{Store, Sample, query}
use system_monitoring_dashbo.Store.Section.Reads.{
  IsGrown, query_sections, query_sections-absent, query_sections-found,
}
use system_monitoring_dashbo.Selector.{build_selector}
use system_monitoring_dashbo.Api.{Env, Request, Reply}
use system_monitoring_dashbo.Api.Routes.{
  request_labels, export_answer, export_range, export_rows, export_route,
}

module _ {W J : Type 0} ⦃d : Double W⦄ (j : Json W J) (env : Env) (req : Request) where
  -- The stores where the query finds the series, and where it reads the ring.
  unfoldable pub export_route_sections : Store W J → Store W J → Reply
  unfolding query_sections export_answer
  export_route_sections found store = export_answer j env req (query_sections found store)

  name_of : Text
  name_of = build_selector (req (codes "metric")) (env.labels_order (request_labels env req))

  -- The handler queries for one name only.
  export_answer-name :
      (query_of other : Text → ℤ → ℤ → List (Sample W))
      → ((from_ms to_ms : ℤ) → query_of name_of from_ms to_ms ≡ other name_of from_ms to_ms)
      → export_answer j env req query_of ≡ export_answer j env req other
  unfolding export_answer export_range export_rows name_of
  export_answer-name query_of other same =
      ap (λ (f : ℤ → ℤ → List (Sample W)). export_answer j env req (λ _. f))
        (fun_ext (λ from_ms. fun_ext (λ to_ms. same from_ms to_ms)))

  -- If no series goes away in between, the response of GET /api/export is the one that the whole
  -- handler gives on an earlier store than the first, or on the last.
  pub export_route-sections :
      (a b c : Store W J)
      → IsGrown a b
      → (export_route_sections b c ≡ export_route j env req a)
        ⊎ (export_route_sections b c ≡ export_route j env req c)
  unfolding export_route_sections export_route
  export_route-sections a b c grown = elim (Option-cases (lookup name_of b.series)) [
    | inl absent ↦ inl (
        export_answer-name (query_sections b c) (query a)
          (λ from_ms to_ms. query_sections-absent a b c grown name_of from_ms to_ms absent))
    | inr there ↦ inr (
        export_answer-name (query_sections b c) (query c)
          (λ from_ms to_ms. query_sections-found a b c grown name_of from_ms to_ms there))
  ]
