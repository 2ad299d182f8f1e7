-- ===== src/Main/Live/Query.antt =====
-- The requests that take several locks, while the sampler thread runs.
use system_monitoring_dashbo.Prelude.{ℕ, ◌≡◌, false, Option, none, some, List, [], ◌∷◌, ◌⊎◌}
use system_monitoring_dashbo.Prelude.Text.{Text}
use system_monitoring_dashbo.Prelude.Double.{Double}
use system_monitoring_dashbo.Json.{Json}
use system_monitoring_dashbo.Store.Section.Reads.{
  IsGrown, IsGrown-refl, IsGrown-trans, perform-IsGrown,
}
use system_monitoring_dashbo.Sampler.{Readings, Sampler}
use system_monitoring_dashbo.Api.{Env, Request}
use system_monitoring_dashbo.Store.{list_series_keys}
use system_monitoring_dashbo.Store.Section.Listing.{
  IsListedIn, list_series_keys_sections, list_series_keys-sections,
}
use system_monitoring_dashbo.Api.Routes.{query_route, export_route}
use system_monitoring_dashbo.Api.Sections.Export.{export_route_sections, export_route-sections}
use system_monitoring_dashbo.Api.Sections.{query_route_sections, query_route-sections}
use system_monitoring_dashbo.Main.Info.{Machine}
use system_monitoring_dashbo.Main.Server.{Event, thread_runs, listen_returned}
use system_monitoring_dashbo.Main.Live.{
  Live, Point, checking, in_round, finished, faulted, step_at, live_event, run_live, start_live,
}
use system_monitoring_dashbo.Main.Live.Names.{IsKept-IsApart}
use system_monitoring_dashbo.Main.Live.Kept.{cached_at_start, run_live-IsLive, started-IsLive}

module _ {W J : Type 0} ⦃d : Double W⦄ (j : Json W J) (host : Text)
    (pw_name : ℕ → Option Text) where
  step_at-IsGrown :
      (point : Point W J) (r : Readings) (live : Live W J)
      → IsGrown live.store (step_at j host pw_name point r live).store
  unfolding step_at
  step_at-IsGrown checking r live = IsGrown-refl live.store
  step_at-IsGrown (in_round (op ∷ rest) next) r live = perform-IsGrown live.store op
  step_at-IsGrown (in_round [] (some s)) r live = IsGrown-refl live.store
  step_at-IsGrown (in_round [] none) r live = IsGrown-refl live.store
  step_at-IsGrown finished r live = IsGrown-refl live.store
  step_at-IsGrown faulted r live = IsGrown-refl live.store

  run_live-IsGrown :
      (events : List Event) (live : Live W J)
      → IsGrown live.store (run_live j host pw_name events live).store
  unfolding run_live live_event
  run_live-IsGrown [] live = IsGrown-refl live.store
  run_live-IsGrown (thread_runs r ∷ events) live =
      let next = step_at j host pw_name live.point r live in
      IsGrown-trans live.store next.store (run_live j host pw_name events next).store
        (step_at-IsGrown live.point r live) (run_live-IsGrown events next)
  run_live-IsGrown (listen_returned ∷ events) live =
      run_live-IsGrown events (record live { running = false })

  -- A request to GET /api/query that is served while the server runs tests for a vector series, finds
  -- the series, and reads its ring, and the sampler thread may run any number of sections before each
  -- of these. Its response is the one that the whole handler gives on the store at the test, or the
  -- one on the store at the end.
  pub query_route-run_live :
      (env : Env) (req : Request) (machine : Machine) (sampler : Sampler W)
      (before between behind : List Event)
      → let tested = run_live j host pw_name before (start_live j machine sampler) in
        let found = run_live j host pw_name between tested in
        let read = run_live j host pw_name behind found in
        (query_route_sections j env req tested.store found.store read.store
          ≡ query_route j env req tested.store)
        ⊎ (query_route_sections j env req tested.store found.store read.store
            ≡ query_route j env req read.store)
  query_route-run_live env req machine sampler before between behind =
      let start = start_live j machine sampler in
      let tested = run_live j host pw_name before start in
      let found = run_live j host pw_name between tested in
      let read = run_live j host pw_name behind found in
      let cached = cached_at_start j host pw_name machine in
      let whole = run_live-IsLive j host pw_name cached behind found (
        run_live-IsLive j host pw_name cached between tested
          (started-IsLive j host pw_name machine sampler before)) in
      query_route-sections j env req tested.store found.store read.store
        (run_live-IsGrown between tested) (run_live-IsGrown behind found)
        (IsKept-IsApart host cached read.store whole.kept)

  -- A request to GET /api/export that is served while the server runs finds the series and reads its
  -- ring, and the sampler thread may run any number of sections before each of these. Its response is
  -- the one that the whole handler gives on the store at the beginning, or on the store at the end.
  pub export_route-run_live :
      (env : Env) (req : Request) (machine : Machine) (sampler : Sampler W)
      (before between behind : List Event)
      → let begun = run_live j host pw_name before (start_live j machine sampler) in
        let found = run_live j host pw_name between begun in
        let read = run_live j host pw_name behind found in
        (export_route_sections j env req found.store read.store
          ≡ export_route j env req begun.store)
        ⊎ (export_route_sections j env req found.store read.store
            ≡ export_route j env req read.store)
  export_route-run_live env req machine sampler before between behind =
      let begun = run_live j host pw_name before (start_live j machine sampler) in
      let found = run_live j host pw_name between begun in
      export_route-sections j env req begun.store found.store
        (run_live j host pw_name behind found).store (run_live-IsGrown between begun)

  -- `list_series_keys`, which GET /api/stored calls, lists the scalar series and then the vector ones,
  -- and the sampler thread may run any number of sections in between. It lists every series of the
  -- store at the beginning, and only series of the store at the end.
  pub list_series_keys-run_live :
      (machine : Machine) (sampler : Sampler W) (before between : List Event)
      → let first = run_live j host pw_name before (start_live j machine sampler) in
        let second = run_live j host pw_name between first in
        IsListedIn
          (list_series_keys first.store)
          (list_series_keys_sections first.store second.store)
        × IsListedIn
            (list_series_keys_sections first.store second.store)
            (list_series_keys second.store)
  list_series_keys-run_live machine sampler before between =
      let first = run_live j host pw_name before (start_live j machine sampler) in
      list_series_keys-sections first.store (run_live j host pw_name between first).store
        (run_live-IsGrown between first)
