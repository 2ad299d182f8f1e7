-- ===== src/Api/Bind.antt =====
-- `configure_cors` and `bind_routes`: what they register with the HTTP server. The library finds the
-- handler of a request by its method and path.
pub mod Answers
use system_monitoring_dashbo.Prelude.{some, ℕ, List, [], ◌∷◌, ◌++◌}
use system_monitoring_dashbo.Prelude.Int.{ℤ}
use system_monitoring_dashbo.Prelude.Text.{Text, codes}
use system_monitoring_dashbo.Prelude.Dict.{Dict}
use system_monitoring_dashbo.Prelude.Double.{Double}
use system_monitoring_dashbo.Json.{Json}
use system_monitoring_dashbo.Store.{Store}
use system_monitoring_dashbo.Api.{Env, Request, Reply}
use system_monitoring_dashbo.Api.Registry.{MetricDesc}
use system_monitoring_dashbo.Api.Stored.{stored}
use system_monitoring_dashbo.Api.Routes.{
  info, status, metrics, processes, query_route, export_route,
}

-- A handler reads the request and the store.
abbrev pub Handler : Type 0 → Type 0 → Type 0
Handler W J = Request → Store W J → Reply

-- What is registered with `httplib::Server`.
pub record HttpServer (W J : Type 0) : Type 0 where
  pub default_headers : List (Text × Text)
  pub gets : List (Text × Handler W J)
  pub options : List (Text × Handler W J)
  pub mounts : List (Text × Text)

module _ {W J : Type 0} where
  -- `httplib::Server server;`
  abbrev pub new_server : HttpServer W J
  new_server = record { default_headers = []; gets = []; options = []; mounts = [] }

  -- `svr.Get(pattern, handler)`
  abbrev pub on_get : Text → Handler W J → HttpServer W J → HttpServer W J
  on_get pattern handler server = record server { gets = server.gets ++ ((pattern, handler) ∷ []) }

  -- `res.status = 204;`
  abbrev no_content : Handler W J
  no_content req store =
      some (record { status = 204; content = []; content_type = []; headers = [] })

  unfoldable pub configure_cors : HttpServer W J → HttpServer W J
  configure_cors server = record server {
    default_headers =
        (codes "Access-Control-Allow-Origin", codes "*")
        ∷ (codes "Access-Control-Allow-Methods", codes "GET, OPTIONS")
        ∷ (codes "Access-Control-Allow-Headers", codes "Content-Type")
        ∷ [];
    options = server.options ++ ((codes "/.*", no_content) ∷ []);
  }

  -- The clock and the order of iteration over the registry are arguments.
  unfoldable pub bind_routes :
      ⦃d : Double W⦄
      → Json W J
      → Env
      → ℤ
      → (Dict Text MetricDesc → Dict Text MetricDesc)
      → HttpServer W J
      → HttpServer W J
  unfolding configure_cors
  bind_routes j env uptime_seconds registry_order server =
      let s₀ = configure_cors server in
      let s₁ = on_get (codes "/api/info") (info j) s₀ in
      let s₂ = on_get (codes "/api/status") (λ req store. status j uptime_seconds) s₁ in
      let s₃ = on_get (codes "/api/metrics") (λ req store. metrics j registry_order) s₂ in
      let s₄ = on_get (codes "/api/stored") (λ req store. stored j env.labels_order store) s₃ in
      let s₅ = on_get (codes "/api/query") (query_route j env) s₄ in
      let s₆ = on_get (codes "/api/processes") (λ req store. processes j store) s₅ in
      on_get (codes "/api/export") (export_route j env) s₆
