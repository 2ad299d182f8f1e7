-- ===== src/Main/Bind.antt =====
-- `bind_static_frontend`, and the handlers that `main` registers.
mod Tests
use system_monitoring_dashbo.Prelude.{
  ℕ, ◌≡◌, ◌⊎◌, Bool, true, ◌&&◌, not, Option, none, some, List, [], ◌∷◌, ◌++◌,
}
use system_monitoring_dashbo.Prelude.Int.{ℤ}
use system_monitoring_dashbo.Prelude.Text.{Text, codes}
use system_monitoring_dashbo.Prelude.Dict.{Dict}
use system_monitoring_dashbo.Prelude.Double.{Double}
use system_monitoring_dashbo.Json.{Json}
use system_monitoring_dashbo.Store.{Store}
use system_monitoring_dashbo.Api.{Env, Request, Reply, Response, write_json_response}
use system_monitoring_dashbo.Api.Registry.{MetricDesc, member}
use system_monitoring_dashbo.Api.Routes.{status}
use system_monitoring_dashbo.Api.Bind.{Handler, HttpServer, new_server, on_get, bind_routes}
use system_monitoring_dashbo.Api.Bind.Answers.{IsAnswer}
use system_monitoring_dashbo.Main.{serve_index}

module _ {W J : Type 0} where
  -- `read_file` is what the file system has under a path.
  unfoldable pub bind_static_frontend :
      (Text → Option Text) → Text → HttpServer W J → HttpServer W J
  unfolding serve_index
  bind_static_frontend read_file web_root server =
      on_get (codes "/") (λ req store. some (serve_index read_file web_root))
        (record server { mounts = server.mounts ++ ((codes "/", web_root) ∷ []) })

  -- The server before it listens.
  unfoldable pub bound_server :
      ⦃d : Double W⦄
      → Json W J
      → Env
      → ℤ
      → (Dict Text MetricDesc → Dict Text MetricDesc)
      → (Text → Option Text)
      → Text
      → HttpServer W J
  unfolding bind_static_frontend bind_routes
  bound_server j env uptime_seconds registry_order read_file web_root =
      bind_static_frontend read_file web_root
        (bind_routes j env uptime_seconds registry_order new_server)

-- No path stands twice.
abbrev pub unrepeated : List Text → Bool
unrepeated [] = true
unrepeated (path ∷ paths) = not (member path paths) && unrepeated paths

module _ {W J : Type 0} (j : Json W J) where
  -- A handler of the API answers or refuses with an error; that of the page may have none to send.
  abbrev pub IsServing : Text × Handler W J → Type 0
  IsServing (path, handler) =
      (req : Request) (store : Store W J)
      → IsAnswer j (handler req store)
        ⊎ ((path ≡ codes "/") × ((r : Response) × (handler req store ≡ some r) × (r.status ≡ 404)))

-- A handler that replies with the status 204 and nothing else.
abbrev pub IsEmptyReply : {W J : Type 0} → Text × Handler W J → Type 0
IsEmptyReply {W} {J} (path, handler) =
    (req : Request) (store : Store W J)
    → (r : Response) × (handler req store ≡ some r) × (r.status ≡ 204) × (r.content ≡ [])
