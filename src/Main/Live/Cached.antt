-- ===== src/Main/Live/Cached.antt =====
-- GET /api/info while the sampler thread runs.
use system_monitoring_dashbo.Prelude.{ℕ, ◌≡◌, refl, ap, false, Option, some, List}
use system_monitoring_dashbo.Prelude.Text.{Text, codes}
use system_monitoring_dashbo.Prelude.Dict.{lookup, insert, text_key}
use system_monitoring_dashbo.Prelude.Double.{Double}
use system_monitoring_dashbo.Json.{Json}
use system_monitoring_dashbo.Store.{Store, get_metadata, or_null}
use system_monitoring_dashbo.Sampler.{Sampler}
use system_monitoring_dashbo.Api.{Request, write_json_response}
use system_monitoring_dashbo.Api.Routes.{info}
use system_monitoring_dashbo.Main.Info.{Machine, collect_system_info, system_json}
use system_monitoring_dashbo.Main.Server.{Event}
use system_monitoring_dashbo.Main.Live.{run_live, start_live}
use system_monitoring_dashbo.Main.Live.Kept.{started-IsLive}

module _ {W J : Type 0} ⦃d : Double W⦄ (j : Json W J) (host : Text) (pw_name : ℕ → Option Text)
    (machine : Machine) (sampler : Sampler W) (events : List Event) where
  abbrev at_hand : Store W J
  at_hand = (run_live j host pw_name events (start_live j machine sampler)).store

  lookup-at_hand :
      lookup (codes "system") at_hand.metadata ≡ some (system_json j (collect_system_info machine))
  unfolding lookup insert
  lookup-at_hand =
      ap (lookup (codes "system"))
        (started-IsLive j host pw_name machine sampler events).kept.cached_only

  -- At every moment while the server runs with its threads side by side, /api/info?key=system answers
  -- with the metadata that was collected when it started, if the JSON library takes them neither for
  -- null nor for empty.
  pub info-run_live :
      (req : Request)
      → req (codes "key") ≡ codes "system"
      → j.is_null (system_json j (collect_system_info machine)) ≡ false
      → j.is_empty (system_json j (collect_system_info machine)) ≡ false
      → info j req (run_live j host pw_name events (start_live j machine sampler)).store
        ≡ write_json_response j (system_json j (collect_system_info machine)) 200
  unfolding info get_metadata
  info-run_live req key full filled =
      let found = ap (or_null j.null) lookup-at_hand in rw (info, key, found, full, filled) refl
