-- ===== src/Main/Tests.antt =====
-- Values of PORT.
use system_monitoring_dashbo.Prelude.{◌≡◌, refl, some}
use system_monitoring_dashbo.Prelude.Int.{pos}
use system_monitoring_dashbo.Prelude.Text.{codes}
use system_monitoring_dashbo.Main.{resolve_listen_port}

-- Text behind the number is ignored.
trailing_test : resolve_listen_port (some (codes "9000abc")) ≡ pos 9000
unfolding resolve_listen_port
trailing_test = refl
