-- ===== src/Main/Bind/Tests.antt =====
-- A server for a host with a page.
use system_monitoring_dashbo.Prelude.{Option, some}
use system_monitoring_dashbo.Prelude.Text.{Text, codes}
use system_monitoring_dashbo.Prelude.Double.{whole_double}
use system_monitoring_dashbo.Api.{Env}

abbrev env : Env
env = record { host_label = codes "pi"; labels_order = λ labels. labels }

abbrev page : Text → Option Text
page path = some (codes "<html></html>")
