-- ===== src/Api/Stored/Tests.antt =====
-- A store with two series, as GET /api/stored lists it.
use system_monitoring_dashbo.Prelude.{ℕ, List, [], ◌∷◌}
use system_monitoring_dashbo.Prelude.Int.{pos}
use system_monitoring_dashbo.Prelude.Text.{Text, codes}
use system_monitoring_dashbo.Prelude.Dict.{Dict, text_key}
use system_monitoring_dashbo.Prelude.Double.{whole_double}
use system_monitoring_dashbo.Store.{Store, new, append}

abbrev series : List (Text × Dict Text Text)
series =
    (codes "mem.used", (codes "host", codes "pi") ∷ [])
    ∷ (codes "disk.read", (codes "host", codes "pi") ∷ (codes "dev", codes "sda") ∷ [])
    ∷ []

abbrev two_series : Store ℕ Text
two_series =
    append (append (new 3 1) (codes "mem.used{host=pi}") (pos 7) 4)
      (codes "disk.read{host=pi,dev=sda}") (pos 7) 5
