-- ===== src/Api/Stored/Listed.antt =====
-- Which metrics GET /api/stored lists.
use system_monitoring_dashbo.Prelude.{
  ◌≡◌, Bool, true, false, ◌||◌, Option, none, some, List, [], ◌∷◌, All,
}
use system_monitoring_dashbo.Prelude.Text.{Text, Free, codes, text_eq}
use system_monitoring_dashbo.Prelude.Dict.{Dict, text_key}
use system_monitoring_dashbo.Json.{Json}
use system_monitoring_dashbo.Store.{Store}
use system_monitoring_dashbo.Selector.{build_selector}
use system_monitoring_dashbo.Selector.Parse.{IsClean, IsDistinct}
use system_monitoring_dashbo.Api.Stored.{LabelMap, stored_json}

-- A series by its metric and its labels: the metric holds no `{`, the labels are clean and no key
-- stands twice.
abbrev pub IsNamed : Text × Dict Text Text → Type 0
IsNamed (metric, labels) = Free b'{' metric × All IsClean labels × IsDistinct labels

-- One of the series is of the metric.
abbrev pub is_stored : Text → List (Text × Dict Text Text) → Bool
is_stored metric [] = false
is_stored metric ((m, labels) ∷ series) = text_eq m metric || is_stored metric series

abbrev pub selector_of : Text × Dict Text Text → Text
selector_of (metric, labels) = build_selector metric labels

abbrev is_there : Option LabelMap → Bool
is_there o = elim o [ none ↦ false | some _ ↦ true ]

module _ {W J : Type 0} (j : Json W J) where
  -- The entry of a listed metric begins with its name.
  abbrev pub HasName : Dict Text Text → Text × LabelMap → Type 0
  HasName kinds entry =
      (rest : List (Text × J)) × (stored_json j kinds entry
        ≡ j.obj ((codes "name", j.str entry.0) ∷ rest))
