-- ===== src/Api/Stored.antt =====
-- GET /api/stored: `describe_stored_metrics`, which lists the metrics of the stored series with the
-- values of their labels.
pub mod Listed
mod Tests
use system_monitoring_dashbo.Prelude.{
  ℕ, Bool, true, false, ◌&&◌, ◌||◌, List, [], ◌∷◌, ◌++◌, map, if◌then◌else◌, ltb, ◌==◌,
}
use system_monitoring_dashbo.Prelude.Text.{Text, codes, is_nil, contains, text_eq}
use system_monitoring_dashbo.Prelude.Dict.{Dict, lookup, insert, or_else, text_key}
use system_monitoring_dashbo.Json.{Json}
use system_monitoring_dashbo.Store.{Store, list_series_keys}
use system_monitoring_dashbo.Selector.{Parts, parse_selector}
use system_monitoring_dashbo.Api.{Reply, write_json_response}
use system_monitoring_dashbo.Api.Registry.{member}

-- `<` of strings: byte by byte.
unfoldable pub text_less : Text → Text → Bool
text_less [] [] = false
text_less [] (b ∷ t) = true
text_less (a ∷ s) [] = false
text_less (a ∷ s) (b ∷ t) = ltb a b || (a == b && text_less s t)

-- `std::sort` by a text of the elements.
module _ {ℓ} {A : Type ℓ} (name : A → Text) where
  unfoldable pub insert_by : A → List A → List A
  unfolding text_less
  insert_by a [] = a ∷ []
  insert_by a (x ∷ xs) =
      let later = insert_by a xs in if text_less (name x) (name a) then x ∷ later else a ∷ x ∷ xs

  unfoldable pub sort_by : List A → List A
  unfolding insert_by
  sort_by [] = []
  sort_by (a ∷ xs) = insert_by a (sort_by xs)

-- The values of each label.
abbrev pub LabelMap : Type 0
LabelMap = Dict Text (List Text)

-- `label_map[label_key].insert(label_value)`, into a set
unfoldable pub add_value : Text → Text → LabelMap → LabelMap
unfolding lookup insert member
add_value label_key label_value label_map =
    let values = or_else (lookup label_key label_map) [] in
    insert label_key (if member label_value values then values else values ++ (label_value ∷ []))
      label_map

unfoldable pub add_values : Dict Text Text → LabelMap → LabelMap
unfolding add_value
add_values [] label_map = label_map
add_values ((label_key, label_value) ∷ labels) label_map =
    add_values labels (add_value label_key label_value label_map)

-- What the first loop fills: `values_by_metric` and `metric_kind`.
pub record Found : Type 0 where
  pub values_by_metric : Dict Text LabelMap
  pub metric_kind : Dict Text Text

-- One selector, its labels in the order in which they are iterated; one without a metric is skipped.
unfoldable pub add_parts : (Dict Text Text → Dict Text Text) → Parts → Found → Found
unfolding lookup insert add_values
add_parts labels_order parts found =
    let kind =
      if text_eq parts.metric (codes "cpu.core_pct") then codes "vector" else codes "scalar" in
    let label_map = or_else (lookup parts.metric found.values_by_metric) [] in
    if is_nil parts.metric then found else record {
      values_by_metric =
          insert parts.metric (add_values (labels_order parts.labels) label_map)
            found.values_by_metric;
      metric_kind = insert parts.metric kind found.metric_kind;
    }

unfoldable pub add_selectors : (Dict Text Text → Dict Text Text) → List Text → Found → Found
unfolding add_parts
add_selectors labels_order [] found = found
add_selectors labels_order (selector ∷ selectors) found =
    add_selectors labels_order selectors (add_parts labels_order (parse_selector selector) found)

abbrev pub stored_unit : Text → Text
stored_unit metric =
    if contains (codes "pct") metric
    then codes "%"
    else if contains (codes "bytes") metric
    then codes "bytes"
    else codes "value"

module _ {W J : Type 0} (j : Json W J) where
  abbrev pub values_json : Text × List Text → Text × J
  values_json (label_key, values) = (label_key, j.arr (map j.str (sort_by (λ v. v) values)))

  unfoldable pub stored_json : Dict Text Text → Text × LabelMap → J
  unfolding lookup sort_by
  stored_json metric_kind (metric, labels_map) = j.obj (
      (codes "name", j.str metric)
      ∷ (codes "kind", j.str (or_else (lookup metric metric_kind) []))
      ∷ (codes "unit", j.str (stored_unit metric))
      ∷ (codes "labels", j.obj (map values_json labels_map))
      ∷ [])

  -- The names are sorted before they are put into JSON, not after.
  unfoldable pub describe_stored_metrics : (Dict Text Text → Dict Text Text) → Store W J → J
  unfolding add_selectors stored_json sort_by
  describe_stored_metrics labels_order store =
      let found =
        add_selectors labels_order (list_series_keys store)
          (record { values_by_metric = []; metric_kind = [] }) in
      let metrics_array =
        map (stored_json found.metric_kind) (sort_by (λ m. m.0) found.values_by_metric) in
      j.obj ((codes "metrics", j.arr metrics_array) ∷ [])

  -- GET /api/stored
  unfoldable pub stored : (Dict Text Text → Dict Text Text) → Store W J → Reply
  unfolding describe_stored_metrics
  stored labels_order store = write_json_response j (describe_stored_metrics labels_order store) 200
