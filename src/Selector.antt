-- ===== src/Selector.antt =====
-- Names of series. include/metrics/metric_key.h: `metric_with_labels`, by which the collectors name
-- a series; api/routes.cpp: `build_selector`, `parse_selector` and `parse_label_filters`. A map of
-- labels is a dictionary in the order in which it is iterated.
pub mod Parse
pub mod Print
pub mod Filters
mod Tests
use system_monitoring_dashbo.Prelude.{
  ℕ, Bool, true, false, ◌&&◌, not, Option, none, some, List, [], ◌∷◌, ◌++◌, if◌then◌else◌,
}
use system_monitoring_dashbo.Prelude.Text.{Text, codes, is_nil, split_at}
use system_monitoring_dashbo.Prelude.Dict.{Dict, insert, emplace, text_key}
use system_monitoring_dashbo.Scan.{tokens}

-- `MetricSelectorParts`
pub record Parts : Type 0 where
  pub metric : Text
  pub labels : Dict Text Text

-- The loop of `metric_with_labels` and of `build_selector`.
unfoldable pub write_labels : Bool → List (Text × Text) → Text
write_labels first [] = []
write_labels first ((k, v) ∷ kvs) =
    (if first then [] else codes ",") ++ (k ++ (b'=' ∷ (v ++ write_labels false kvs)))

unfoldable pub metric_with_labels : Text → List (Text × Text) → Text
unfolding write_labels
metric_with_labels name kvs = name ++ (b'{' ∷ (write_labels true kvs ++ (b'}' ∷ [])))

unfoldable pub build_selector : Text → Dict Text Text → Text
unfolding write_labels
build_selector metric_name [] = metric_name
build_selector metric_name (label ∷ labels) =
    metric_name ++ (b'{' ∷ (write_labels true (label ∷ labels) ++ (b'}' ∷ [])))

-- The loop of `parse_selector` over the tokens between the braces. It fills an unordered map: the list
-- is its contents, and who iterates it applies an order of iteration first.
pub read_labels : List Text → Dict Text Text → Dict Text Text
read_labels [] labels = labels
read_labels (token ∷ ts) labels =
    read_labels ts
      (elim (split_at b'=' token) [ none ↦ labels | some (key, value) ↦ insert key value labels ])

-- What `parse_selector` reads behind the opening brace.
pub read_inside : Option (Text × Text) → Dict Text Text
unfolding read_labels
read_inside none = []
read_inside (some (inside, _)) = read_labels (tokens b',' inside) []

pub parse_selector : Text → Parts
unfolding read_inside
parse_selector selector = elim (split_at b'{' selector) [
  | none ↦ record { metric = selector; labels = [] }
  | some (metric, rest) ↦ record { metric = metric; labels = read_inside (split_at b'}' rest) }
]

-- The loop of `parse_label_filters`.
pub read_filters : List Text → Dict Text Text → Dict Text Text
read_filters [] labels = labels
read_filters (token ∷ ts) labels = read_filters ts (elim (split_at b':' token) [
  | none ↦ labels
  | some (key, value) ↦
      if not (is_nil key) && not (is_nil value) then emplace key value labels else labels
])

pub parse_label_filters : Text → Dict Text Text
unfolding read_filters
parse_label_filters encoded = if is_nil encoded then [] else read_filters (tokens b',' encoded) []
