-- ===== src/Selector/Print.antt =====
-- The names that the collectors write are the names that queries build.
use system_monitoring_dashbo.Prelude.{◌≡◌, ◌≢◌, refl, List, [], ◌∷◌}
use system_monitoring_dashbo.Prelude.Text.{Text}
use system_monitoring_dashbo.Selector.{metric_with_labels, build_selector}

-- With at least one label, `build_selector` builds the name that `metric_with_labels` builds from
-- the labels in the order in which the map is iterated.
pub build_selector-metric_with_labels :
    (metric : Text) (labels : List (Text × Text))
    → labels ≢ []
    → build_selector metric labels ≡ metric_with_labels metric labels
unfolding build_selector metric_with_labels
build_selector-metric_with_labels metric [] h = absurd (h refl)
build_selector-metric_with_labels metric (label ∷ labels) h = refl
