-- ===== src/Selector/Tests.antt =====
-- Names that the program uses, and the theorems about names at them.
use system_monitoring_dashbo.Prelude.{◌≡◌, ◌≢◌, refl, [], ◌∷◌, arith, All}
use system_monitoring_dashbo.Prelude.Text.{Text, codes}
use system_monitoring_dashbo.Prelude.Dict.{Dict, lookup, emplace, text_key}
use system_monitoring_dashbo.Scan.{tokens}
use system_monitoring_dashbo.Selector.{
  Parts, metric_with_labels, build_selector, parse_selector, parse_label_filters,
}
use system_monitoring_dashbo.Selector.Parse.{
  IsClean, IsDistinct, parse_selector-build_selector, build_selector-ne,
}
use system_monitoring_dashbo.Selector.Filters.{IsFilter, parse_label_filters-IsFilters}

abbrev disk_labels : Dict Text Text
disk_labels = (codes "host", codes "ubuntu") ∷ (codes "dev", codes "sda") ∷ []

abbrev swapped : Dict Text Text
swapped = (codes "dev", codes "sda") ∷ (codes "host", codes "ubuntu") ∷ []

metric_with_labels_run :
    metric_with_labels (codes "disk.read") disk_labels ≡ codes "disk.read{host=ubuntu,dev=sda}"
unfolding metric_with_labels
metric_with_labels_run = refl

parse_label_filters_run :
    parse_label_filters (codes "host:a:b,x:,host:c,dev:sda")
    ≡ (codes "host", codes "a:b") ∷ (codes "dev", codes "sda") ∷ []
unfolding parse_label_filters tokens emplace
parse_label_filters_run = refl

disk_labels-IsClean : All IsClean disk_labels
disk_labels-IsClean = omega arith

swapped-IsClean : All IsClean swapped
swapped-IsClean = omega arith

disk_labels-IsDistinct : IsDistinct disk_labels
unfolding lookup
disk_labels-IsDistinct = (refl, (refl, tt))

swapped-IsDistinct : IsDistinct swapped
unfolding lookup
swapped-IsDistinct = (refl, (refl, tt))

abbrev disk_parts : Parts
disk_parts = parse_selector (build_selector (codes "disk.read") disk_labels)

parse_selector-build_selector_example :
    (disk_parts.metric ≡ codes "disk.read")
    × ((label_key : Text) → lookup label_key disk_parts.labels ≡ lookup label_key disk_labels)
parse_selector-build_selector_example =
    parse_selector-build_selector (codes "disk.read") disk_labels (omega arith) disk_labels-IsClean
      disk_labels-IsDistinct

-- A request whose labels are iterated in the other order asks for another series.
build_selector-ne_example :
    build_selector (codes "disk.read") disk_labels ≢ build_selector (codes "disk.read") swapped
build_selector-ne_example =
    build_selector-ne (codes "disk.read") disk_labels swapped (omega arith)
      (disk_labels-IsClean, disk_labels-IsDistinct) (swapped-IsClean, swapped-IsDistinct) (λ e. cc)

parse_label_filters-IsFilters_example :
    All IsFilter (parse_label_filters (codes "host:a,dev:sda"))
    × IsDistinct (parse_label_filters (codes "host:a,dev:sda"))
parse_label_filters-IsFilters_example = parse_label_filters-IsFilters (codes "host:a,dev:sda")
