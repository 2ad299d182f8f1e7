-- ===== src/Api/Registry.antt =====
-- The registry of metrics, the validation of a request's metric and labels, and units.
use system_monitoring_dashbo.Prelude.{
  Bool, false, ◌||◌, not, Option, none, some, List, [], ◌∷◌, ◌++◌, if◌then◌else◌,
}
use system_monitoring_dashbo.Prelude.Text.{Text, codes, contains, text_eq}
use system_monitoring_dashbo.Prelude.Dict.{Dict, lookup, text_key}

-- `MetricDesc`
pub record MetricDesc : Type 0 where
  pub unit : Text
  pub labels : List Text

abbrev desc : Text → List Text → MetricDesc
desc unit labels = record { unit = unit; labels = labels }

-- `kMetricRegistry`
unfoldable pub metric_registry : Dict Text MetricDesc
metric_registry =
    (codes "cpu.total_pct", desc (codes "%") (codes "host" ∷ []))
    ∷ (codes "cpu.core_pct", desc (codes "%") (codes "host" ∷ codes "core" ∷ []))
    ∷ (codes "mem.used", desc (codes "bytes") (codes "host" ∷ []))
    ∷ (codes "mem.free", desc (codes "bytes") (codes "host" ∷ []))
    ∷ (codes "disk.read", desc (codes "bytes/sec") (codes "host" ∷ codes "dev" ∷ []))
    ∷ (codes "disk.write", desc (codes "bytes/sec") (codes "host" ∷ codes "dev" ∷ []))
    ∷ (codes "net.rx", desc (codes "bytes/sec") (codes "host" ∷ codes "iface" ∷ []))
    ∷ (codes "net.tx", desc (codes "bytes/sec") (codes "host" ∷ codes "iface" ∷ []))
    ∷ []

-- `kPermittedLabelUniverse`
unfoldable pub permitted_label_universe : List Text
permitted_label_universe =
    codes "host" ∷ codes "core" ∷ codes "dev" ∷ codes "iface" ∷ codes "pid" ∷ codes "comm" ∷ []

-- `count(label) != 0` of a set
unfoldable pub member : Text → List Text → Bool
member k [] = false
member k (j ∷ ks) = text_eq j k || member k ks

abbrev pub quoted : Text → Text
quoted s = b'\'' ∷ (s ++ (b'\'' ∷ []))

-- The loop of `validate_metric_and_labels` over the labels, in the order of iteration: `some` is
-- the error message of the first label that is refused.
unfoldable pub refuse_label : Text → List Text → Dict Text Text → Option Text
unfolding member
refuse_label metric_name allowed [] = none
refuse_label metric_name allowed ((label_key, v) ∷ labels) =
    let later = refuse_label metric_name allowed labels in
    if not (member label_key allowed)
    then some (
        codes "Label "
        ++ (quoted label_key ++ (codes " not allowed for metric " ++ quoted metric_name)))
    else if not (member label_key permitted_label_universe)
    then some
        (codes "Label " ++ (quoted label_key ++ codes " is not in the allowed label universe"))
    else later

-- `none` for true, the error message for false.
unfoldable pub validate_metric_and_labels : Text → Dict Text Text → Option Text
unfolding refuse_label
validate_metric_and_labels metric_name labels = elim (lookup metric_name metric_registry) [
  | none ↦ some (codes "Unknown metric " ++ quoted metric_name)
  | some found ↦ refuse_label metric_name found.labels labels
]

-- The part of `infer_unit_for_metric` for a metric that is not registered.
unfoldable pub guess_unit : Text → Text
guess_unit name =
    if contains (codes "pct") name
    then codes "%"
    else if contains (codes "bytes") name
    then if contains (codes "read") name
        || contains (codes "write") name
        || contains (codes "rx") name
        || contains (codes "tx") name
      then codes "bytes/sec"
      else codes "bytes"
    else if contains (codes "count") name
    then codes "count"
    else codes "value"

unfoldable pub infer_unit_for_metric : Text → Text
unfolding guess_unit
infer_unit_for_metric metric_name = elim (lookup metric_name metric_registry) [
  | none ↦ guess_unit metric_name
  | some found ↦ found.unit
]
