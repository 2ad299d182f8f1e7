-- ===== src/Sampler/Named.antt =====
-- Writes under a name that `metric_with_labels` makes of a registered metric and of labels that the
-- registry allows it.
use system_monitoring_dashbo.Prelude.{
  Bool, true, false, ◌≡◌, refl, ap, ◌∙◌, List, [], ◌∷◌, ◌++◌, All, All-append,
}
use system_monitoring_dashbo.Prelude.Text.{Text, codes, text_eq}
use system_monitoring_dashbo.Prelude.Double.{Double}
use system_monitoring_dashbo.Selector.{metric_with_labels}
use system_monitoring_dashbo.Store.{Store}
use system_monitoring_dashbo.Store.History.{
  Write, scalar, vector, snapshot, metadata, run, run-concat,
}
use system_monitoring_dashbo.Prelude.Dict.{lookup, text_key}
use system_monitoring_dashbo.Api.Registry.{metric_registry, member}
use system_monitoring_dashbo.Api.Validate.{IsAllowed}

-- `cpu.core_pct` is the only metric that is stored as vectors.
abbrev pub is_vector_metric : Text → Bool
is_vector_metric metric = text_eq (codes "cpu.core_pct") metric

-- The name of a series belongs to a registered metric, stored as vectors or not, with labels that it
-- allows, the host first.
abbrev pub IsSelector : Bool → Text → Text → Type 0
IsSelector is_vector host name =
    (metric : Text) × (labels : List (Text × Text)) × IsAllowed metric
      ((codes "host", host) ∷ labels)
    × (is_vector_metric metric ≡ is_vector)
    × (name ≡ metric_with_labels metric ((codes "host", host) ∷ labels))

-- What the sampler writes: series so named, and the process table.
abbrev pub IsNamed : {W J : Type 0} → Text → Write W J → Type 0
IsNamed host (scalar name _ _) = IsSelector false host name
IsNamed host (vector name _ _) = IsSelector true host name
IsNamed host (snapshot key _) = key ≡ codes "processes"
IsNamed host (metadata _ _) = ⊥

-- The metrics that belong to the whole host.
pub host-IsAllowed :
    (host : Text)
    → (IsAllowed (codes "cpu.total_pct") ((codes "host", host) ∷ []))
      × (IsAllowed (codes "cpu.core_pct") ((codes "host", host) ∷ []))
      × (IsAllowed (codes "mem.used") ((codes "host", host) ∷ []))
      × (IsAllowed (codes "mem.free") ((codes "host", host) ∷ []))
unfolding metric_registry lookup member
host-IsAllowed host =
    ((_, refl, (refl, tt)), (_, refl, (refl, tt)), (_, refl, (refl, tt)), (_, refl, (refl, tt)))

pub disk-IsAllowed :
    (host : Text)
    → (dev : Text)
    → (IsAllowed (codes "disk.read") ((codes "host", host) ∷ (codes "dev", dev) ∷ []))
      × (IsAllowed (codes "disk.write") ((codes "host", host) ∷ (codes "dev", dev) ∷ []))
unfolding metric_registry lookup member
disk-IsAllowed host dev = ((_, refl, (refl, (refl, tt))), (_, refl, (refl, (refl, tt))))

pub net-IsAllowed :
    (host : Text)
    → (iface : Text)
    → (IsAllowed (codes "net.rx") ((codes "host", host) ∷ (codes "iface", iface) ∷ []))
      × (IsAllowed (codes "net.tx") ((codes "host", host) ∷ (codes "iface", iface) ∷ []))
unfolding metric_registry lookup member
net-IsAllowed host iface = ((_, refl, (refl, (refl, tt))), (_, refl, (refl, (refl, tt))))

module _ {W J : Type 0} ⦃d : Double W⦄ (host : Text) where
  -- The store comes from the earlier one by a sequence of such writes.
  abbrev pub IsWritten : Store W J → Store W J → Type 0
  IsWritten before after =
      (log : List (Write W J)) × All (IsNamed host) log × (after ≡ run before log)

  pub none-IsWritten : (s : Store W J) → IsWritten s s
  unfolding run
  none-IsWritten s = ([], tt, refl)

  pub then-IsWritten :
      (before middle after : Store W J)
      → IsWritten before middle
      → IsWritten middle after
      → IsWritten before after
  then-IsWritten before middle after (first, named, made) (second, others, made_then) = (
    first ++ second,
    All-append (IsNamed host) first second named others,
    made_then ∙ ap (λ s. run s second) made ∙ run-concat before first second,
  )
