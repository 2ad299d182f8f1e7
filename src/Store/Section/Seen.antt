-- ===== src/Store/Section/Seen.antt =====
-- Stores that hold the same answer the same.
use system_monitoring_dashbo.Prelude.{ℕ, ◌≡◌, refl, sym, ap, ◌∙◌, Option, none, some, keep}
use system_monitoring_dashbo.Prelude.Int.{ℤ}
use system_monitoring_dashbo.Prelude.Text.{Text}
use system_monitoring_dashbo.Prelude.Dict.{Dict, lookup, or_else, text_key}
use system_monitoring_dashbo.Prelude.Double.{Double}
use system_monitoring_dashbo.Ring
use system_monitoring_dashbo.Ring.{Ring, in_range}
use system_monitoring_dashbo.Ring.History.{snapshot-new, size-new}
use system_monitoring_dashbo.Store.{
  Store, Sample, blank, blank_vec, query, query_vector, count, find_series, select,
}
use system_monitoring_dashbo.Store.Series.{held_in}
use system_monitoring_dashbo.Store.Lookup.{select-held, scalars, vectors}
use system_monitoring_dashbo.Store.Section.Same.{ring_at, IsSame}

-- What a caller can see of a store.
abbrev pub IsSeenAlike : {W J : Type 0} → Store W J → Store W J → Type 0
IsSeenAlike s t =
    ((metric : Text) (from_ms to_ms : ℤ)
      → query s metric from_ms to_ms ≡ query t metric from_ms to_ms)
    × ((metric : Text) (from_ms to_ms : ℤ)
        → query_vector s metric from_ms to_ms ≡ query_vector t metric from_ms to_ms)
    × ((metric : Text) → count s metric ≡ count t metric)
    × (s.snapshots ≡ t.snapshots)
    × (s.metadata ≡ t.metadata)

module _ {ℓ} {A : Type ℓ} (blank : A) (c : ℕ) where
  held_in-or_else : (o : Option (Ring A)) → held_in o ≡ Ring.snapshot (or_else o (Ring.new blank c))
  held_in-or_else none = sym (snapshot-new blank c)
  held_in-or_else (some r) = refl

  size-or_else :
      (o : Option (Ring A))
      → elim o [ none ↦ 0 | some r ↦ r.size ] ≡ (or_else o (Ring.new blank c)).size
  size-or_else none = sym (size-new blank c)
  size-or_else (some r) = refl

  -- A table that lacks a series answers as if it had an empty one.
  select-ring_at :
      (ts_ms : A → ℤ) (table : Dict Text (Ring A)) (metric : Text) (from_ms to_ms : ℤ)
      → select ts_ms metric from_ms to_ms table
        ≡ keep (in_range ts_ms from_ms to_ms) (Ring.snapshot (ring_at blank c table metric))
  select-ring_at ts_ms table metric from_ms to_ms =
      select-held ts_ms metric from_ms to_ms table
      ∙ ap (keep (in_range ts_ms from_ms to_ms)) (held_in-or_else (lookup metric table))

select_same {ℓ} :
    {A : Type ℓ} (blank : A) (c c' : ℕ) (ts_ms : A → ℤ) (table table' : Dict Text (Ring A))
    (metric : Text) (from_ms to_ms : ℤ)
    → ring_at blank c table metric ≡ ring_at blank c' table' metric
    → select ts_ms metric from_ms to_ms table ≡ select ts_ms metric from_ms to_ms table'
select_same blank c c' ts_ms table table' metric from_ms to_ms same =
    select-ring_at blank c ts_ms table metric from_ms to_ms
    ∙ ap (λ r. keep (in_range ts_ms from_ms to_ms) (Ring.snapshot r)) same
    ∙ sym (select-ring_at blank c' ts_ms table' metric from_ms to_ms)

module _ {W J : Type 0} ⦃d : Double W⦄ where
  pub IsSame-IsSeenAlike : (s t : Store W J) → IsSame s t → IsSeenAlike s t
  unfolding query query_vector count find_series
  IsSame-IsSeenAlike s t same = (
    λ metric from_ms to_ms.
        select_same blank s.per_metric_capacity t.per_metric_capacity (λ x. x.ts_ms) s.series
          t.series metric from_ms to_ms (same.scalars_same metric),
    λ metric from_ms to_ms.
        select_same blank_vec s.per_metric_capacity t.per_metric_capacity (λ x. x.ts_ms)
          s.vec_series t.vec_series metric from_ms to_ms (same.vectors_same metric),
    λ metric.
        size-or_else blank s.per_metric_capacity (lookup metric s.series)
        ∙ ap (λ (r : Ring (Sample W)). r.size) (same.scalars_same metric)
        ∙ sym (size-or_else blank t.per_metric_capacity (lookup metric t.series)),
    same.snapshots_same,
    same.metadata_same,
  )

  -- They hold the same samples under every name.
  pub IsSame-held :
      (s t : Store W J)
      → IsSame s t
      → (metric : Text)
      → (scalars s metric ≡ scalars t metric) × (vectors s metric ≡ vectors t metric)
  IsSame-held s t same metric = (
    held_in-or_else blank s.per_metric_capacity (lookup metric s.series)
        ∙ ap Ring.snapshot (same.scalars_same metric)
        ∙ sym (held_in-or_else blank t.per_metric_capacity (lookup metric t.series)),
    held_in-or_else blank_vec s.per_metric_capacity (lookup metric s.vec_series)
        ∙ ap Ring.snapshot (same.vectors_same metric)
        ∙ sym (held_in-or_else blank_vec t.per_metric_capacity (lookup metric t.vec_series)),
  )
