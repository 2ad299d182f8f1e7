-- ===== src/Store/Lookup.antt =====
-- Reads of the store after one write.
use system_monitoring_dashbo.Prelude.{
  ℕ, arith, ◌≤◌, ◌<◌, ◌^◌, ◌≡◌, refl, sym, List, [], keep, length, Option, none, some,
}
use system_monitoring_dashbo.Prelude.Int.{ℤ}
use system_monitoring_dashbo.Prelude.Text.{Text}
use system_monitoring_dashbo.Prelude.Dict.{Dict, lookup, text_key}
use system_monitoring_dashbo.Prelude.Double.{Double}
use system_monitoring_dashbo.Ring
use system_monitoring_dashbo.Ring.{Ring, in_range}
use system_monitoring_dashbo.Ring.Contents
use system_monitoring_dashbo.Ring.Range
use system_monitoring_dashbo.Store.{
  Store, Sample, SampleVec, select, blank, blank_vec, append, append_vector, query, query_vector,
  count,
}
use system_monitoring_dashbo.Store.Series.{IsTable, IsSized, held, held_in, push-IsTable}

-- `select` keeps the elements of the closed interval, in order.
pub select-held {ℓ} :
    {A : Type ℓ} (ts_ms : A → ℤ) (metric : Text) (from_ms to_ms : ℤ) (table : Dict Text (Ring A))
    → select ts_ms metric from_ms to_ms table
      ≡ keep (in_range ts_ms from_ms to_ms) (held table metric)
unfolding select
select-held {A} ts_ms metric from_ms to_ms table = go (lookup metric table)
  where
    go :
        (o : Option (Ring A))
        → elim o [ none ↦ [] | some r ↦ Ring.range ts_ms r from_ms to_ms ]
          ≡ keep (in_range ts_ms from_ms to_ms) (held_in o)
    go none = refl
    go (some r) = Range.range-snapshot ts_ms from_ms to_ms r

-- The scalar and the vector series that a store holds.
abbrev pub scalars : {W J : Type 0} → Store W J → Text → List (Sample W)
scalars s metric = held s.series metric

abbrev pub vectors : {W J : Type 0} → Store W J → Text → List (SampleVec W)
vectors s metric = held s.vec_series metric

-- Neither the scalar nor the vector series of any name is longer.
abbrev pub IsWithin : {W J : Type 0} → ℕ → Store W J → Type 0
IsWithin n s = (metric : Text) → (length (scalars s metric) ≤ n) × (length (vectors s metric) ≤ n)

-- Every ring of the store is valid and has the store's capacity, which is at least 1.
pub record IsValid {W J : Type 0} (s : Store W J) : Type 0 where
  pub positive : 0 < s.per_metric_capacity
  pub small : s.per_metric_capacity ≤ 2 ^ 63
  pub scalar_rings : IsTable s.per_metric_capacity s.series
  pub vector_rings : IsTable s.per_metric_capacity s.vec_series

module _ {W J : Type 0} where
  pub query-scalars :
      (s : Store W J) (metric : Text) (from_ms to_ms : ℤ)
      → query s metric from_ms to_ms
        ≡ keep (in_range (λ x. x.ts_ms) from_ms to_ms) (scalars s metric)
  unfolding query
  query-scalars s metric from_ms to_ms = select-held (λ x. x.ts_ms) metric from_ms to_ms s.series

  pub query_vector-vectors :
      (s : Store W J) (metric : Text) (from_ms to_ms : ℤ)
      → query_vector s metric from_ms to_ms
        ≡ keep (in_range (λ x. x.ts_ms) from_ms to_ms) (vectors s metric)
  unfolding query_vector
  query_vector-vectors s metric from_ms to_ms =
      select-held (λ x. x.ts_ms) metric from_ms to_ms s.vec_series

  pub count-scalars :
      {s : Store W J} (metric : Text) → IsValid s → count s metric ≡ length (scalars s metric)
  unfolding count
  count-scalars {s} metric v = go (lookup metric s.series) (v.scalar_rings metric)
    where
      go :
          (o : Option (Ring (Sample W)))
          → ((r : Ring (Sample W)) → o ≡ some r → IsSized s.per_metric_capacity r)
          → elim o [ none ↦ 0 | some r ↦ r.size ] ≡ length (held_in o)
      go none h = refl
      go (some r) h = sym (Contents.length-snapshot (h r refl).valid)

  -- No series is longer than the store's capacity.
  pub length-scalars :
      {s : Store W J} (metric : Text)
      → IsValid s
      → length (scalars s metric) ≤ s.per_metric_capacity
  length-scalars {s} metric v = go (lookup metric s.series) (v.scalar_rings metric)
    where
      go :
          (o : Option (Ring (Sample W)))
          → ((r : Ring (Sample W)) → o ≡ some r → IsSized s.per_metric_capacity r)
          → length (held_in o) ≤ s.per_metric_capacity
      go none h = omega arith
      go (some r) h =
          let sized = h r refl in
          omega (arith, Contents.length-snapshot sized.valid, sized.valid.size_in, sized.sized)

  module _ ⦃d : Double W⦄ where
    pub append-IsValid :
        {s : Store W J} (metric : Text) (ts_ms : ℤ) (value : W)
        → IsValid s
        → IsValid (append s metric ts_ms value)
    unfolding append
    append-IsValid {s} metric ts_ms value v = record {
      positive = v.positive;
      small = v.small;
      scalar_rings =
          push-IsTable blank s.per_metric_capacity v.positive v.small metric _ s.series
            v.scalar_rings;
      vector_rings = v.vector_rings;
    }

    pub append_vector-IsValid :
        {s : Store W J} (metric : Text) (ts_ms : ℤ) (vals : List W)
        → IsValid s
        → IsValid (append_vector s metric ts_ms vals)
    unfolding append_vector
    append_vector-IsValid {s} metric ts_ms vals v = record {
      positive = v.positive;
      small = v.small;
      scalar_rings = v.scalar_rings;
      vector_rings =
          push-IsTable blank_vec s.per_metric_capacity v.positive v.small metric _ s.vec_series
            v.vector_rings;
    }
