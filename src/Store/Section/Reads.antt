-- ===== src/Store/Section/Reads.antt =====
-- The reading methods of store/memory_store.cpp by their critical sections: `query`, `query_vector` and
-- `count` find the series under the lock of the table, in one store, and read its ring under the lock
-- of the series, in a later one.
use system_monitoring_dashbo.Prelude.{
  ℕ, ◌≡◌, refl, sym, true, false, none, some, List, [], inl, inr, Option-cases,
}
use system_monitoring_dashbo.Prelude.Int.{ℤ}
use system_monitoring_dashbo.Prelude.Text.{Text}
use system_monitoring_dashbo.Prelude.Dict.{Dict, lookup, has_key, text_key}
use system_monitoring_dashbo.Prelude.Double.{Double}
use system_monitoring_dashbo.Ring.{Ring}
use system_monitoring_dashbo.Store.{
  Store, Sample, SampleVec, find_series, query, query_vector, count, vec_series_exists, select,
}
use system_monitoring_dashbo.Store.Section.{Section, perform}
use system_monitoring_dashbo.Store.Section.Same.{IsPresent}
use system_monitoring_dashbo.Store.Section.Pending.{
  perform-scalar-IsPresent, perform-vector-IsPresent,
}

module _ {W J : Type 0} where
  -- The series stays where it was found, so it is read by its name.
  unfoldable pub query_sections : Store W J → Store W J → Text → ℤ → ℤ → List (Sample W)
  unfolding find_series
  query_sections found s metric from_ms to_ms = elim (find_series found metric) [
    | none ↦ []
    | some _ ↦ query s metric from_ms to_ms
  ]

  unfoldable pub query_vector_sections : Store W J → Store W J → Text → ℤ → ℤ → List (SampleVec W)
  query_vector_sections found s metric from_ms to_ms = elim (lookup metric found.vec_series) [
    | none ↦ []
    | some _ ↦ query_vector s metric from_ms to_ms
  ]

  unfoldable pub count_sections : Store W J → Store W J → Text → ℕ
  count_sections found s metric = elim (find_series found metric) [
    | none ↦ 0
    | some _ ↦ count s metric
  ]

select-absent {ℓ} :
    {A : Type ℓ} (ts_ms : A → ℤ) (metric : Text) (from_ms to_ms : ℤ) (table : Dict Text (Ring A))
    → lookup metric table ≡ none
    → select ts_ms metric from_ms to_ms table ≡ []
unfolding select
select-absent ts_ms metric from_ms to_ms table e = rw (select, e) refl

-- Every series of the first store is there in the second.
abbrev pub IsGrown : {W J : Type 0} → Store W J → Store W J → Type 0
IsGrown a b =
    ((metric : Text) → IsPresent metric a.series → IsPresent metric b.series)
    × ((metric : Text) → IsPresent metric a.vec_series → IsPresent metric b.vec_series)

-- No section removes a series.
pub perform-IsGrown :
    {W J : Type 0} ⦃d : Double W⦄ (s : Store W J) (op : Section W J) → IsGrown s (perform s op)
perform-IsGrown s op = (
  λ metric there. perform-scalar-IsPresent metric s op there,
  λ metric there. perform-vector-IsPresent metric s op there,
)

module _ {W J : Type 0} where
  pub IsGrown-refl : (s : Store W J) → IsGrown s s
  IsGrown-refl s = (λ metric there. there, λ metric there. there)

  pub IsGrown-trans : (a b c : Store W J) → IsGrown a b → IsGrown b c → IsGrown a c
  IsGrown-trans a b c (ab, ab') (bc, bc') =
      (λ metric there. bc metric (ab metric there), λ metric there. bc' metric (ab' metric there))

  module _ (a b c : Store W J) (grown : IsGrown a b) where
    -- What is not there when the reader looks it up was not there before either.
    absent_before : (metric : Text) → lookup metric b.series ≡ none → lookup metric a.series ≡ none
    absent_before metric e = elim (Option-cases (lookup metric a.series)) [
      | inl absent ↦ absent
      | inr there ↦ let (r, found) = grown.0 metric there in absurd (cc)
    ]

    -- A query of a name that has no series is answered as it would have been when it began.
    pub query_sections-absent :
        (metric : Text) (from_ms to_ms : ℤ)
        → lookup metric b.series ≡ none
        → query_sections b c metric from_ms to_ms ≡ query a metric from_ms to_ms
    unfolding query_sections query find_series
    query_sections-absent metric from_ms to_ms e =
        rw (query_sections, find_series, e)
          (sym
            (select-absent (λ x. x.ts_ms) metric from_ms to_ms a.series (absent_before metric e)))

    -- All others are answered as they would be when they end.
    pub query_sections-found :
        (metric : Text) (from_ms to_ms : ℤ)
        → IsPresent metric b.series
        → query_sections b c metric from_ms to_ms ≡ query c metric from_ms to_ms
    unfolding query_sections find_series
    query_sections-found metric from_ms to_ms (r, found) =
        rw (query_sections, find_series, found) refl

    pub query_vector_sections-found :
        (metric : Text) (from_ms to_ms : ℤ)
        → IsPresent metric b.vec_series
        → query_vector_sections b c metric from_ms to_ms ≡ query_vector c metric from_ms to_ms
    unfolding query_vector_sections
    query_vector_sections-found metric from_ms to_ms (r, found) =
        rw (query_vector_sections, found) refl

    count_sections-absent :
        (metric : Text) → lookup metric b.series ≡ none → count_sections b c metric ≡ count a metric
    unfolding count_sections count find_series
    count_sections-absent metric e =
        rw (count_sections, count, find_series, e, absent_before metric e) refl

    count_sections-found :
        (metric : Text) → IsPresent metric b.series → count_sections b c metric ≡ count c metric
    unfolding count_sections find_series
    count_sections-found metric (r, found) = rw (count_sections, find_series, found) refl

module _ {W J : Type 0} (s : Store W J) (metric : Text) where
  pub vec_series_exists-true : IsPresent metric s.vec_series → vec_series_exists s metric ≡ true
  unfolding vec_series_exists
  vec_series_exists-true (r, found) = rw (vec_series_exists, has_key, found) refl

  pub vec_series_exists-false :
      lookup metric s.vec_series ≡ none → vec_series_exists s metric ≡ false
  unfolding vec_series_exists
  vec_series_exists-false absent = rw (vec_series_exists, has_key, absent) refl

-- No name is both a scalar and a vector series.
abbrev pub IsApart : {W J : Type 0} → Store W J → Type 0
IsApart s = (metric : Text) → IsPresent metric s.series → lookup metric s.vec_series ≡ none
