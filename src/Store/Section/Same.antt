-- ===== src/Store/Section/Same.antt =====
-- Stores that hold the same, though one of them may have made a series that is still empty.
use system_monitoring_dashbo.Prelude.{
  ℕ, ◌≡◌, refl, sym, ap, ◌∙◌, Bool, true, false, List, if◌then◌else◌, Option, none, some,
  Bool-cases, inl, inr, arith,
}
use mathlib.Core.Option
use mathlib.Core.Path.{subst}
use system_monitoring_dashbo.Prelude.Int.{ℤ}
use system_monitoring_dashbo.Prelude.Text.{Text, text_eq, text_eq_self, text_eq→eq}
use system_monitoring_dashbo.Prelude.Dict.{
  Dict, lookup, insert, emplace, modify, lookup-emplace, lookup-modify, or_else, text_key,
}
use system_monitoring_dashbo.Prelude.Double.{Double}
use system_monitoring_dashbo.Ring
use system_monitoring_dashbo.Ring.{Ring}
use system_monitoring_dashbo.Store.{
  Store, blank, blank_vec, push, append, append_vector, put_snapshot, put_metadata,
}
use system_monitoring_dashbo.Ring.{in_range}
use system_monitoring_dashbo.Store.History.{write, scalar, vector, snapshot, metadata}
use system_monitoring_dashbo.Store.Section.{
  find_scalar, push_scalar, find_vector, push_vector, set_snapshot, set_metadata, perform,
}
use system_monitoring_dashbo.Store.Series.{lookup-push}

module _ {ℓ} {A : Type ℓ} where
  abbrev pub IsPresent : Text → Dict Text (Ring A) → Type ℓ
  IsPresent metric table = (r : Ring A) × (lookup metric table ≡ some r)

  some_present :
      (o : Option (Ring A)) (r : Ring A)
      → o ≡ some r
      → (f : Ring A → Ring A) (b : Bool)
      → (q : Ring A) × ((if b then Option.map f o else o) ≡ some q)
  some_present none r e f b = absurd (cc)
  some_present (some p) r e f true = (f p, refl)
  some_present (some p) r e f false = (p, refl)

  pub modify-IsPresent :
      (k metric : Text) (f : Ring A → Ring A) (table : Dict Text (Ring A))
      → IsPresent metric table
      → IsPresent metric (modify k f table)
  modify-IsPresent k metric f table (r, e) =
      let (q, found) = some_present (lookup metric table) r e f (text_eq k metric) in
      (q, lookup-modify k metric f table ∙ found)

  pub emplace-IsPresent :
      (k metric : Text) (v : Ring A) (table : Dict Text (Ring A))
      → IsPresent metric table
      → IsPresent metric (emplace k v table)
  emplace-IsPresent k metric v table (r, e) =
      (r, lookup-emplace k metric v table ∙ rw e (ground arith))

  pub emplaced-IsPresent :
      (metric : Text) (v : Ring A) (table : Dict Text (Ring A))
      → IsPresent metric (emplace metric v table)
  emplaced-IsPresent metric v table = (
    or_else (lookup metric table) v,
    lookup-emplace metric metric v table ∙ rw (text_eq_self metric) refl,
  )

  module _ (blank : A) (capacity : ℕ) where
    -- The ring under a name, or the one that `try_emplace` would make.
    abbrev pub ring_at : Dict Text (Ring A) → Text → Ring A
    ring_at table metric = or_else (lookup metric table) (Ring.new blank capacity)

    ring_at-emplace :
        (k : Text) (table : Dict Text (Ring A)) (metric : Text)
        → ring_at (emplace k (Ring.new blank capacity) table) metric ≡ ring_at table metric
    ring_at-emplace k table metric = elim (Bool-cases (text_eq k metric)) [
      | inl same ↦ simp (lookup-emplace, same)
      | inr apart ↦ simp (lookup-emplace, apart)
    ]

    ring_at-push :
        (k : Text) (x : A) (table : Dict Text (Ring A)) (metric : Text)
        → ring_at (push blank capacity k x table) metric ≡ (
            if text_eq k metric then Ring.append (ring_at table metric) x else ring_at table metric)
    ring_at-push k x table metric = elim (Bool-cases (text_eq k metric)) [
      | inl same ↦ simp (lookup-push, same)
      | inr apart ↦ simp (lookup-push, apart)
    ]

    pub ring_at-modify :
        (k : Text) (x : A) (table : Dict Text (Ring A)) (metric : Text)
        → IsPresent k table
        → ring_at (modify k (λ r. Ring.append r x) table) metric ≡ (
            if text_eq k metric then Ring.append (ring_at table metric) x else ring_at table metric)
    ring_at-modify k x table metric (r, e) = elim (Bool-cases (text_eq k metric)) [
      | inl same ↦
          let found = subst (λ (t : Text). lookup t table ≡ some r) (text_eq→eq k metric same) e in
          simp (lookup-modify, same, found)
      | inr apart ↦ simp (lookup-modify, apart)
    ]

-- A push to a ring that is there does to one table what an append does to the other.
push_agrees {ℓ} :
    {A : Type ℓ} (blank : A) (c c' : ℕ) (k : Text) (x : A) (table table' : Dict Text (Ring A))
    (metric : Text)
    → IsPresent k table
    → ring_at blank c table metric ≡ ring_at blank c' table' metric
    → ring_at blank c (modify k (λ r. Ring.append r x) table) metric
      ≡ ring_at blank c' (push blank c' k x table') metric
push_agrees blank c c' k x table table' metric there same =
    ring_at-modify blank c k x table metric there
    ∙ ap (λ r. if text_eq k metric then Ring.append r x else r) same
    ∙ sym (ring_at-push blank c' k x table' metric)

-- The two stores hold the same under every name; where one has no series, the other may have an empty
-- one.
pub record IsSame {W J : Type 0} ⦃d : Double W⦄ (s t : Store W J) : Type 0 where
  pub capacity : s.per_metric_capacity ≡ t.per_metric_capacity
  pub scalars_same :
      (metric : Text)
      → ring_at blank s.per_metric_capacity s.series metric
        ≡ ring_at blank t.per_metric_capacity t.series metric
  pub vectors_same :
      (metric : Text)
      → ring_at blank_vec s.per_metric_capacity s.vec_series metric
        ≡ ring_at blank_vec t.per_metric_capacity t.vec_series metric
  pub snapshots_same : s.snapshots ≡ t.snapshots
  pub metadata_same : s.metadata ≡ t.metadata

module _ {W J : Type 0} ⦃d : Double W⦄ where
  pub IsSame-refl : (s : Store W J) → IsSame s s
  IsSame-refl s = record {
    capacity = refl;
    scalars_same = λ metric. refl;
    vectors_same = λ metric. refl;
    snapshots_same = refl;
    metadata_same = refl;
  }

  -- Making a series changes nothing that is held.
  pub find_scalar-IsSame :
      (metric : Text) (s t : Store W J) → IsSame s t → IsSame (perform s (find_scalar metric)) t
  unfolding perform
  find_scalar-IsSame metric s t same = record {
    capacity = same.capacity;
    scalars_same =
        λ m. ring_at-emplace blank s.per_metric_capacity metric s.series m ∙ same.scalars_same m;
    vectors_same = same.vectors_same;
    snapshots_same = same.snapshots_same;
    metadata_same = same.metadata_same;
  }

  pub find_vector-IsSame :
      (metric : Text) (s t : Store W J) → IsSame s t → IsSame (perform s (find_vector metric)) t
  unfolding perform
  find_vector-IsSame metric s t same = record {
    capacity = same.capacity;
    scalars_same = same.scalars_same;
    vectors_same = λ m.
        ring_at-emplace blank_vec s.per_metric_capacity metric s.vec_series m ∙ same.vectors_same m;
    snapshots_same = same.snapshots_same;
    metadata_same = same.metadata_same;
  }

  -- Pushing to a series that is there is the whole append.
  pub push_scalar-IsSame :
      (metric : Text) (ts_ms : ℤ) (value : W) (s t : Store W J)
      → IsPresent metric s.series
      → IsSame s t
      → IsSame (perform s (push_scalar metric ts_ms value)) (write t (scalar metric ts_ms value))
  unfolding perform write append
  push_scalar-IsSame metric ts_ms value s t there same = record {
    capacity = same.capacity;
    scalars_same = λ m.
        push_agrees blank s.per_metric_capacity t.per_metric_capacity metric
          (record { ts_ms = ts_ms; value = value }) s.series t.series m there (same.scalars_same m);
    vectors_same = same.vectors_same;
    snapshots_same = same.snapshots_same;
    metadata_same = same.metadata_same;
  }

  pub push_vector-IsSame :
      (metric : Text) (ts_ms : ℤ) (vals : List W) (s t : Store W J)
      → IsPresent metric s.vec_series
      → IsSame s t
      → IsSame (perform s (push_vector metric ts_ms vals)) (write t (vector metric ts_ms vals))
  unfolding perform write append_vector
  push_vector-IsSame metric ts_ms vals s t there same = record {
    capacity = same.capacity;
    scalars_same = same.scalars_same;
    vectors_same = λ m.
        push_agrees blank_vec s.per_metric_capacity t.per_metric_capacity metric
          (record { ts_ms = ts_ms; vals = vals }) s.vec_series t.vec_series m there
          (same.vectors_same m);
    snapshots_same = same.snapshots_same;
    metadata_same = same.metadata_same;
  }

  pub set_snapshot-IsSame :
      (key : Text) (j : J) (s t : Store W J)
      → IsSame s t
      → IsSame (perform s (set_snapshot key j)) (write t (snapshot key j))
  unfolding perform write put_snapshot
  set_snapshot-IsSame key j s t same = record {
    capacity = same.capacity;
    scalars_same = same.scalars_same;
    vectors_same = same.vectors_same;
    snapshots_same = ap (insert key j) same.snapshots_same;
    metadata_same = same.metadata_same;
  }

  pub set_metadata-IsSame :
      (key : Text) (value : J) (s t : Store W J)
      → IsSame s t
      → IsSame (perform s (set_metadata key value)) (write t (metadata key value))
  unfolding perform write put_metadata
  set_metadata-IsSame key value s t same = record {
    capacity = same.capacity;
    scalars_same = same.scalars_same;
    vectors_same = same.vectors_same;
    snapshots_same = same.snapshots_same;
    metadata_same = ap (insert key value) same.metadata_same;
  }
