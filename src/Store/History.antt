-- ===== src/Store/History.antt =====
-- The store against the history of all writes: each series is the last `capacity` samples written
-- under its name, whatever was written in between under other names or to the other tables.
use system_monitoring_dashbo.Prelude.{
  ℕ, ◌≡◌, refl, sym, ap, ◌∙◌, List, [], ◌∷◌, ◌++◌, append_assoc, append-nil, arith, keep_last,
  if◌then◌else◌, Option, some,
}
use system_monitoring_dashbo.Prelude.Int.{ℤ}
use system_monitoring_dashbo.Prelude.Text.{Text, text_eq}
use system_monitoring_dashbo.Prelude.Dict.{lookup, lookup-insert, text_key}
use system_monitoring_dashbo.Prelude.Double.{Double}
use system_monitoring_dashbo.Store.{
  Store, Sample, SampleVec, blank, blank_vec, append, append_vector, put_snapshot, put_metadata,
}
use system_monitoring_dashbo.Store.Series.{held-push_history}
use system_monitoring_dashbo.Store.Lookup.{
  IsValid, scalars, vectors, append-IsValid, append_vector-IsValid,
}

-- One call of a writing method.
pub data Write (W J : Type 0) : Type 0 where
  scalar : Text → ℤ → W → Write W J
  vector : Text → ℤ → List W → Write W J
  snapshot : Text → J → Write W J
  metadata : Text → J → Write W J

module _ {W J : Type 0} where
  -- What the log has under a name, oldest first.
  abbrev pub scalar_log : Text → List (Write W J) → List (Sample W)
  scalar_log m [] = []
  scalar_log m (scalar k t v ∷ log) =
      if text_eq k m then record { ts_ms = t; value = v } ∷ scalar_log m log else scalar_log m log
  scalar_log m (_ ∷ log) = scalar_log m log

  abbrev pub vector_log : Text → List (Write W J) → List (SampleVec W)
  vector_log m [] = []
  vector_log m (vector k t v ∷ log) =
      if text_eq k m then record { ts_ms = t; vals = v } ∷ vector_log m log else vector_log m log
  vector_log m (_ ∷ log) = vector_log m log

  -- The value written last under a key, or what was there before.
  abbrev pub last_snapshot : Text → Option J → List (Write W J) → Option J
  last_snapshot m o [] = o
  last_snapshot m o (snapshot k j ∷ log) = last_snapshot m (if text_eq k m then some j else o) log
  last_snapshot m o (_ ∷ log) = last_snapshot m o log

  abbrev pub last_metadata : Text → Option J → List (Write W J) → Option J
  last_metadata m o [] = o
  last_metadata m o (metadata k j ∷ log) = last_metadata m (if text_eq k m then some j else o) log
  last_metadata m o (_ ∷ log) = last_metadata m o log

module _ {W J : Type 0} ⦃d : Double W⦄ where
  unfoldable pub write : Store W J → Write W J → Store W J
  write s (scalar m t v) = append s m t v
  write s (vector m t v) = append_vector s m t v
  write s (snapshot k j) = put_snapshot s k j
  write s (metadata k j) = put_metadata s k j

  unfoldable pub run : Store W J → List (Write W J) → Store W J
  unfolding write
  run s [] = s
  run s (w ∷ log) = run (write s w) log

  -- Two logs one after the other.
  pub run-concat :
      (s : Store W J) (first second : List (Write W J))
      → run (run s first) second ≡ run s (first ++ second)
  unfolding run
  run-concat s [] second = refl
  run-concat s (w ∷ first) second = run-concat (write s w) first second

  pub write-IsValid : (s : Store W J) (w : Write W J) → IsValid s → IsValid (write s w)
  unfolding write put_snapshot put_metadata
  write-IsValid s (scalar m t x) v = append-IsValid m t x v
  write-IsValid s (vector m t x) v = append_vector-IsValid m t x v
  write-IsValid s (snapshot k j) v = record {
    positive = v.positive;
    small = v.small;
    scalar_rings = v.scalar_rings;
    vector_rings = v.vector_rings;
  }
  write-IsValid s (metadata k j) v = record {
    positive = v.positive;
    small = v.small;
    scalar_rings = v.scalar_rings;
    vector_rings = v.vector_rings;
  }

  -- Every sequence of writes keeps the store valid.
  pub run-IsValid : (s : Store W J) (log : List (Write W J)) → IsValid s → IsValid (run s log)
  unfolding run
  run-IsValid s [] v = v
  run-IsValid s (w ∷ log) v = run-IsValid (write s w) log (write-IsValid s w v)

  capacity-write :
      (s : Store W J) (w : Write W J) → (write s w).per_metric_capacity ≡ s.per_metric_capacity
  unfolding write append append_vector put_snapshot put_metadata
  capacity-write s (scalar m t x) = refl
  capacity-write s (vector m t x) = refl
  capacity-write s (snapshot k j) = refl
  capacity-write s (metadata k j) = refl

  scalars-write :
      (s : Store W J) (w : Write W J) (m : Text) (n : ℕ) (past : List (Sample W))
      → IsValid s
      → s.per_metric_capacity ≡ n
      → scalars s m ≡ keep_last n past
      → scalars (write s w) m ≡ keep_last n (past ++ scalar_log m (w ∷ []))
  unfolding write append append_vector put_snapshot put_metadata
  scalars-write s (scalar k t x) m n past v c h =
      held-push_history blank s.per_metric_capacity v.positive v.small k
        (record { ts_ms = t; value = x }) s.series m n past v.scalar_rings c h
  scalars-write s (vector k t x) m n past v c h = h ∙ ap (keep_last n) (sym (append-nil past))
  scalars-write s (snapshot k j) m n past v c h = h ∙ ap (keep_last n) (sym (append-nil past))
  scalars-write s (metadata k j) m n past v c h = h ∙ ap (keep_last n) (sym (append-nil past))

  scalar_log-cons :
      (m : Text) (w : Write W J) (log : List (Write W J))
      → scalar_log m (w ∷ log) ≡ scalar_log m (w ∷ []) ++ scalar_log m log
  scalar_log-cons m (scalar k t x) log = ground arith
  scalar_log-cons m (vector k t x) log = refl
  scalar_log-cons m (snapshot k j) log = refl
  scalar_log-cons m (metadata k j) log = refl

  pub scalars-run :
      (s : Store W J) (log : List (Write W J)) (m : Text) (n : ℕ) (past : List (Sample W))
      → IsValid s
      → s.per_metric_capacity ≡ n
      → scalars s m ≡ keep_last n past
      → scalars (run s log) m ≡ keep_last n (past ++ scalar_log m log)
  unfolding run
  scalars-run s [] m n past v c h = h ∙ ap (keep_last n) (sym (append-nil past))
  scalars-run s (w ∷ log) m n past v c h =
      scalars-run (write s w) log m n (past ++ scalar_log m (w ∷ [])) (write-IsValid s w v)
        (capacity-write s w ∙ c) (scalars-write s w m n past v c h)
      ∙ ap (keep_last n) (
          append_assoc past (scalar_log m (w ∷ [])) (scalar_log m log)
          ∙ ap (λ l. past ++ l) (sym (scalar_log-cons m w log)))

  vectors-write :
      (s : Store W J) (w : Write W J) (m : Text) (n : ℕ) (past : List (SampleVec W))
      → IsValid s
      → s.per_metric_capacity ≡ n
      → vectors s m ≡ keep_last n past
      → vectors (write s w) m ≡ keep_last n (past ++ vector_log m (w ∷ []))
  unfolding write append append_vector put_snapshot put_metadata
  vectors-write s (scalar k t x) m n past v c h = h ∙ ap (keep_last n) (sym (append-nil past))
  vectors-write s (vector k t x) m n past v c h =
      held-push_history blank_vec s.per_metric_capacity v.positive v.small k
        (record { ts_ms = t; vals = x }) s.vec_series m n past v.vector_rings c h
  vectors-write s (snapshot k j) m n past v c h = h ∙ ap (keep_last n) (sym (append-nil past))
  vectors-write s (metadata k j) m n past v c h = h ∙ ap (keep_last n) (sym (append-nil past))

  vector_log-cons :
      (m : Text) (w : Write W J) (log : List (Write W J))
      → vector_log m (w ∷ log) ≡ vector_log m (w ∷ []) ++ vector_log m log
  vector_log-cons m (scalar k t x) log = refl
  vector_log-cons m (vector k t x) log = ground arith
  vector_log-cons m (snapshot k j) log = refl
  vector_log-cons m (metadata k j) log = refl

  pub vectors-run :
      (s : Store W J) (log : List (Write W J)) (m : Text) (n : ℕ) (past : List (SampleVec W))
      → IsValid s
      → s.per_metric_capacity ≡ n
      → vectors s m ≡ keep_last n past
      → vectors (run s log) m ≡ keep_last n (past ++ vector_log m log)
  unfolding run
  vectors-run s [] m n past v c h = h ∙ ap (keep_last n) (sym (append-nil past))
  vectors-run s (w ∷ log) m n past v c h =
      vectors-run (write s w) log m n (past ++ vector_log m (w ∷ [])) (write-IsValid s w v)
        (capacity-write s w ∙ c) (vectors-write s w m n past v c h)
      ∙ ap (keep_last n) (
          append_assoc past (vector_log m (w ∷ [])) (vector_log m log)
          ∙ ap (λ l. past ++ l) (sym (vector_log-cons m w log)))

  pub snapshots-run :
      (s : Store W J) (log : List (Write W J)) (key : Text)
      → lookup key (run s log).snapshots ≡ last_snapshot key (lookup key s.snapshots) log
  unfolding run write append append_vector put_snapshot put_metadata
  snapshots-run s [] key = refl
  snapshots-run s (scalar k t x ∷ log) key = snapshots-run (append s k t x) log key
  snapshots-run s (vector k t x ∷ log) key = snapshots-run (append_vector s k t x) log key
  snapshots-run s (snapshot k j ∷ log) key =
      snapshots-run (put_snapshot s k j) log key
      ∙ ap (λ o. last_snapshot key o log) (lookup-insert k key j s.snapshots)
  snapshots-run s (metadata k j ∷ log) key = snapshots-run (put_metadata s k j) log key

  pub metadata-run :
      (s : Store W J) (log : List (Write W J)) (key : Text)
      → lookup key (run s log).metadata ≡ last_metadata key (lookup key s.metadata) log
  unfolding run write append append_vector put_snapshot put_metadata
  metadata-run s [] key = refl
  metadata-run s (scalar k t x ∷ log) key = metadata-run (append s k t x) log key
  metadata-run s (vector k t x ∷ log) key = metadata-run (append_vector s k t x) log key
  metadata-run s (snapshot k j ∷ log) key = metadata-run (put_snapshot s k j) log key
  metadata-run s (metadata k j ∷ log) key =
      metadata-run (put_metadata s k j) log key
      ∙ ap (λ o. last_metadata key o log) (lookup-insert k key j s.metadata)
