-- ===== src/Store/Section/Pending.antt =====
-- A thread within its program: the sections that it has left, and the calls.
use system_monitoring_dashbo.Prelude.{◌≡◌, refl, List, [], ◌∷◌}
use system_monitoring_dashbo.Prelude.Int.{ℤ}
use system_monitoring_dashbo.Prelude.Text.{Text}
use system_monitoring_dashbo.Prelude.Dict.{text_key}
use system_monitoring_dashbo.Prelude.Double.{Double}
use system_monitoring_dashbo.Ring
use system_monitoring_dashbo.Store.{Store, blank, blank_vec, put_metadata}
use system_monitoring_dashbo.Store.History.{Write, scalar, vector, snapshot, metadata, write}
use system_monitoring_dashbo.Store.Section.{
  Section, find_scalar, push_scalar, find_vector, push_vector, set_snapshot, set_metadata, perform,
  sections,
}
use system_monitoring_dashbo.Store.Section.Same.{
  IsPresent, modify-IsPresent, emplace-IsPresent, emplaced-IsPresent, IsSame, find_scalar-IsSame,
  find_vector-IsSame, push_scalar-IsSame, push_vector-IsSame, set_snapshot-IsSame,
  set_metadata-IsSame,
}

module _ {W J : Type 0} ⦃d : Double W⦄ where
  -- A series that one thread has found stays in its table, whatever the others do.
  pub perform-scalar-IsPresent :
      (metric : Text) (s : Store W J) (op : Section W J)
      → IsPresent metric s.series
      → IsPresent metric (perform s op).series
  unfolding perform put_metadata
  perform-scalar-IsPresent metric s (find_scalar k) there =
      emplace-IsPresent k metric (Ring.new blank s.per_metric_capacity) s.series there
  perform-scalar-IsPresent metric s (push_scalar k ts_ms value) there =
      modify-IsPresent k metric (λ r. Ring.append r (record { ts_ms = ts_ms; value = value }))
        s.series there
  perform-scalar-IsPresent metric s (find_vector k) there = there
  perform-scalar-IsPresent metric s (push_vector k ts_ms vals) there = there
  perform-scalar-IsPresent metric s (set_snapshot k j) there = there
  perform-scalar-IsPresent metric s (set_metadata k j) there = there

  pub perform-vector-IsPresent :
      (metric : Text) (s : Store W J) (op : Section W J)
      → IsPresent metric s.vec_series
      → IsPresent metric (perform s op).vec_series
  unfolding perform put_metadata
  perform-vector-IsPresent metric s (find_scalar k) there = there
  perform-vector-IsPresent metric s (push_scalar k ts_ms value) there = there
  perform-vector-IsPresent metric s (find_vector k) there =
      emplace-IsPresent k metric (Ring.new blank_vec s.per_metric_capacity) s.vec_series there
  perform-vector-IsPresent metric s (push_vector k ts_ms vals) there =
      modify-IsPresent k metric (λ r. Ring.append r (record { ts_ms = ts_ms; vals = vals }))
        s.vec_series there
  perform-vector-IsPresent metric s (set_snapshot k j) there = there
  perform-vector-IsPresent metric s (set_metadata k j) there = there

  -- The sections and the calls that a thread has left: it stands between two calls, or has found the
  -- series of the first one and not yet pushed to it.
  pub data Pending (store : Store W J) : List (Section W J) → List (Write W J) → Type 0 where
    between : (calls : List (Write W J)) → Pending store (sections calls) calls
    scalar_open :
        (metric : Text) (ts_ms : ℤ) (value : W) (calls : List (Write W J))
        → IsPresent metric store.series
        → Pending store
            (push_scalar metric ts_ms value ∷ sections calls)
            (scalar metric ts_ms value ∷ calls)
    vector_open :
        (metric : Text) (ts_ms : ℤ) (vals : List W) (calls : List (Write W J))
        → IsPresent metric store.vec_series
        → Pending store
            (push_vector metric ts_ms vals ∷ sections calls)
            (vector metric ts_ms vals ∷ calls)

  pub perform-Pending :
      {s : Store W J} (op : Section W J) {todo : List (Section W J)} {calls : List (Write W J)}
      → Pending s todo calls
      → Pending (perform s op) todo calls
  perform-Pending op (between calls) = between calls
  perform-Pending {s} op (scalar_open metric ts_ms value calls there) =
      scalar_open metric ts_ms value calls (perform-scalar-IsPresent metric s op there)
  perform-Pending {s} op (vector_open metric ts_ms vals calls there) =
      vector_open metric ts_ms vals calls (perform-vector-IsPresent metric s op there)

  -- What a section does to the store of the whole calls: nothing yet, or its thread's next call.
  pub data Effect (s t : Store W J) (op : Section W J) (rest : List (Section W J))
      : List (Write W J) → Type 0 where
    prepares :
        {calls : List (Write W J)}
        → IsSame (perform s op) t
        → Pending (perform s op) rest calls
        → Effect s t op rest calls
    completes :
        {call : Write W J} {calls : List (Write W J)}
        → IsSame (perform s op) (write t call)
        → Pending (perform s op) rest calls
        → Effect s t op rest (call ∷ calls)

  unfoldable pub EffectOf : (s t : Store W J) → List (Section W J) → List (Write W J) → Type 0
  EffectOf s t [] calls = Unit
  EffectOf s t (op ∷ rest) calls = Effect s t op rest calls

  next_effect :
      (s t : Store W J) (calls : List (Write W J))
      → IsSame s t
      → EffectOf s t (sections calls) calls
  unfolding EffectOf sections perform
  next_effect s t [] same = tt
  next_effect s t (scalar metric ts_ms value ∷ calls) same =
      prepares (find_scalar-IsSame metric s t same) (
        scalar_open metric ts_ms value calls
          (emplaced-IsPresent metric (Ring.new blank s.per_metric_capacity) s.series))
  next_effect s t (vector metric ts_ms vals ∷ calls) same =
      prepares (find_vector-IsSame metric s t same) (
        vector_open metric ts_ms vals calls
          (emplaced-IsPresent metric (Ring.new blank_vec s.per_metric_capacity) s.vec_series))
  next_effect s t (snapshot key j ∷ calls) same =
      completes (set_snapshot-IsSame key j s t same) (between calls)
  next_effect s t (metadata key value ∷ calls) same =
      completes (set_metadata-IsSame key value s t same) (between calls)

  pub Pending-effect :
      (s t : Store W J) {todo : List (Section W J)} {calls : List (Write W J)}
      → IsSame s t
      → Pending s todo calls
      → EffectOf s t todo calls
  unfolding EffectOf
  Pending-effect s t same (between calls) = next_effect s t calls same
  Pending-effect s t same (scalar_open metric ts_ms value calls there) =
      completes (push_scalar-IsSame metric ts_ms value s t there same) (between calls)
  Pending-effect s t same (vector_open metric ts_ms vals calls there) =
      completes (push_vector-IsSame metric ts_ms vals s t there same) (between calls)

  pub Pending-next :
      (s t : Store W J) {op : Section W J} {rest : List (Section W J)} {calls : List (Write W J)}
      → IsSame s t
      → Pending s (op ∷ rest) calls
      → Effect s t op rest calls
  unfolding EffectOf
  Pending-next s t same pending = Pending-effect s t same pending

  pub Pending-nil :
      {s : Store W J} {todo : List (Section W J)} {calls : List (Write W J)}
      → Pending s todo calls
      → todo ≡ []
      → calls ≡ []
  unfolding sections
  Pending-nil (between []) e = refl
  Pending-nil (between (scalar metric ts_ms value ∷ calls)) e = absurd (cc)
  Pending-nil (between (vector metric ts_ms vals ∷ calls)) e = absurd (cc)
  Pending-nil (between (snapshot key j ∷ calls)) e = absurd (cc)
  Pending-nil (between (metadata key value ∷ calls)) e = absurd (cc)
  Pending-nil (scalar_open metric ts_ms value calls there) e = absurd (cc)
  Pending-nil (vector_open metric ts_ms vals calls there) e = absurd (cc)
