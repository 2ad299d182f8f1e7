-- ===== src/Store/Section.antt =====
-- The critical sections of store/memory_store.cpp. `append` finds or creates the series under the
-- lock of the table, and appends to its ring under the lock of the series; in between another thread
-- may run. `append_vector` does the same; the other writing methods hold one lock.
pub mod Same
pub mod Seen
pub mod Pending
pub mod Linear
pub mod Reads
pub mod Listing
mod Tests
use system_monitoring_dashbo.Prelude.{ℕ, Bool, List, [], ◌∷◌, ◌≡◌, ◌==◌, if◌then◌else◌}
use system_monitoring_dashbo.Prelude.Int.{ℤ}
use system_monitoring_dashbo.Prelude.Text.{Text}
use system_monitoring_dashbo.Prelude.Dict.{emplace, modify, text_key}
use system_monitoring_dashbo.Prelude.Double.{Double}
use system_monitoring_dashbo.Ring
use system_monitoring_dashbo.Store.{
  Store, Sample, SampleVec, blank, blank_vec, put_snapshot, put_metadata,
}
use system_monitoring_dashbo.Store.History.{Write, scalar, vector, snapshot, metadata, write}

-- A critical section, with its method's arguments.
pub data Section (W J : Type 0) : Type 0 where
  find_scalar : Text → Section W J
  push_scalar : Text → ℤ → W → Section W J
  find_vector : Text → Section W J
  push_vector : Text → ℤ → List W → Section W J
  set_snapshot : Text → J → Section W J
  set_metadata : Text → J → Section W J

module _ {W J : Type 0} ⦃d : Double W⦄ where
  -- The series stays where `try_emplace` put it, so a push finds it by its name.
  unfoldable pub perform : Store W J → Section W J → Store W J
  unfolding put_snapshot
  perform s (find_scalar metric) = record s {
    series = emplace metric (Ring.new blank s.per_metric_capacity) s.series;
  }
  perform s (push_scalar metric ts_ms value) = record s {
    series = modify metric (λ r. Ring.append r (record { ts_ms = ts_ms; value = value })) s.series;
  }
  perform s (find_vector metric) = record s {
    vec_series = emplace metric (Ring.new blank_vec s.per_metric_capacity) s.vec_series;
  }
  perform s (push_vector metric ts_ms vals) = record s {
    vec_series =
        modify metric (λ r. Ring.append r (record { ts_ms = ts_ms; vals = vals })) s.vec_series;
  }
  perform s (set_snapshot key j) = put_snapshot s key j
  perform s (set_metadata key value) = put_metadata s key value

-- The sections of a sequence of calls.
unfoldable pub sections : {W J : Type 0} → List (Write W J) → List (Section W J)
sections [] = []
sections (scalar metric ts_ms value ∷ calls) =
    find_scalar metric ∷ push_scalar metric ts_ms value ∷ sections calls
sections (vector metric ts_ms vals ∷ calls) =
    find_vector metric ∷ push_vector metric ts_ms vals ∷ sections calls
sections (snapshot key j ∷ calls) = set_snapshot key j ∷ sections calls
sections (metadata key value ∷ calls) = set_metadata key value ∷ sections calls

-- A family with one member changed.
abbrev pub update {ℓ} : {A : Type ℓ} → (ℕ → A) → ℕ → A → ℕ → A
update f i a k = if i == k then a else f k

-- Threads over one store; `todo` is what each has left of its program.
pub record System (W J Op : Type 0) : Type 0 where
  pub store : Store W J
  pub todo : ℕ → List Op

-- A thread runs its next operation.
pub data Step {W J Op : Type 0} (run_op : Store W J → Op → Store W J) (s : System W J Op)
    : System W J Op → Type 0 where
  pick :
      (i : ℕ) {op : Op} {rest : List Op}
      → s.todo i ≡ op ∷ rest
      → Step run_op s (record { store = run_op s.store op; todo = update s.todo i rest })

-- The systems that an interleaving of the threads leads to.
pub data Reach {W J Op : Type 0} (run_op : Store W J → Op → Store W J) (start : System W J Op)
    : System W J Op → Type 0 where
  here : Reach run_op start start
  later : {s t : System W J Op} → Reach run_op start s → Step run_op s t → Reach run_op start t
