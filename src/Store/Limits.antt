-- ===== src/Store/Limits.antt =====
-- A store from its constructor on: capacity, what queries return, which names are listed.
use system_monitoring_dashbo.Prelude.{
  ℕ, zero, suc, ◌≤◌, ◌<◌, ◌+◌, ◌*◌, ◌/◌, ◌^◌, ◌≡◌, refl, sym, ap, ◌∙◌, List, [], arith, keep,
  keep_last, keep_last_all, length, length-keep_last, none, min, max,
}
use native.Mathlib.Nat.{div-le_self, div-mul-le_self, lt-div-mul-add}
use system_monitoring_dashbo.Prelude.Int.{ℤ}
use system_monitoring_dashbo.Prelude.Text.{Text}
use system_monitoring_dashbo.Prelude.Dict.{lookup, text_key}
use system_monitoring_dashbo.Prelude.Double.{Double}
use system_monitoring_dashbo.Json.{Json}
use system_monitoring_dashbo.Ring.{in_range}
use system_monitoring_dashbo.Store.{
  Store, new, query, query_vector, count, capacity_per_metric, get_snapshot, get_metadata, or_null,
}
use system_monitoring_dashbo.Store.Lookup.{
  scalars, vectors, IsValid, query-scalars, query_vector-vectors, count-scalars,
}
use system_monitoring_dashbo.Store.History.{
  Write, scalar_log, vector_log, last_snapshot, last_metadata, run, run-IsValid, scalars-run,
  vectors-run, snapshots-run, metadata-run,
}

at_least_one :
    (q p keep_seconds : ℕ)
    → q * p ≤ keep_seconds
    → keep_seconds < q * p + p
    → 0 < p
    → (1 ≤ max 1 q) × (max 1 q * p ≤ max keep_seconds p) × (keep_seconds < (max 1 q + 1) * p)
at_least_one zero p keep_seconds lower upper positive = omega arith
at_least_one (suc q) p keep_seconds lower upper positive =
    let whole : max 1 (suc q) ≡ suc q = omega arith in rw whole (omega arith)

-- The capacity that the constructor computes is at least one sample, the samples fit into the
-- time to keep (or one period), and one sample more would not.
capacity-new :
    (W J : Type 0) (keep_seconds sample_period_s : ℕ)
    → let n = capacity_per_metric (new {W = W} {J = J} keep_seconds sample_period_s) in
      (1 ≤ n)
      × (n * max 1 sample_period_s ≤ max keep_seconds (max 1 sample_period_s))
      × (keep_seconds < (n + 1) * max 1 sample_period_s)
unfolding new capacity_per_metric
capacity-new W J keep_seconds sample_period_s =
    let p = max 1 sample_period_s in
    let positive : 0 < p = omega arith in
    at_least_one (keep_seconds / p) p keep_seconds (div-mul-le_self keep_seconds p)
      (lt-div-mul-add {a = keep_seconds} positive) positive

module _ {W J : Type 0} ⦃d : Double W⦄ where
  module _ (keep_seconds sample_period_s : ℕ) (bounded : keep_seconds ≤ 2 ^ 63) where
    pub new-IsValid : IsValid (new {W = W} {J = J} keep_seconds sample_period_s)
    unfolding new lookup
    new-IsValid = record {
      positive = omega arith;
      small = omega (arith, div-le_self keep_seconds (max 1 sample_period_s));
      scalar_rings = λ metric r e. cc;
      vector_rings = λ metric r e. cc;
    }

    -- What a new store holds after any sequence of writes.
    pub held-run :
        (log : List (Write W J)) (metric : Text)
        → let s = run (new {W = W} {J = J} keep_seconds sample_period_s) log in
          let n = capacity_per_metric (new {W = W} {J = J} keep_seconds sample_period_s) in
          (scalars s metric ≡ keep_last n (scalar_log metric log))
          × (vectors s metric ≡ keep_last n (vector_log metric log))
    unfolding new capacity_per_metric lookup
    held-run log metric =
        let fresh : Store W J = new keep_seconds sample_period_s in
        let n = capacity_per_metric fresh in
        (
          scalars-run fresh log metric n [] new-IsValid refl
              (sym (keep_last_all n [] (omega arith))),
          vectors-run fresh log metric n [] new-IsValid refl
              (sym (keep_last_all n [] (omega arith))),
        )

    -- No series, scalar or vector, is longer than the capacity.
    pub length-held-run :
        (log : List (Write W J)) (metric : Text)
        → let s = run (new {W = W} {J = J} keep_seconds sample_period_s) log in
          let n = capacity_per_metric (new {W = W} {J = J} keep_seconds sample_period_s) in
          (length (scalars s metric) ≤ n) × (length (vectors s metric) ≤ n)
    length-held-run log metric =
        let n = capacity_per_metric (new {W = W} {J = J} keep_seconds sample_period_s) in
        let (kept, kept_vectors) = held-run log metric in
        (
          omega (arith, ap length kept, length-keep_last n (scalar_log metric log)),
          omega (arith, ap length kept_vectors, length-keep_last n (vector_log metric log)),
        )

    -- After any sequence of writes to a new store, `query` and `query_vector` return the samples
    -- of the closed interval among the last `capacity` ones written under the name, oldest first,
    -- and `count` their number, if the time to keep is at most 2 ^ 63.
    pub query-run :
        (log : List (Write W J)) (metric : Text) (from_ms to_ms : ℤ)
        → let s = run (new {W = W} {J = J} keep_seconds sample_period_s) log in
          let n = capacity_per_metric (new {W = W} {J = J} keep_seconds sample_period_s) in
          (query s metric from_ms to_ms
            ≡ keep (in_range (λ x. x.ts_ms) from_ms to_ms) (keep_last n (scalar_log metric log)))
          × (query_vector s metric from_ms to_ms
              ≡ keep (in_range (λ x. x.ts_ms) from_ms to_ms) (keep_last n (vector_log metric log)))
          × (count s metric ≡ min n (length (scalar_log metric log)))
    query-run log metric from_ms to_ms =
        let fresh : Store W J = new keep_seconds sample_period_s in
        let s = run fresh log in
        let n = capacity_per_metric fresh in
        let (kept, kept_vectors) = held-run log metric in
        (
          query-scalars s metric from_ms to_ms
              ∙ ap (keep (in_range (λ x. x.ts_ms) from_ms to_ms)) kept,
          query_vector-vectors s metric from_ms to_ms
              ∙ ap (keep (in_range (λ x. x.ts_ms) from_ms to_ms)) kept_vectors,
          count-scalars metric (run-IsValid fresh log new-IsValid)
              ∙ ap length kept
              ∙ length-keep_last n (scalar_log metric log),
        )

    -- `get_snapshot` and `get_metadata` return the value stored last under the key, and null for a
    -- key that was never stored, after any sequence of writes to a new store whose time to keep is
    -- at most 2 ^ 63.
    pub get-run :
        (j : Json W J) (log : List (Write W J)) (key : Text)
        → let s = run (new {W = W} {J = J} keep_seconds sample_period_s) log in
          (get_snapshot j s key ≡ or_null j.null (last_snapshot key none log))
          × (get_metadata j s key ≡ or_null j.null (last_metadata key none log))
    unfolding get_snapshot get_metadata new lookup
    get-run j log key = (
      ap (or_null j.null) (snapshots-run (new keep_seconds sample_period_s) log key),
      ap (or_null j.null) (metadata-run (new keep_seconds sample_period_s) log key),
    )
