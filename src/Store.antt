-- ===== src/Store.antt =====
-- store/memory_store.cpp and include/store/memory_store.h, `MemoryStore`: named series of samples,
-- each in a ring buffer, the process snapshots and the metadata. A method that changes the store
-- returns the new one. `W` is `double`, `J` the JSON values of the vendored library.
pub mod Series
pub mod Lookup
pub mod History
pub mod Limits
pub mod Keys
pub mod Section
mod Tests
use system_monitoring_dashbo.Prelude.{
  ℕ, ◌/◌, max, Bool, true, false, Option, none, some, List, [], ◌∷◌, ◌++◌,
}
use system_monitoring_dashbo.Prelude.Int.{ℤ, pos}
use system_monitoring_dashbo.Prelude.Text.{Text}
use system_monitoring_dashbo.Prelude.Dict.{
  Dict, keys, lookup, insert, emplace, modify, has_key, text_key,
}
use system_monitoring_dashbo.Prelude.Double.{Double}
use system_monitoring_dashbo.Json.{Json}
use system_monitoring_dashbo.Ring
use system_monitoring_dashbo.Ring.{Ring}

pub record Sample (W : Type 0) : Type 0 where
  pub ts_ms : ℤ
  pub value : W

pub record SampleVec (W : Type 0) : Type 0 where
  pub ts_ms : ℤ
  pub vals : List W

pub record Store (W J : Type 0) : Type 0 where
  pub per_metric_capacity : ℕ
  pub sample_period_s : ℕ
  pub series : Dict Text (Ring (Sample W))
  pub vec_series : Dict Text (Ring (SampleVec W))
  pub snapshots : Dict Text J
  pub metadata : Dict Text J

module _ {W J : Type 0} where
  -- The constructor of `MemoryStore`.
  unfoldable pub new : ℕ → ℕ → Store W J
  new keep_seconds sample_period_s = record {
    per_metric_capacity = max 1 (keep_seconds / max 1 sample_period_s);
    sample_period_s = max 1 sample_period_s;
    series = [];
    vec_series = [];
    snapshots = [];
    metadata = [];
  }

-- `try_emplace(metric, capacity)`, then `ring.append(x)` through the reference into the table: what
-- `append` and `append_vector` do to their tables.
unfoldable pub push {ℓ} : {A : Type ℓ} → A → ℕ → Text → A → Dict Text (Ring A) → Dict Text (Ring A)
push blank capacity metric x table =
    modify metric (λ r. Ring.append r x) (emplace metric (Ring.new blank capacity) table)

-- The samples that a table holds under a name, in the interval: `query` and `query_vector`.
pub select {ℓ} : {A : Type ℓ} → (A → ℤ) → Text → ℤ → ℤ → Dict Text (Ring A) → List A
select ts_ms metric from_ms to_ms table = elim (lookup metric table) [
  | none ↦ []
  | some r ↦ Ring.range ts_ms r from_ms to_ms
]

module _ {W : Type 0} where
  -- `Sample{}`
  abbrev pub blank : ⦃d : Double W⦄ → Sample W
  blank ⦃d⦄ = record { ts_ms = pos 0; value = d.of_nat 0 }

  -- `SampleVec{}`
  abbrev pub blank_vec : SampleVec W
  blank_vec = record { ts_ms = pos 0; vals = [] }

module _ {W J : Type 0} ⦃d : Double W⦄ where
  unfoldable pub append : Store W J → Text → ℤ → W → Store W J
  append s metric ts_ms value = record s {
    series =
        push blank s.per_metric_capacity metric (record { ts_ms = ts_ms; value = value }) s.series;
  }

  pub append_vector : Store W J → Text → ℤ → List W → Store W J
  append_vector s metric ts_ms vals = record s {
    vec_series =
        push blank_vec s.per_metric_capacity metric (record { ts_ms = ts_ms; vals = vals })
          s.vec_series;
  }

  pub ensure_series : Store W J → Text → Store W J
  ensure_series s metric = record s {
    series = emplace metric (Ring.new blank s.per_metric_capacity) s.series;
  }

module _ {W J : Type 0} where
  pub find_series : Store W J → Text → Option (Ring (Sample W))
  find_series s metric = lookup metric s.series

  pub query : Store W J → Text → ℤ → ℤ → List (Sample W)
  unfolding select
  query s metric from_ms to_ms = select (λ x. x.ts_ms) metric from_ms to_ms s.series

  pub query_vector : Store W J → Text → ℤ → ℤ → List (SampleVec W)
  unfolding select
  query_vector s metric from_ms to_ms = select (λ x. x.ts_ms) metric from_ms to_ms s.vec_series

  pub count : Store W J → Text → ℕ
  unfolding find_series
  count s metric = elim (find_series s metric) [ none ↦ 0 | some r ↦ r.size ]

  unfoldable pub capacity_per_metric : Store W J → ℕ
  capacity_per_metric s = s.per_metric_capacity

  pub has_scalar : Store W J → Text → Bool
  unfolding has_key
  has_scalar s key = has_key key s.series

  pub has_vector : Store W J → Text → Bool
  unfolding has_key
  has_vector s key = has_key key s.vec_series

  pub vec_series_exists : Store W J → Text → Bool
  unfolding has_key
  vec_series_exists s key = has_key key s.vec_series

  unfoldable pub list_series_keys : Store W J → List Text
  list_series_keys s = keys s.series ++ keys s.vec_series

  unfoldable pub put_snapshot : Store W J → Text → J → Store W J
  put_snapshot s key j = record s { snapshots = insert key j s.snapshots }

  unfoldable pub put_metadata : Store W J → Text → J → Store W J
  put_metadata s key value = record s { metadata = insert key value s.metadata }

-- A lookup with the library's null for a missing key.
abbrev pub or_null {ℓ} : {J : Type ℓ} → J → Option J → J
or_null null none = null
or_null null (some v) = v

module _ {W J : Type 0} (j : Json W J) where
  unfoldable pub get_snapshot : Store W J → Text → J
  get_snapshot s key = or_null j.null (lookup key s.snapshots)

  unfoldable pub get_metadata : Store W J → Text → J
  get_metadata s key = or_null j.null (lookup key s.metadata)

  pub all_metadata : Store W J → J
  all_metadata s = j.obj s.metadata
