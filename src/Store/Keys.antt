-- ===== src/Store/Keys.antt =====
-- Which names the store lists.
use system_monitoring_dashbo.Prelude.{ℕ, ◌≡◌, refl, List, [], ◌∷◌, ◌++◌, arith, Bool, false, ◌||◌}
use system_monitoring_dashbo.Prelude.Text.{Text, text_eq, text_eq_iff}
use system_monitoring_dashbo.Prelude.Dict.{Dict, keys, emplace, modify, text_key}
use system_monitoring_dashbo.Prelude.Double.{Double}
use system_monitoring_dashbo.Ring.{Ring}
use system_monitoring_dashbo.Store.{
  Store, push, append, append_vector, put_snapshot, put_metadata, list_series_keys, blank,
  blank_vec,
}
use system_monitoring_dashbo.Store.History.{Write, scalar, vector, snapshot, metadata, write, run}

-- The names in a list.
abbrev pub listed : Text → List Text → Bool
listed k [] = false
listed k (j ∷ ks) = text_eq j k || listed k ks

-- The name was written to as a series.
abbrev pub written : {W J : Type 0} → Text → List (Write W J) → Bool
written k [] = false
written k (scalar m t v ∷ log) = text_eq m k || written k log
written k (vector m t v ∷ log) = text_eq m k || written k log
written k (_ ∷ log) = written k log

pub listed-append :
    (k : Text) (xs ys : List Text) → listed k (xs ++ ys) ≡ (listed k xs || listed k ys)
listed-append k [] ys = refl
listed-append k (x ∷ xs) ys = ground (arith, listed-append k xs ys)

listed-keys-emplace {ℓ} :
    {V : Type ℓ} (k j : Text) (v : V) (m : Dict Text V)
    → listed j (keys (emplace k v m)) ≡ (text_eq k j || listed j (keys m))
unfolding emplace
listed-keys-emplace k j v [] = refl
listed-keys-emplace k j v ((i, w) ∷ m) =
    ground (arith, listed-keys-emplace k j v m, text_eq_iff i k)

keys-modify {ℓ} :
    {V : Type ℓ} (k : Text) (f : V → V) (m : Dict Text V) → keys (modify k f m) ≡ keys m
unfolding modify
keys-modify k f [] = refl
keys-modify k f ((i, w) ∷ m) = ground (arith, keys-modify k f m)

listed-push {ℓ} :
    {A : Type ℓ} (empty_sample : A) (capacity : ℕ) (m : Text) (x : A) (table : Dict Text (Ring A))
    (k : Text)
    → listed k (keys (push empty_sample capacity m x table))
      ≡ (text_eq m k || listed k (keys table))
unfolding push
listed-push empty_sample capacity m x table k = rw (keys-modify m) (listed-keys-emplace m k _ table)

module _ {W J : Type 0} ⦃d : Double W⦄ where
  listed-write :
      (s : Store W J) (w : Write W J) (k : Text)
      → listed k (list_series_keys (write s w))
        ≡ (written k (w ∷ []) || listed k (list_series_keys s))
  unfolding write append append_vector put_snapshot put_metadata list_series_keys
  listed-write s (scalar m t x) k = ground (
    arith,
    listed-append k
        (keys (push blank s.per_metric_capacity m (record { ts_ms = t; value = x }) s.series))
        (keys s.vec_series),
    listed-append k (keys s.series) (keys s.vec_series),
    listed-push blank s.per_metric_capacity m (record { ts_ms = t; value = x }) s.series k,
  )
  listed-write s (vector m t x) k = ground (
    arith,
    listed-append k (keys s.series) (
        keys
          (push blank_vec s.per_metric_capacity m (record { ts_ms = t; vals = x }) s.vec_series)),
    listed-append k (keys s.series) (keys s.vec_series),
    listed-push blank_vec s.per_metric_capacity m (record { ts_ms = t; vals = x }) s.vec_series k,
  )
  listed-write s (snapshot j v) k = refl
  listed-write s (metadata j v) k = refl

  written-cons :
      (k : Text) (w : Write W J) (log : List (Write W J))
      → written k (w ∷ log) ≡ (written k (w ∷ []) || written k log)
  written-cons k (scalar m t v) log = ground arith
  written-cons k (vector m t v) log = ground arith
  written-cons k (snapshot j v) log = refl
  written-cons k (metadata j v) log = refl

  -- `list_series_keys` lists a name exactly when a series was written under it.
  pub list_series_keys-run :
      (s : Store W J) (log : List (Write W J)) (k : Text)
      → listed k (list_series_keys (run s log)) ≡ (written k log || listed k (list_series_keys s))
  unfolding run
  list_series_keys-run s [] k = refl
  list_series_keys-run s (w ∷ log) k =
      ground
        (arith, list_series_keys-run (write s w) log k, listed-write s w k, written-cons k w log)
