-- ===== src/Store/Section/Listing.antt =====
-- `list_series_keys` of store/memory_store.cpp by its critical sections: the names of the scalar
-- series under the lock of their table, in one store, and those of the vector series in a later one.
use system_monitoring_dashbo.Prelude.{
  ◌≡◌, refl, sym, ◌∙◌, Bool, true, false, ◌||◌, List, [], ◌∷◌, ◌++◌, arith, All, Bool-cases, inl,
  inr,
}
use system_monitoring_dashbo.Prelude.Text.{Text, text_eq, text_eq_self}
use system_monitoring_dashbo.Prelude.Dict.{Dict, keys, lookup, text_key}
use system_monitoring_dashbo.Ring.{Ring}
use system_monitoring_dashbo.Store.{Store, list_series_keys}
use system_monitoring_dashbo.Store.Keys.{listed, listed-append}
use system_monitoring_dashbo.Store.Section.Same.{IsPresent}
use system_monitoring_dashbo.Store.Section.Reads.{IsGrown}

unfoldable pub list_series_keys_sections : {W J : Type 0} → Store W J → Store W J → List Text
list_series_keys_sections scalars vectors = keys scalars.series ++ keys vectors.vec_series

module _ {ℓ} {A : Type ℓ} where
  listed-IsPresent :
      (k : Text) (table : Dict Text (Ring A)) → listed k (keys table) ≡ true → IsPresent k table
  unfolding lookup
  listed-IsPresent k [] h = absurd (cc)
  listed-IsPresent k ((i, r) ∷ table) h = elim (Bool-cases (text_eq i k)) [
    | inl same ↦ (r, rw (lookup, same) refl)
    | inr apart ↦
        let (q, found) = listed-IsPresent k table (ground arith) in (q, rw (lookup, apart) found)
  ]

  IsPresent-listed :
      (k : Text) (table : Dict Text (Ring A)) → IsPresent k table → listed k (keys table) ≡ true
  unfolding lookup
  IsPresent-listed k [] (r, e) = absurd (cc)
  IsPresent-listed k ((i, q) ∷ table) (r, e) = elim (Bool-cases (text_eq i k)) [
    | inl same ↦ ground arith
    | inr apart ↦ let later = IsPresent-listed k table (r, ground arith) in ground arith
  ]

  -- A table with all the series of another one lists all of its names.
  listed-grown :
      (k : Text) (a b : Dict Text (Ring A))
      → ((metric : Text) → IsPresent metric a → IsPresent metric b)
      → listed k (keys a) ≡ true
      → listed k (keys b) ≡ true
  listed-grown k a b grown h = IsPresent-listed k b (grown k (listed-IsPresent k a h))

or_mono :
    (x y x' y' : Bool)
    → (x ≡ true → x' ≡ true)
    → (y ≡ true → y' ≡ true)
    → (x || y) ≡ true
    → (x' || y') ≡ true
or_mono true y x' y' f g h = let e = f refl in ground arith
or_mono false y x' y' f g h = let e = g h in ground arith

-- Every name of the first list is in the second.
abbrev pub IsListedIn : List Text → List Text → Type 0
IsListedIn names others = All (λ k. listed k others ≡ true) names

all_listed :
    (names others : List Text)
    → ((k : Text) → listed k names ≡ true → listed k others ≡ true)
    → IsListedIn names others
all_listed [] others h = tt
all_listed (x ∷ names) others h = (
  h x (let e = text_eq_self x in ground arith),
  all_listed names others (λ k e. h k (ground arith)),
)

module _ {W J : Type 0} (a b : Store W J) (grown : IsGrown a b) (k : Text) where
  first_listed :
      listed k (list_series_keys a) ≡ true → listed k (list_series_keys_sections a b) ≡ true
  unfolding list_series_keys list_series_keys_sections
  first_listed h =
      listed-append k (keys a.series) (keys b.vec_series)
      ∙ or_mono (listed k (keys a.series)) (listed k (keys a.vec_series)) _ _ (λ e. e)
          (listed-grown k a.vec_series b.vec_series grown.1)
          (sym (listed-append k (keys a.series) (keys a.vec_series)) ∙ h)

  last_listed :
      listed k (list_series_keys_sections a b) ≡ true → listed k (list_series_keys b) ≡ true
  unfolding list_series_keys list_series_keys_sections
  last_listed h =
      listed-append k (keys b.series) (keys b.vec_series)
      ∙ or_mono (listed k (keys a.series)) (listed k (keys b.vec_series)) _ _
          (listed-grown k a.series b.series grown.0) (λ e. e)
          (sym (listed-append k (keys a.series) (keys b.vec_series)) ∙ h)

-- If no series goes away in between, every name that the first store lists is listed, and every
-- listed name is one that the last store lists.
pub list_series_keys-sections :
    {W J : Type 0} (a b : Store W J)
    → IsGrown a b
    → IsListedIn (list_series_keys a) (list_series_keys_sections a b)
      × IsListedIn (list_series_keys_sections a b) (list_series_keys b)
list_series_keys-sections a b grown = (
  all_listed (list_series_keys a) (list_series_keys_sections a b) (λ k. first_listed a b grown k),
  all_listed (list_series_keys_sections a b) (list_series_keys b) (λ k. last_listed a b grown k),
)
