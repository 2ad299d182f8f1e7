-- ===== src/Store/Series.antt =====
-- The tables of series: one append, seen through what a table holds under each name.
use system_monitoring_dashbo.Prelude.{
  ℕ, ◌≤◌, ◌<◌, ◌^◌, ◌≡◌, refl, sym, ap, ◌∙◌, List, [], ◌∷◌, ◌++◌, arith, keep_last,
  keep_last-concat, append-nil, if◌then◌else◌, Option, none, some, Bool-cases, inl, inr,
}
use mathlib.Core.Path.{subst}
use system_monitoring_dashbo.Prelude.Text.{Text, text_eq}
use system_monitoring_dashbo.Prelude.Dict.{
  Dict, lookup, lookup-emplace, lookup-modify, or_else, text_key,
}
use system_monitoring_dashbo.Ring
use system_monitoring_dashbo.Ring.{Ring}
use system_monitoring_dashbo.Ring.Inv
use system_monitoring_dashbo.Ring.History
use system_monitoring_dashbo.Ring.Contents
use system_monitoring_dashbo.Store.{push}

module _ {ℓ} {A : Type ℓ} where
  -- A ring as the store makes it: valid, of the store's capacity.
  pub record IsSized (capacity : ℕ) (r : Ring A) : Type 0 where
    pub valid : Inv.IsValid r
    pub sized : r.cap ≡ capacity

  abbrev pub IsTable : ℕ → Dict Text (Ring A) → Type ℓ
  IsTable capacity table =
      (metric : Text) (r : Ring A) → lookup metric table ≡ some r → IsSized capacity r

  -- What a table holds under a name, oldest first.
  abbrev pub held_in : Option (Ring A) → List A
  held_in none = []
  held_in (some r) = Ring.snapshot r

  abbrev pub held : Dict Text (Ring A) → Text → List A
  held table metric = held_in (lookup metric table)

  abbrev pushed : A → ℕ → A → Option (Ring A) → Ring A
  pushed blank capacity x o = Ring.append (or_else o (Ring.new blank capacity)) x

  pub lookup-push :
      (blank : A) (capacity : ℕ) (metric : Text) (x : A) (table : Dict Text (Ring A)) (other : Text)
      → lookup other (push blank capacity metric x table) ≡ (
          if text_eq metric other
          then some (pushed blank capacity x (lookup other table))
          else lookup other table)
  unfolding push
  lookup-push blank capacity metric x table other = elim (Bool-cases (text_eq metric other)) [
    | inl same ↦ simp (lookup-modify, lookup-emplace, same)
    | inr apart ↦ simp (lookup-modify, lookup-emplace, apart)
  ]

module _ {ℓ} {A : Type ℓ} (blank : A) (capacity : ℕ) (positive : 0 < capacity)
    (small : capacity ≤ 2 ^ 63) where
  fresh : IsSized capacity (Ring.new blank capacity)
  fresh = record {
    valid = Inv.new-IsValid blank capacity positive small;
    sized = History.cap-new blank capacity;
  }

  or_fresh :
      (o : Option (Ring A))
      → ((r : Ring A) → o ≡ some r → IsSized capacity r)
      → IsSized capacity (or_else o (Ring.new blank capacity))
  or_fresh none h = fresh
  or_fresh (some r) h = h r refl

  append-IsSized : {r : Ring A} (x : A) → IsSized capacity r → IsSized capacity (Ring.append r x)
  append-IsSized {r} x h = record {
    valid = Inv.append-IsValid x h.valid;
    sized = Contents.cap-append r x ∙ h.sized;
  }

  pub push-IsTable :
      (metric : Text) (x : A) (table : Dict Text (Ring A))
      → IsTable capacity table
      → IsTable capacity (push blank capacity metric x table)
  push-IsTable metric x table h other r e = elim (Bool-cases (text_eq metric other)) [
    | inl same ↦
        let made : pushed blank capacity x (lookup other table) ≡ r =
          ground (arith, lookup-push blank capacity metric x table other) in
        subst (IsSized capacity) made (append-IsSized x (or_fresh (lookup other table) (h other)))
    | inr apart ↦ h other r (ground (arith, lookup-push blank capacity metric x table other))
  ]

  held_or_fresh :
      (o : Option (Ring A)) → Ring.snapshot (or_else o (Ring.new blank capacity)) ≡ held_in o
  held_or_fresh none = History.snapshot-new blank capacity
  held_or_fresh (some r) = refl

  -- Under its own name an append forgets exactly what does not fit; other names are untouched.
  pub held-push :
      (metric : Text) (x : A) (table : Dict Text (Ring A)) (other : Text)
      → IsTable capacity table
      → held (push blank capacity metric x table) other ≡ (
          if text_eq metric other
          then keep_last capacity (held table other ++ (x ∷ []))
          else held table other)
  held-push metric x table other h = elim (Bool-cases (text_eq metric other)) [
    | inl same ↦
        let sized : IsSized capacity (or_else (lookup other table) (Ring.new blank capacity)) =
          or_fresh (lookup other table) (h other) in
        rw (lookup-push blank capacity metric x table other, same)
          (Contents.snapshot-append x sized.valid
            ∙ ap
                (λ n. keep_last n (
                  Ring.snapshot (or_else (lookup other table) (Ring.new blank capacity))
                  ++ (x ∷ [])))
                sized.sized
            ∙ ap (λ l. keep_last capacity (l ++ (x ∷ []))) (held_or_fresh (lookup other table)))
    | inr apart ↦ rw (lookup-push blank capacity metric x table other, apart)
  ]

  -- A table that holds the last `n` elements of a history does so after one more append.
  pub held-push_history :
      (metric : Text) (x : A) (table : Dict Text (Ring A)) (other : Text) (n : ℕ) (past : List A)
      → IsTable capacity table
      → capacity ≡ n
      → held table other ≡ keep_last n past
      → held (push blank capacity metric x table) other
        ≡ keep_last n (past ++ (if text_eq metric other then x ∷ [] else []))
  held-push_history metric x table other n past h c e = elim (Bool-cases (text_eq metric other)) [
    | inl same ↦
        let pushed_last = held-push metric x table other h in
        rw (pushed_last, same)
          (ap (λ k. keep_last k (held table other ++ (x ∷ []))) c
            ∙ ap (λ l. keep_last n (l ++ (x ∷ []))) e
            ∙ keep_last-concat n past x)
    | inr apart ↦
        let untouched = held-push metric x table other h in
        rw (untouched, apart) (e ∙ ap (keep_last n) (sym (append-nil past)))
  ]
