-- ===== src/Proc/Order.antt =====
-- The order of the rows by processor use.
use system_monitoring_dashbo.Prelude.{
  ℕ, leb, refl, ◌⊎◌, inl, inr, List, [], ◌∷◌, arith, All, Bool-cases,
}
use mathlib.Core.List.{Permᴰ}
use mathlib.Core.List
use system_monitoring_dashbo.Prelude.Double.{Double, ◌≼◌, whole_double}
use system_monitoring_dashbo.Proc.{ProcRow, gt, insert_row, stable_sort}

-- The comparison of doubles that are numbers.
pub record IsTotal (W : Type 0) ⦃d : Double W⦄ : Type 0 where
  pub total : (a b : W) → (a ≼ b) ⊎ (b ≼ a)
  pub chain : (a b c : W) → a ≼ b → b ≼ c → a ≼ c

module _ {W : Type 0} ⦃d : Double W⦄ where
  -- No row uses more than one that stands before it.
  abbrev pub IsSorted : List (ProcRow W) → Type 0
  IsSorted [] = Unit
  IsSorted (r ∷ rows) = All (λ (x : ProcRow W). x.cpu_pct ≼ r.cpu_pct) rows × IsSorted rows

  insert_row-Perm : (r : ProcRow W) (rows : List (ProcRow W)) → Permᴰ (insert_row r rows) (r ∷ rows)
  unfolding insert_row
  insert_row-Perm r [] = List.Permᴰ.refl (r ∷ [])
  insert_row-Perm r (x ∷ rows) = elim (Bool-cases (gt x.cpu_pct r.cpu_pct)) [
    | inl before ↦
        rw before (Permᴰ.trans (Permᴰ.cons refl (insert_row-Perm r rows)) (Permᴰ.swap refl refl))
    | inr after ↦ rw after (List.Permᴰ.refl (r ∷ x ∷ rows))
  ]

  -- Sorting only rearranges.
  pub stable_sort-Perm : (rows : List (ProcRow W)) → Permᴰ (stable_sort rows) rows
  unfolding stable_sort
  stable_sort-Perm [] = Permᴰ.nil
  stable_sort-Perm (r ∷ rows) =
      Permᴰ.trans (insert_row-Perm r (stable_sort rows)) (Permᴰ.cons refl (stable_sort-Perm rows))

  module _ (order : IsTotal W) where
    All-chain :
        (x r : ProcRow W) (rows : List (ProcRow W))
        → x.cpu_pct ≼ r.cpu_pct
        → All (λ (y : ProcRow W). y.cpu_pct ≼ x.cpu_pct) rows
        → All (λ (y : ProcRow W). y.cpu_pct ≼ r.cpu_pct) rows
    All-chain x r [] h all = tt
    All-chain x r (y ∷ rows) h (low, all) =
        (order.chain y.cpu_pct x.cpu_pct r.cpu_pct low h, All-chain x r rows h all)

    insert_row-All :
        (x r : ProcRow W) (rows : List (ProcRow W))
        → r.cpu_pct ≼ x.cpu_pct
        → All (λ (y : ProcRow W). y.cpu_pct ≼ x.cpu_pct) rows
        → All (λ (y : ProcRow W). y.cpu_pct ≼ x.cpu_pct) (insert_row r rows)
    unfolding insert_row
    insert_row-All x r [] h all = (h, tt)
    insert_row-All x r (y ∷ rows) h (low, all) = elim (Bool-cases (gt y.cpu_pct r.cpu_pct)) [
      | inl before ↦ rw before (low, insert_row-All x r rows h all)
      | inr after ↦ rw after (h, (low, all))
    ]

    insert_row-IsSorted :
        (r : ProcRow W) (rows : List (ProcRow W)) → IsSorted rows → IsSorted (insert_row r rows)
    unfolding insert_row
    insert_row-IsSorted r [] h = (tt, tt)
    insert_row-IsSorted r (x ∷ rows) (all, h) = elim (Bool-cases (gt x.cpu_pct r.cpu_pct)) [
      | inl before ↦
          rw before (insert_row-All x r rows (ground arith) all, insert_row-IsSorted r rows h)
      | inr after ↦
          let low : x.cpu_pct ≼ r.cpu_pct = elim (order.total x.cpu_pct r.cpu_pct) [
            | inl low ↦ low
            | inr high ↦ ground arith
          ] in
          rw after ((low, All-chain x r rows low all), (all, h))
    ]

    pub stable_sort-IsSorted : (rows : List (ProcRow W)) → IsSorted (stable_sort rows)
    unfolding stable_sort
    stable_sort-IsSorted [] = tt
    stable_sort-IsSorted (r ∷ rows) =
        insert_row-IsSorted r (stable_sort rows) (stable_sort-IsSorted rows)

-- The numbers that the concrete runs take for doubles.
pub whole_double-IsTotal : IsTotal ℕ
whole_double-IsTotal = record {
  total = λ a b. elim (Bool-cases (leb a b)) [ inl low ↦ inl low | inr high ↦ inr (ground arith) ];
  chain = λ a b c h k. ground arith;
}
