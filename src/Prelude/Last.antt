-- ===== src/Prelude/Last.antt =====
-- The last `n` elements of a list, oldest first.
use Prim.Native.Nat.{ℕ, zero, suc, ◌+◌, ◌-◌, ◌≤◌, min}
use mathlib.Core.Path.{◌≡◌, refl, sym, ap, ◌∙◌, ◌≡⟨◌⟩◌, ◌∎}
use mathlib.Core.List.{List, [], ◌∷◌, ◌++◌}
use native.Mathlib.Omega.{arith}
use system_monitoring_dashbo.Prelude.Lists.{length, drop, length-append, length-drop}

module _ {ℓ} {A : Type ℓ} where
  abbrev pub keep_last : ℕ → List A → List A
  keep_last n xs = drop (length xs - n) xs

  pub length-keep_last : (n : ℕ) (xs : List A) → length (keep_last n xs) ≡ min n (length xs)
  length-keep_last n xs = omega (arith, length-drop (length xs - n) xs)

  pub keep_last_all : (n : ℕ) (xs : List A) → length xs ≤ n → keep_last n xs ≡ xs
  keep_last_all n xs h =
      let none_dropped : length xs - n ≡ 0 = omega arith in ap (λ k. drop k xs) none_dropped

  pub drop_le : (k : ℕ) (xs ys : List A) → k ≤ length xs → drop k (xs ++ ys) ≡ drop k xs ++ ys
  drop_le zero xs ys h = refl
  drop_le (suc k) [] ys h = absurd (omega arith)
  drop_le (suc k) (x ∷ xs) ys h = drop_le k xs ys (omega arith)

  drop-nil : (k l : ℕ) → drop {A = A} k [] ≡ drop {A = A} l []
  drop-nil zero zero = refl
  drop-nil zero (suc l) = refl
  drop-nil (suc k) zero = refl
  drop-nil (suc k) (suc l) = refl

  drop_cons : (k l : ℕ) (x : A) (xs : List A) → l ≡ suc k → drop l (x ∷ xs) ≡ drop k xs
  drop_cons k l x xs e = ap (λ n. drop n (x ∷ xs)) e

  pub drop-drop : (j k : ℕ) (xs : List A) → drop j (drop k xs) ≡ drop (k + j) xs
  drop-drop j zero xs = let e : j ≡ 0 + j = omega arith in ap (λ n. drop n xs) e
  drop-drop j (suc k) [] = drop-nil j (suc k + j)
  drop-drop j (suc k) (x ∷ xs) =
      drop-drop j k xs ∙ sym (drop_cons (k + j) (suc k + j) x xs (omega arith))

  -- Forgetting before an element is added forgets nothing that is kept afterwards.
  pub keep_last-concat :
      (n : ℕ) (xs : List A) (x : A)
      → keep_last n (keep_last n xs ++ (x ∷ [])) ≡ keep_last n (xs ++ (x ∷ []))
  keep_last-concat n xs x =
      let k = length xs - n in
      let joined : drop k xs ++ (x ∷ []) ≡ drop k (xs ++ (x ∷ [])) =
        sym (drop_le k xs (x ∷ []) (omega arith)) in
      let m = length (drop k xs ++ (x ∷ [])) - n in
      let counted : k + m ≡ length (xs ++ (x ∷ [])) - n =
        omega (
          arith,
          length-append (drop k xs) (x ∷ []),
          length-append xs (x ∷ []),
          length-drop k xs,
        ) in
      drop m (drop k xs ++ (x ∷ []))
      ≡⟨ ap (drop m) joined ⟩ drop m (drop k (xs ++ (x ∷ [])))
      ≡⟨ drop-drop m k (xs ++ (x ∷ [])) ⟩ drop (k + m) (xs ++ (x ∷ []))
      ≡⟨ ap (λ i. drop i (xs ++ (x ∷ []))) counted ⟩ keep_last n (xs ++ (x ∷ [])) ∎
