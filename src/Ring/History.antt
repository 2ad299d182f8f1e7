-- ===== src/Ring/History.antt =====
-- A buffer against the whole history of what was appended to it.
use system_monitoring_dashbo.Prelude.{
  length, ℕ, ◌≤◌, ◌<◌, ◌^◌, ◌≡◌, refl, sym, ap, ◌∙◌, List, [], ◌∷◌, ◌++◌, append_assoc, append-nil,
  arith, keep_last, keep_last-concat, keep_last_all,
}
use system_monitoring_dashbo.Ring.{Ring, new, append, slot, snapshot, snapshot_from}
use system_monitoring_dashbo.Ring.Inv.{IsValid, new-IsValid, append-IsValid, in_bounds}
use system_monitoring_dashbo.Ring.Contents.{snapshot-append, cap-append}

module _ {ℓ} {A : Type ℓ} where
  -- Calls of `append`, in order.
  unfoldable pub append_all : Ring A → List A → Ring A
  append_all r [] = r
  append_all r (x ∷ xs) = append_all (append r x) xs

  pub append_all-IsValid : (r : Ring A) (xs : List A) → IsValid r → IsValid (append_all r xs)
  unfolding append_all
  append_all-IsValid r [] v = v
  append_all-IsValid r (x ∷ xs) v = append_all-IsValid (append r x) xs (append-IsValid x v)

  cap-append_all : (r : Ring A) (xs : List A) → (append_all r xs).cap ≡ r.cap
  unfolding append_all
  cap-append_all r [] = refl
  cap-append_all r (x ∷ xs) = cap-append_all (append r x) xs ∙ cap-append r x

  -- If a buffer holds the last `cap` elements of a history, it does so after more appends.
  pub snapshot-append_all_from :
      (r : Ring A) (past xs : List A) (n : ℕ)
      → IsValid r
      → r.cap ≡ n
      → snapshot r ≡ keep_last n past
      → snapshot (append_all r xs) ≡ keep_last n (past ++ xs)
  unfolding append_all
  snapshot-append_all_from r past [] n v c h = h ∙ ap (keep_last n) (sym (append-nil past))
  snapshot-append_all_from r past (x ∷ xs) n v c h =
      let now : snapshot (append r x) ≡ keep_last n (past ++ (x ∷ [])) =
        snapshot-append x v
        ∙ ap (λ k. keep_last k (snapshot r ++ (x ∷ []))) c
        ∙ ap (λ l. keep_last n (l ++ (x ∷ []))) h
        ∙ keep_last-concat n past x in
      snapshot-append_all_from (append r x) (past ++ (x ∷ [])) xs n (append-IsValid x v)
        (cap-append r x ∙ c) now
      ∙ ap (keep_last n) (append_assoc past (x ∷ []) xs)

  pub snapshot-new : (blank : A) (cap : ℕ) → snapshot (new blank cap) ≡ []
  unfolding new snapshot snapshot_from
  snapshot-new blank cap = refl

  pub size-new : (blank : A) (cap : ℕ) → (new blank cap).size ≡ 0
  unfolding new
  size-new blank cap = refl

  pub cap-new : (blank : A) (cap : ℕ) → (new blank cap).cap ≡ cap
  unfolding new
  cap-new blank cap = refl

  -- Whatever is appended to a fresh buffer of a capacity from 1 to 2 ^ 63, the buffer keeps that length,
  -- and every index that the next `append`, `snapshot` or `range` uses lies inside it.
  pub in_bounds-append_all :
      (blank : A) (cap : ℕ) (xs : List A) (i : ℕ)
      → 0 < cap
      → cap ≤ 2 ^ 63
      → let r = append_all (new blank cap) xs in
        (length r.buffer ≡ cap) × (r.head < length r.buffer) × (slot r i < length r.buffer)
  in_bounds-append_all blank cap xs i p s =
      let v = append_all-IsValid (new blank cap) xs (new-IsValid blank cap p s) in
      let (head_in, slot_in) = in_bounds i v in
      (v.storage ∙ cap-append_all (new blank cap) xs ∙ cap-new blank cap, head_in, slot_in)

  -- Whatever is appended to a fresh buffer of a capacity from 1 to 2 ^ 63, a snapshot returns the last `cap`
  -- elements appended, oldest first.
  pub snapshot-append_all-new :
      (blank : A) (cap : ℕ) (xs : List A)
      → 0 < cap
      → cap ≤ 2 ^ 63
      → snapshot (append_all (new blank cap) xs) ≡ keep_last cap xs
  unfolding new snapshot snapshot_from
  snapshot-append_all-new blank cap xs p s =
      snapshot-append_all_from (new blank cap) [] xs cap (new-IsValid blank cap p s) refl
        (sym (keep_last_all cap [] (omega arith)))
