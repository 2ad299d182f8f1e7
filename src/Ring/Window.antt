-- ===== src/Ring/Window.antt =====
-- Stretches of a circular buffer, and what one write does to them.
use system_monitoring_dashbo.Prelude.{
  ℕ, zero, suc, ◌+◌, ◌-◌, ◌%◌, ◌<◌, ◌≡◌, ◌≢◌, refl, ap, ◌∙◌, sym, drop, List, [], ◌∷◌, ◌++◌, arith,
  length, get_elem?, set, get_elem?-set_self, get_elem?-set_ne, get_elem?-some, ◌⊎◌, inl, inr,
  Bool-cases, ltb, ltb→lt,
}
use native.Mathlib.Nat.{mod-add-mod, mod-eq_of_lt, mod-eq-sub-mod, mod-lt, add-mod_right}
use system_monitoring_dashbo.Ring.{push_read}

-- The `n` elements from index `h` on, going round at `cap`.
abbrev pub window {ℓ} : {A : Type ℓ} → List A → ℕ → ℕ → ℕ → List A
window buffer cap h zero = []
window buffer cap h (suc n) = push_read (get_elem? buffer h) (window buffer cap ((h + 1) % cap) n)

-- One round at most: the remainder is the number, or what is left of it behind `cap`.
remainder : (n cap : ℕ) → n < cap + cap → (n % cap ≡ n) ⊎ (n % cap + cap ≡ n)
remainder n cap h = elim (Bool-cases (ltb n cap)) [
  | inl low ↦ inl (mod-eq_of_lt (ltb→lt n cap low))
  | inr high ↦ inr (
      ground (
        arith,
        mod-eq-sub-mod {n = n} {m = cap} (ground arith),
        mod-eq_of_lt {n = n - cap} {m = cap} (ground arith),
      ))
]

-- Fewer than `cap` steps forward do not come back to the start.
step-ne : {cap h : ℕ} (k : ℕ) → h < cap → suc k < cap → (h + suc k) % cap ≢ h
step-ne {cap} {h} k inside few e = elim (remainder (h + suc k) cap (omega arith)) [
  | inl stayed ↦ omega arith
  | inr wrapped ↦ omega arith
]

next_start : (cap h n : ℕ) → (h + suc n) % cap ≡ ((h + 1) % cap + n) % cap
next_start cap h n = omega (arith, mod-add-mod (h + 1) cap n, ap (λ k. k % cap) (same h n))
  where
    same : (h n : ℕ) → h + 1 + n ≡ h + suc n
    same h n = omega arith

module _ {ℓ} {A : Type ℓ} (buffer : List A) (cap : ℕ) (room : length buffer ≡ cap) where
  pub length-window : (h n : ℕ) → h < cap → length (window buffer cap h n) ≡ n
  length-window h zero p = refl
  length-window h (suc n) p =
      let (x, found) = get_elem?-some buffer h (omega arith) in
      rw found (ap suc (length-window ((h + 1) % cap) n (mod-lt (h + 1) (omega arith))))

  -- Writing just behind a window extends it.
  pub window-set :
      (x : A) (n h i : ℕ)
      → h < cap
      → n < cap
      → i ≡ (h + n) % cap
      → window (set buffer i x) cap h (suc n) ≡ window buffer cap h n ++ (x ∷ [])
  window-set x zero h i hh hn e =
      let plain : h + 0 ≡ h = omega arith in
      let here : i ≡ h = e ∙ ap (λ k. k % cap) plain ∙ mod-eq_of_lt hh in
      rw (here, get_elem?-set_self buffer h x (omega arith))
  window-set x (suc n) h i hh hn e =
      let away : i ≢ h = rw e (step-ne n hh hn) in
      let (y, found) = get_elem?-some buffer h (omega arith) in
      let rest =
        window-set x n ((h + 1) % cap) i (mod-lt (h + 1) (omega arith)) (omega arith)
          (e ∙ next_start cap h n) in
      rw (get_elem?-set_ne buffer i h x away, found) (ap (λ l. y ∷ l) rest)

  -- Writing over the first element of a full window, and starting behind it, shifts by one.
  pub window_slide :
      (x : A) (k h i t : ℕ)
      → h < cap
      → k ≡ cap
      → i ≡ h
      → t ≡ (h + 1) % cap
      → window (set buffer i x) cap t k ≡ drop 1 (window buffer cap h k) ++ (x ∷ [])
  window_slide x zero h i t hh hk hi ht = absurd (omega arith)
  window_slide x (suc n) h i t hh hk hi ht =
      let (y, found) = get_elem?-some buffer h (omega arith) in
      let round : (h + suc n) % cap ≡ h =
        ap (λ k. (h + k) % cap) hk ∙ add-mod_right h cap ∙ mod-eq_of_lt hh in
      let last : i ≡ ((h + 1) % cap + n) % cap = hi ∙ sym round ∙ next_start cap h n in
      rw (found, ht)
        (window-set x n ((h + 1) % cap) i (mod-lt (h + 1) (omega arith)) (omega arith) last)
