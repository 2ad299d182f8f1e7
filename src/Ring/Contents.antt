-- ===== src/Ring/Contents.antt =====
-- What one `append` does to the elements that a buffer holds, oldest first.
use system_monitoring_dashbo.Prelude.{
  ℕ, zero, suc, ◌+◌, ◌-◌, ◌%◌, ◌≤◌, ◌<◌, ◌≡◌, refl, sym, ap, ◌∙◌, [], ◌∷◌, ◌++◌, arith, length,
  drop, keep_last, keep_last_all, length-append, Bool-cases, inl, inr, ltb, false, lt→ltb, ltb→lt,
  drop_le, min, false, min,
}
use native.Mathlib.Nat.{mod-add-mod, mod-eq_of_lt, add-mod_right}
use system_monitoring_dashbo.Ring.{Ring, add_size, slot, snapshot_from, snapshot, append}
use system_monitoring_dashbo.Ring.Inv.{IsValid, append-IsValid}
use system_monitoring_dashbo.Ring.Window.{window, length-window, window-set, window_slide}

module _ {ℓ} {A : Type ℓ} where
  next_slot : {r : Ring A} (i : ℕ) → IsValid r → i < r.cap → (slot r i + 1) % r.cap ≡ slot r (suc i)
  next_slot {r} i v h =
      let small : (slot r i + 1) % r.cap ≡ (r.tail + i + 1) % r.cap =
        ground (arith, mod-add-mod (r.tail + i) r.cap 1) in
      ground (arith, small)

  snapshot_from-window :
      {r : Ring A} (i n : ℕ)
      → IsValid r
      → i + n ≤ r.cap
      → snapshot_from r i n ≡ window r.buffer r.cap (slot r i) n
  unfolding snapshot_from
  snapshot_from-window i zero v h = refl
  snapshot_from-window {r} i (suc n) v h =
      rw (snapshot_from-window (suc i) n v (omega arith), ← next_slot i v (omega arith))

  pub snapshot-window : {r : Ring A} → IsValid r → snapshot r ≡ window r.buffer r.cap r.tail r.size
  unfolding snapshot
  snapshot-window {r} v =
      let start : slot r 0 ≡ r.tail =
        let plain : add_size r.tail 0 ≡ r.tail = omega arith in
        ap (λ k. k % r.cap) plain ∙ mod-eq_of_lt v.tail_in in
      snapshot_from-window 0 r.size v (omega arith) ∙ ap (λ h. window r.buffer r.cap h r.size) start

  -- `size` counts the elements that `snapshot` copies.
  pub length-snapshot : {r : Ring A} → IsValid r → length (snapshot r) ≡ r.size
  length-snapshot {r} v =
      rw (snapshot-window v) (length-window r.buffer r.cap v.storage r.tail r.size v.tail_in)

  -- While there is room, the new element comes last.
  append_roomy :
      {r : Ring A} (x : A)
      → IsValid r
      → r.size < r.cap
      → window (append r x).buffer (append r x).cap (append r x).tail (append r x).size
        ≡ window r.buffer r.cap r.tail r.size ++ (x ∷ [])
  unfolding append
  append_roomy {r} x v h =
      let grown : add_size r.size 1 ≡ suc r.size = omega arith in
      rw (lt→ltb r.size r.cap h, grown)
        (window-set r.buffer r.cap v.storage x r.size r.tail r.head v.tail_in h v.head_at)

  -- When the buffer is full, the oldest element goes.
  append_full :
      {r : Ring A} (x : A)
      → IsValid r
      → r.size ≡ r.cap
      → window (append r x).buffer (append r x).cap (append r x).tail (append r x).size
        ≡ drop 1 (window r.buffer r.cap r.tail r.size) ++ (x ∷ [])
  unfolding append
  append_full {r} x v h =
      let there : r.head ≡ r.tail =
        v.head_at
        ∙ ap (λ k. (r.tail + k) % r.cap) h
        ∙ add-mod_right r.tail r.cap
        ∙ mod-eq_of_lt v.tail_in in
      let small : add_size r.tail 1 ≡ r.tail + 1 = omega arith in
      let shut : ltb r.size r.cap ≡ false = ground arith in
      rw shut (
        window_slide r.buffer r.cap v.storage x r.size r.tail r.head (add_size r.tail 1 % r.cap)
          v.tail_in h there (ap (λ k. k % r.cap) small))

  pub size-append : {r : Ring A} (x : A) → IsValid r → (append r x).size ≡ min r.cap (r.size + 1)
  unfolding append
  size-append x v = ground arith

  pub cap-append : (r : Ring A) (x : A) → (append r x).cap ≡ r.cap
  unfolding append
  cap-append r x = ground arith

  -- `append` forgets exactly what does not fit: the buffer then holds the last `cap` of its old
  -- elements and the new one.
  pub snapshot-append :
      {r : Ring A} (x : A)
      → IsValid r
      → snapshot (append r x) ≡ keep_last r.cap (snapshot r ++ (x ∷ []))
  snapshot-append {r} x v =
      snapshot-window (append-IsValid x v) ∙ elim (Bool-cases (ltb r.size r.cap)) [
        | inl room ↦
            append_roomy x v (ltb→lt r.size r.cap room)
            ∙ ap (λ l. l ++ (x ∷ [])) (sym (snapshot-window v))
            ∙ sym (
                keep_last_all r.cap (snapshot r ++ (x ∷ []))
                  (ground (arith, length-append (snapshot r) (x ∷ []), length-snapshot v)))
        | inr over ↦
            let sat : r.size ≡ r.cap = ground arith in
            let held : length (snapshot r) ≡ r.cap = length-snapshot v ∙ sat in
            let one : 1 ≡ length (snapshot r ++ (x ∷ [])) - r.cap =
              omega (arith, length-append (snapshot r) (x ∷ [])) in
            append_full x v sat
            ∙ ap (λ l. drop 1 l ++ (x ∷ [])) (sym (snapshot-window v))
            ∙ sym (drop_le 1 (snapshot r) (x ∷ []) (omega (arith, v.positive)))
            ∙ ap (λ k. drop k (snapshot r ++ (x ∷ []))) one
      ]
