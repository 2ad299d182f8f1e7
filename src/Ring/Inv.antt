-- ===== src/Ring/Inv.antt =====
-- The representation invariant of `RingBuffer`, and that no index leaves the buffer.
use system_monitoring_dashbo.Prelude.{
  ℕ, ◌+◌, ◌%◌, ◌^◌, ◌≤◌, ◌<◌, ◌≡◌, arith, length, length-set, length-replicate,
}
use native.Mathlib.Nat.{mod-add-mod, mod-lt}
use system_monitoring_dashbo.Ring.{Ring, add_size, slot, new, append}

-- `cap` is at most half the address space, as `std::vector` demands of its length.
pub record IsValid {ℓ} {A : Type ℓ} (r : Ring A) : Type 0 where
  pub storage : length r.buffer ≡ r.cap
  pub positive : 0 < r.cap
  pub small : r.cap ≤ 2 ^ 63
  pub tail_in : r.tail < r.cap
  pub size_in : r.size ≤ r.cap
  pub head_at : r.head ≡ (r.tail + r.size) % r.cap

module _ {ℓ} {A : Type ℓ} where
  pub new-IsValid : (blank : A) (cap : ℕ) → 0 < cap → cap ≤ 2 ^ 63 → IsValid (new blank cap)
  unfolding new
  new-IsValid blank cap p s = record {
    storage = length-replicate cap blank;
    positive = p;
    small = s;
    tail_in = p;
    size_in = omega arith;
    head_at = omega arith;
  }

  -- `append` keeps a valid buffer valid: its indices stay inside it and its size within its capacity.
  pub append-IsValid : {r : Ring A} (x : A) → IsValid r → IsValid (append r x)
  unfolding append
  append-IsValid {r} x v = ground (
    arith,
    length-set r.buffer r.head x,
    mod-add-mod (r.tail + r.size) r.cap 1,
    mod-add-mod (r.tail + 1) r.cap r.size,
    mod-lt (r.tail + 1) v.positive,
    mod-lt (r.tail + r.size) v.positive,
  )

  -- Every index that `append`, `snapshot` and `range` use lies inside the buffer.
  pub in_bounds :
      {r : Ring A} (i : ℕ) → IsValid r → (r.head < length r.buffer) × (slot r i < length r.buffer)
  in_bounds {r} i v =
      omega (arith, mod-lt (r.tail + r.size) v.positive, mod-lt (add_size r.tail i) v.positive)
