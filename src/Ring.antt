-- ===== src/Ring.antt =====
-- include/store/memory_store.h, `RingBuffer<T>`: a circular buffer that overwrites its oldest
-- element when it is full. A method that changes the object returns the new one.
pub mod Inv
pub mod Window
pub mod Contents
pub mod History
pub mod Range
mod Tests
use system_monitoring_dashbo.Prelude.{
  ℕ, zero, suc, ◌+◌, ◌%◌, ◌^◌, Bool, ◌&&◌, Option, none, some, List, [], ◌∷◌, if◌then◌else◌, ltb,
  ◌==◌, get_elem?, set, replicate,
}
use system_monitoring_dashbo.Prelude.Int.{ℤ, leb_ℤ}

pub record Ring {ℓ} (A : Type ℓ) : Type ℓ where
  pub buffer : List A
  pub cap : ℕ
  pub head : ℕ
  pub tail : ℕ
  pub size : ℕ

-- `size_t` addition
abbrev pub add_size : ℕ → ℕ → ℕ
add_size a b = (a + b) % 2 ^ 64

module _ {ℓ} {A : Type ℓ} where
  -- `RingBuffer(cap)`; `blank` is `T{}`.
  pub new : A → ℕ → Ring A
  new blank cap = record { buffer = replicate cap blank; cap = cap; head = 0; tail = 0; size = 0 }

  -- `RingBuffer()`
  pub unsized : Ring A
  unsized = record { buffer = []; cap = 0; head = 0; tail = 0; size = 0 }

  pub empty : Ring A → Bool
  empty r = r.size == 0

  pub full : Ring A → Bool
  full r = r.size == r.cap

  -- A write outside the buffer changes nothing here; `Inv.in_bounds` rules it out.
  pub append : Ring A → A → Ring A
  append r x =
      if ltb r.size r.cap
      then record r {
        buffer = set r.buffer r.head x;
        head = add_size r.head 1 % r.cap;
        size = add_size r.size 1;
      }
      else record r {
        buffer = set r.buffer r.head x;
        head = add_size r.head 1 % r.cap;
        tail = add_size r.tail 1 % r.cap;
      }

  -- The index that round `i` of a reading loop looks at.
  abbrev pub slot : Ring A → ℕ → ℕ
  slot r i = add_size r.tail i % r.cap

  -- A read outside the buffer yields nothing; `Inv.in_bounds` rules it out.
  abbrev pub push_read : Option A → List A → List A
  push_read none out = out
  push_read (some x) out = x ∷ out

  -- The loop of `snapshot` from round `i`, with `n` rounds left.
  pub snapshot_from : Ring A → ℕ → ℕ → List A
  snapshot_from r i zero = []
  snapshot_from r i (suc n) = push_read (get_elem? r.buffer (slot r i)) (snapshot_from r (suc i) n)

  pub snapshot : Ring A → List A
  snapshot r = snapshot_from r 0 r.size

  pub reset : A → Ring A → ℕ → Ring A
  reset blank r cap = record r {
    buffer = replicate cap blank;
    cap = cap;
    head = 0;
    tail = 0;
    size = 0;
  }

-- The members of `T` that `range` reads.
module _ {ℓ} {A : Type ℓ} (ts_ms : A → ℤ) where
  abbrev pub in_range : ℤ → ℤ → A → Bool
  in_range from_ms to_ms s = leb_ℤ from_ms (ts_ms s) && leb_ℤ (ts_ms s) to_ms

  abbrev pub push_in_range : ℤ → ℤ → Option A → List A → List A
  push_in_range from_ms to_ms none out = out
  push_in_range from_ms to_ms (some s) out = if in_range from_ms to_ms s then s ∷ out else out

  -- The loop of `range` from round `i`, with `n` rounds left.
  pub range_from : Ring A → ℤ → ℤ → ℕ → ℕ → List A
  range_from r from_ms to_ms i zero = []
  range_from r from_ms to_ms i (suc n) =
      push_in_range from_ms to_ms (get_elem? r.buffer (slot r i))
        (range_from r from_ms to_ms (suc i) n)

  pub range : Ring A → ℤ → ℤ → List A
  range r from_ms to_ms = range_from r from_ms to_ms 0 r.size
