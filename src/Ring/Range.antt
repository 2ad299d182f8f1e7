-- ===== src/Ring/Range.antt =====
-- `RingBuffer::range` against `snapshot`.
use system_monitoring_dashbo.Prelude.{
  ℕ, zero, suc, ◌≡◌, refl, List, keep, get_elem?, none, some, Option,
}
use system_monitoring_dashbo.Prelude.Int.{ℤ}
use system_monitoring_dashbo.Ring.{
  Ring, slot, push_read, snapshot_from, snapshot, in_range, push_in_range, range_from, range,
}

module _ {ℓ} {A : Type ℓ} (ts_ms : A → ℤ) (from_ms to_ms : ℤ) where
  keep-push_read :
      (o : Option A) (out : List A)
      → push_in_range ts_ms from_ms to_ms o (keep (in_range ts_ms from_ms to_ms) out)
        ≡ keep (in_range ts_ms from_ms to_ms) (push_read o out)
  keep-push_read none out = refl
  keep-push_read (some s) out = refl

  range_from-keep :
      (r : Ring A) (i n : ℕ)
      → range_from ts_ms r from_ms to_ms i n
        ≡ keep (in_range ts_ms from_ms to_ms) (snapshot_from r i n)
  unfolding range_from snapshot_from
  range_from-keep r i zero = refl
  range_from-keep r i (suc n) =
      rw (range_from-keep r (suc i) n)
        (keep-push_read (get_elem? r.buffer (slot r i)) (snapshot_from r (suc i) n))

  -- `range` returns the elements of a snapshot, in its order, whose time stamp lies in the closed
  -- interval.
  pub range-snapshot :
      (r : Ring A) → range ts_ms r from_ms to_ms ≡ keep (in_range ts_ms from_ms to_ms) (snapshot r)
  unfolding range snapshot
  range-snapshot r = range_from-keep r 0 r.size
