-- ===== src/Ring/Tests.antt =====
-- Runs of a buffer of capacity 3, and the theorems about buffers at it.
use system_monitoring_dashbo.Prelude.{ℕ, ◌≡◌, ◌<◌, refl, [], ◌∷◌, arith, keep_last, length}
use system_monitoring_dashbo.Prelude.Int.{pos}
use system_monitoring_dashbo.Ring.{
  Ring, new, append, snapshot, snapshot_from, range, range_from, slot,
}
use system_monitoring_dashbo.Ring.Inv.{IsValid}
use system_monitoring_dashbo.Ring.History.{
  append_all, in_bounds-append_all, snapshot-append_all-new,
}

-- Four elements went into three places.
abbrev wrapped : Ring ℕ
wrapped = record { buffer = 8 ∷ 6 ∷ 7 ∷ []; cap = 3; head = 1; tail = 1; size = 3 }

append_all_run : append_all (new 0 3) (5 ∷ 6 ∷ 7 ∷ 8 ∷ []) ≡ wrapped
unfolding append_all new append
append_all_run = refl

snapshot_run : snapshot wrapped ≡ 6 ∷ 7 ∷ 8 ∷ []
unfolding snapshot snapshot_from
snapshot_run = refl

range_run : range pos wrapped (pos 7) (pos 9) ≡ 7 ∷ 8 ∷ []
unfolding range range_from
range_run = refl

wrapped-IsValid : IsValid wrapped
wrapped-IsValid = omega arith

in_bounds-append_all_example :
    let r = append_all {A = ℕ} (new 0 3) (5 ∷ 6 ∷ 7 ∷ 8 ∷ []) in
    (length r.buffer ≡ 3) × (r.head < length r.buffer) × (slot r 2 < length r.buffer)
in_bounds-append_all_example =
    in_bounds-append_all {A = ℕ} 0 3 (5 ∷ 6 ∷ 7 ∷ 8 ∷ []) 2 (omega arith) (omega arith)

snapshot-append_all-new_example :
    snapshot {A = ℕ} (append_all (new 0 3) (5 ∷ 6 ∷ 7 ∷ 8 ∷ [])) ≡ keep_last 3 (5 ∷ 6 ∷ 7 ∷ 8 ∷ [])
snapshot-append_all-new_example =
    snapshot-append_all-new 0 3 (5 ∷ 6 ∷ 7 ∷ 8 ∷ []) (omega arith) (omega arith)
