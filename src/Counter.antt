-- ===== src/Counter.antt =====
-- Counters of the kernel, read twice: `(b >= a) ? (b - a) : 0`, which the collectors write out for
-- processor times, network bytes and disk sectors; and the time between two readings.
use system_monitoring_dashbo.Prelude.{ltb, ℕ, ◌+◌, ◌-◌, ◌≤◌, ◌≡◌, arith, leb, if◌then◌else◌}
use system_monitoring_dashbo.Prelude.Double.{Double}

unfoldable pub delta : ℕ → ℕ → ℕ
delta a b = if leb a b then b - a else 0

-- A counter that did not run backwards has the exact difference.
pub add-delta : (a b : ℕ) → a ≤ b → a + delta a b ≡ b
unfolding delta
add-delta a b h = ground arith

-- The guard is what subtraction on ℕ does.
pub delta-sub : (a b : ℕ) → delta a b ≡ b - a
unfolding delta
delta-sub a b = ground arith

-- A counter that was reset counts nothing.
pub delta-le : (a b : ℕ) → delta a b ≤ b
unfolding delta
delta-le a b = ground arith

module _ {W : Type 0} ⦃d : Double W⦄ where
  -- `dt_s`: the seconds between two readings of the clock, 0 if it did not advance.
  unfoldable pub seconds_between : ℕ → ℕ → W
  seconds_between prev_time time_now =
      if ltb prev_time time_now
      then d.div (d.of_nat (time_now - prev_time)) (d.of_nat 1000)
      else d.of_nat 0
