-- ===== src/Cpu/Percent.antt =====
-- The percentages lie between 0 and 100.
use system_monitoring_dashbo.Prelude.{
  ℕ, ◌+◌, ◌*◌, ◌^◌, ◌≤◌, ◌<◌, ◌≡◌, sym, ap, ◌∙◌, arith, ◌==◌, Bool-cases, inl, inr,
}
use mathlib.Core.Path.{subst₂}
use native.Mathlib.Nat.{mod-eq_of_lt}
use system_monitoring_dashbo.Prelude.Double.{Double, IsIeee, ◌≼◌}
use system_monitoring_dashbo.Counter.{delta}
use system_monitoring_dashbo.Cpu.{CpuTimes, active_time, total_time, percent}

-- No field ran backwards, and the later reading has not overflowed 64 bits.
pub record IsLater (a b : CpuTimes) : Type 0 where
  pub user : a.user ≤ b.user
  pub nice : a.nice ≤ b.nice
  pub system : a.system ≤ b.system
  pub idle : a.idle ≤ b.idle
  pub iowait : a.iowait ≤ b.iowait
  pub irq : a.irq ≤ b.irq
  pub softirq : a.softirq ≤ b.softirq
  pub steal : a.steal ≤ b.steal
  pub small : b.user + b.nice + b.system + b.irq + b.softirq + b.steal + b.idle + b.iowait < 2 ^ 64

active_exact :
    (t : CpuTimes)
    → t.user + t.nice + t.system + t.irq + t.softirq + t.steal < 2 ^ 64
    → active_time t ≡ t.user + t.nice + t.system + t.irq + t.softirq + t.steal
unfolding active_time
active_exact t h = mod-eq_of_lt h

total_exact :
    (t : CpuTimes)
    → t.user + t.nice + t.system + t.irq + t.softirq + t.steal + t.idle + t.iowait < 2 ^ 64
    → total_time t ≡ t.user + t.nice + t.system + t.irq + t.softirq + t.steal + t.idle + t.iowait
unfolding total_time
total_exact t h = omega (arith, active_exact t (omega arith))

-- Between two readings the active time grows by no more than the total time.
pub delta-active-le-total :
    {a b : CpuTimes}
    → IsLater a b
    → delta (active_time a) (active_time b) ≤ delta (total_time a) (total_time b)
unfolding delta
delta-active-le-total {a} {b} h = ground (
  arith,
  active_exact a (omega arith),
  active_exact b (omega arith),
  total_exact a (omega arith),
  total_exact b h.small,
)

module _ {W : Type 0} ⦃d : Double W⦄ (ieee : IsIeee W) where
  abbrev share : ℕ → ℕ → W
  share a t = d.div (d.mul (d.of_nat 100) (d.of_nat a)) (d.of_nat t)

  share_bounds :
      (a t : ℕ) → 0 < t → a ≤ t → t < 2 ^ 46 → (d.of_nat 0 ≼ share a t) × (share a t ≼ d.of_nat 100)
  share_bounds a t p h small =
      let whole : d.mul (d.of_nat 100) (d.of_nat a) ≡ d.of_nat (100 * a) =
        ieee.mul_exact 100 a (omega arith) in
      let low = ieee.div_mono 0 (100 * a) t p (omega arith) in
      let high = ieee.div_mono (100 * a) (100 * t) t p (omega arith) in
      let nothing : d.div (d.of_nat (0 * t)) (d.of_nat t) ≡ d.of_nat 0 =
        ieee.div_exact 0 t p (omega arith) in
      let all : d.div (d.of_nat (100 * t)) (d.of_nat t) ≡ d.of_nat 100 =
        ieee.div_exact 100 t p (omega arith) in
      let none_of : 0 * t ≡ 0 = omega arith in
      let start : d.div (d.of_nat 0) (d.of_nat t) ≡ d.of_nat 0 =
        ap (λ n. d.div (d.of_nat n) (d.of_nat t)) (sym none_of) ∙ nothing in
      let shared : share a t ≡ d.div (d.of_nat (100 * a)) (d.of_nat t) =
        ap (λ x. d.div x (d.of_nat t)) whole in
      (subst₂ (λ x y. x ≼ y) start (sym shared) low, subst₂ (λ x y. x ≼ y) (sym shared) all high)

  -- The percentage of two readings of running counters lies between 0 and 100, if the total grew by
  -- less than 2 ^ 46 and `double` follows IEEE 754.
  pub percent_bounds :
      {a b : CpuTimes}
      → IsLater a b
      → delta (total_time a) (total_time b) < 2 ^ 46
      → (d.of_nat 0 ≼ percent a b) × (percent a b ≼ d.of_nat 100)
  unfolding percent
  percent_bounds {a} {b} h small =
      let total = delta (total_time a) (total_time b) in
      let active = delta (active_time a) (active_time b) in
      elim (Bool-cases (total == 0)) [
        | inl still ↦
            rw still (ieee.of_nat_mono 0 0 (omega arith), ieee.of_nat_mono 0 100 (omega arith))
        | inr grew ↦
            rw grew (share_bounds active total (ground arith) (delta-active-le-total h) small)
      ]
