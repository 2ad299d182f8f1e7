-- ===== src/Prelude/Double.antt =====
-- `double`, as an interface: the conversions, the operations and the comparisons that the program
-- applies to doubles, and the laws of IEEE 754 arithmetic that proofs about it use.
use Prim.Native.Nat.{ℕ, zero, suc, ◌*◌, ◌/◌, ◌≤◌, ◌<◌, ◌^◌}
use mathlib.Core.Path.{◌≡◌}
use mathlib.Core.Bool.{Bool, true}
use native.Mathlib.Omega.{arith}
use native.Mathlib.Nat.{mul-div_cancel, le-div_iff_mul-le, div-mul-le_self, le_trans}
use system_monitoring_dashbo.Prelude.Text.{Text, Free}
use system_monitoring_dashbo.Prelude.Lists.{replicate}
use system_monitoring_dashbo.Prelude.Tests.{leb}

pub record Double {ℓ} (W : Type ℓ) : Type ℓ where
  -- the conversion from an unsigned integer, and so the literals 0.0, 100.0, 512.0, ...
  pub of_nat : ℕ → W
  pub neg : W → W
  pub mul : W → W → W
  pub div : W → W → W
  pub le : W → W → Bool
  -- `stream << x`, at the default precision of six significant digits
  pub show : W → Text

module _ {ℓ} {W : Type ℓ} ⦃d : Double W⦄ where
  infix 4 ◌≼◌
  abbrev pub ◌≼◌ : (low high : W) → Type 0
  low ≼ high = d.le low high ≡ true

-- Integers below 2 ^ 53 are represented exactly, an exact result is not rounded, and rounding is
-- monotone.
pub record IsIeee {ℓ} (W : Type ℓ) ⦃d : Double W⦄ : Type ℓ where
  pub of_nat_mono : (a b : ℕ) → a ≤ b → d.of_nat a ≼ d.of_nat b
  pub mul_exact : (a b : ℕ) → a * b < 2 ^ 53 → d.mul (d.of_nat a) (d.of_nat b) ≡ d.of_nat (a * b)
  pub div_exact :
      (a b : ℕ) → 0 < b → a * b < 2 ^ 53 → d.div (d.of_nat (a * b)) (d.of_nat b) ≡ d.of_nat a
  pub div_mono :
      (a b c : ℕ)
      → 0 < c
      → a ≤ b
      → d.div (d.of_nat a) (d.of_nat c) ≼ d.div (d.of_nat b) (d.of_nat c)

-- A value that meets the laws: numbers with division rounded down, for the tests.
instance abbrev pub whole_double : Double ℕ
whole_double = record {
  of_nat = λ n. n;
  neg = λ n. n;
  mul = λ a b. a * b;
  div = λ a b. a / b;
  le = leb;
  show = λ n. replicate n b'1';
}

div_le_div : (a b c : ℕ) → 0 < c → a ≤ b → a / c ≤ b / c
div_le_div a b c p h = (le-div_iff_mul-le p).1 (le_trans (div-mul-le_self a c) h)

le→leb : (a b : ℕ) → a ≤ b → leb a b ≡ true
le→leb a b h = ground arith

pub whole_double-IsIeee : IsIeee ℕ
whole_double-IsIeee = record {
  of_nat_mono = λ a b h. ground arith;
  mul_exact = λ a b h. ground arith;
  div_exact = λ a b p h. mul-div_cancel a p;
  div_mono = λ a b c p h. le→leb (a / c) (b / c) (div_le_div a b c p h);
}

-- What it prints holds no line break.
pub whole_double_line : (n : ℕ) → Free b'\n' (replicate n b'1')
whole_double_line zero = tt
whole_double_line (suc n) = (omega arith, whole_double_line n)
