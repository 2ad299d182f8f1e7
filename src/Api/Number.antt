-- ===== src/Api/Number.antt =====
-- `parse_int64`: what it returns is in range, and every printed 64-bit number is read back.
use system_monitoring_dashbo.Prelude.{
  ◌-◌, ◌^◌, ◌≤◌, ◌≡◌, refl, [], ◌∷◌, arith, true, false, some, Bool-cases, inl, inr,
}
use system_monitoring_dashbo.Prelude.Text.{Text, is_nil}
use system_monitoring_dashbo.Prelude.Int.{ℤ, pos, negsuc, pos_part, neg_part}
use system_monitoring_dashbo.Scan.{
  Scanned, no_digits, out_of_range, value, strto, show_ℤ, starts_with_digit, show_ℕ,
}
use system_monitoring_dashbo.Scan.Digits.{strto-show_ℤ, strto_bounds, show_ℕ-IsDecimal}
use system_monitoring_dashbo.Api.{parse_int64, whole}

-- What is read is a 64-bit signed number.
abbrev pub IsInt64 : ℤ → Type 0
IsInt64 z = (pos_part z ≤ 2 ^ 63 - 1) × (neg_part z ≤ 2 ^ 63)

is_nil_of_digit : (s : Text) → starts_with_digit s ≡ true → is_nil s ≡ false
is_nil_of_digit [] h = cc
is_nil_of_digit (c ∷ s) h = refl

pub is_nil-show_ℤ : (z : ℤ) → is_nil (show_ℤ z) ≡ false
unfolding show_ℤ
is_nil-show_ℤ (pos n) = is_nil_of_digit (show_ℕ n) (show_ℕ-IsDecimal n).0
is_nil-show_ℤ (negsuc n) = refl

-- Every 64-bit number that is printed in decimal is read back.
pub parse_int64-show_ℤ : (z : ℤ) → IsInt64 z → parse_int64 (show_ℤ z) ≡ some z
unfolding parse_int64
parse_int64-show_ℤ z (h, l) = rw (is_nil-show_ℤ z, strto-show_ℤ (2 ^ 63) (2 ^ 63 - 1) z h l)

whole-some : (r : Scanned) (z : ℤ) → whole r ≡ some z → r ≡ value z []
whole-some no_digits z h = cc
whole-some out_of_range z h = cc
whole-some (value y []) z h = cc
whole-some (value y (c ∷ rest)) z h = cc

-- Whatever text it accepts, `parse_int64` returns a 64-bit number.
parse_int64-IsInt64 : (s : Text) (z : ℤ) → parse_int64 s ≡ some z → IsInt64 z
unfolding parse_int64
parse_int64-IsInt64 s z h = elim (Bool-cases (is_nil s)) [
  | inl empty ↦ cc (empty)
  | inr full ↦
      let scanned = whole-some (strto (2 ^ 63) (2 ^ 63 - 1) s) z (ground arith) in
      strto_bounds (2 ^ 63) (2 ^ 63 - 1) s [] z scanned
]
