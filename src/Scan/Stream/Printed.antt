-- ===== src/Scan/Stream/Printed.antt =====
-- Fields printed one behind the other, a space in front of each, and read back by `>>`.
use system_monitoring_dashbo.Prelude.{
  ℕ, suc, ◌^◌, ◌≤◌, ◌<◌, ◌≡◌, ◌≢◌, refl, sym, ap, ◌∙◌, Bool, true, false, some, List, [], ◌∷◌, ◌++◌,
  arith,
}
use system_monitoring_dashbo.Prelude.Int.{ℤ, pos, negsuc, pos_part, neg_part}
use system_monitoring_dashbo.Prelude.Text.{Text, Free, Free-append}
use system_monitoring_dashbo.Scan.{
  In, open_text, is_space, is_digit, skip_space, read_digits, read_sign, read_number,
  starts_with_digit, extract_with, stored_unsigned, stored_int, extract_u64, extract_int, show_ℕ,
  show_ℤ,
}
use system_monitoring_dashbo.Scan.Digits.{
  read_digits-show_digits, read_number_of, show_ℤ-pos, show_ℤ-negsuc, show_ℕ-IsDecimal, show_ℤ-Free,
}

abbrev pub print_fields : List ℤ → Text → Text
print_fields [] rest = rest
print_fields (z ∷ zs) rest = b' ' ∷ (show_ℤ z ++ print_fields zs rest)

-- Nothing that could be read as one more digit.
abbrev pub Ends : Text → Type 0
Ends rest = starts_with_digit rest ≡ false

pub print_fields-Ends : (zs : List ℤ) (rest : Text) → Ends rest → Ends (print_fields zs rest)
print_fields-Ends [] rest h = h
print_fields-Ends (z ∷ zs) rest h = refl

pub print_fields-Free :
    (c : ℕ) (zs : List ℤ) (rest : Text)
    → is_digit c ≡ false
    → c ≢ b'-'
    → c ≢ b' '
    → Free c rest
    → Free c (print_fields zs rest)
print_fields-Free c [] rest d m s h = h
print_fields-Free c (z ∷ zs) rest d m s h = (
  λ e. s (sym e),
  Free-append c (show_ℤ z) (print_fields zs rest) (show_ℤ-Free c z d m)
      (print_fields-Free c zs rest d m s h),
)

read_digits-Ends : (n : ℕ) (rest : Text) → Ends rest → read_digits n rest ≡ (n, rest)
unfolding read_digits
read_digits-Ends n [] h = refl
read_digits-Ends n (c ∷ rest) h = rw (h, read_digits) refl

read_digits-show_ℕ_rest :
    (n : ℕ) (rest : Text) → Ends rest → read_digits 0 (show_ℕ n ++ rest) ≡ (n, rest)
unfolding show_ℕ
read_digits-show_ℕ_rest n rest h =
    read_digits-show_digits (suc n) n rest (omega arith) ∙ read_digits-Ends n rest h

starts-append : (s rest : Text) → starts_with_digit s ≡ true → starts_with_digit (s ++ rest) ≡ true
starts-append [] rest h = absurd (cc)
starts-append (c ∷ s) rest h = h

sign-digit : (s : Text) → starts_with_digit s ≡ true → read_sign s ≡ (false, s)
sign-digit [] h = absurd (cc)
sign-digit (c ∷ s) h = ground arith

abbrev is_negative : ℤ → Bool
is_negative (pos n) = false
is_negative (negsuc n) = true

abbrev magnitude : ℤ → ℕ
magnitude (pos n) = n
magnitude (negsuc n) = suc n

-- A printed number is read back, and what stands behind it is left.
pub read_number-show_ℤ :
    (z : ℤ) (rest : Text)
    → Ends rest
    → read_number (show_ℤ z ++ rest) ≡ some (is_negative z, magnitude z, rest)
read_number-show_ℤ (pos n) rest h =
    let starts = starts-append (show_ℕ n) rest (show_ℕ-IsDecimal n).0 in
    rw (show_ℤ-pos n) (
      read_number_of (show_ℕ n ++ rest) (show_ℕ n ++ rest) rest false n
        (sign-digit (show_ℕ n ++ rest) starts) (read_digits-show_ℕ_rest n rest h) starts)
read_number-show_ℤ (negsuc n) rest h =
    let starts = starts-append (show_ℕ (suc n)) rest (show_ℕ-IsDecimal (suc n)).0 in
    rw (show_ℤ-negsuc n) (
      read_number_of (b'-' ∷ (show_ℕ (suc n) ++ rest)) (show_ℕ (suc n) ++ rest) rest true (suc n)
        refl (read_digits-show_ℕ_rest (suc n) rest h) starts)

-- A text that white space does not begin.
abbrev Visible : Text → Type 0
Visible [] = ⊥
Visible (c ∷ s) = is_space c ≡ false

digit-Visible : (s rest : Text) → starts_with_digit s ≡ true → Visible (s ++ rest)
digit-Visible [] rest h = absurd (cc)
digit-Visible (c ∷ s) rest h = ground arith

show_ℤ-Visible : (z : ℤ) (rest : Text) → Visible (show_ℤ z ++ rest)
show_ℤ-Visible (pos n) rest =
    rw (show_ℤ-pos n) (digit-Visible (show_ℕ n) rest (show_ℕ-IsDecimal n).0)
show_ℤ-Visible (negsuc n) rest = rw (show_ℤ-negsuc n) refl

-- An extraction behind one space.
extract_with-space :
    {A : Type 0} (take : Text → A × In) (old : A) (s : Text)
    → Visible s
    → extract_with take old (open_text (b' ' ∷ s)) ≡ take s
unfolding extract_with skip_space
extract_with-space take old [] v = absurd v
extract_with-space take old (c ∷ s) v = rw (v, skip_space) refl

abbrev pub IsU64 : ℤ → Type 0
IsU64 z = (pos_part z < 2 ^ 64) × (neg_part z < 2 ^ 64)

abbrev pub IsInt32 : ℤ → Type 0
IsInt32 z = (pos_part z < 2 ^ 31) × (neg_part z ≤ 2 ^ 31)

stored_u64-fits :
    (n : ℕ) (rest : Text)
    → n < 2 ^ 64
    → stored_unsigned (2 ^ 64) (some (false, n, rest)) ≡ (n, open_text rest)
stored_u64-fits n rest h = ground arith

stored_u64-rest :
    (z : ℤ) (rest : Text)
    → IsU64 z
    → (stored_unsigned (2 ^ 64) (some (is_negative z, magnitude z, rest))).1 ≡ open_text rest
stored_u64-rest (pos n) rest (h, _) = ground arith
stored_u64-rest (negsuc n) rest (_, h) = ground arith

stored_int-fits :
    (z : ℤ) (rest : Text)
    → IsInt32 z
    → stored_int (some (is_negative z, magnitude z, rest)) ≡ (z, open_text rest)
stored_int-fits (pos n) rest (h, _) = ground arith
stored_int-fits (negsuc n) rest (_, h) = ground arith

-- The stream behind a field that is read as a `uint64_t`; the value may have wrapped.
pub extract_u64-skip :
    (old : ℕ) (z : ℤ) (rest : Text)
    → IsU64 z
    → Ends rest
    → (extract_u64 old (open_text (b' ' ∷ (show_ℤ z ++ rest)))).1 ≡ open_text rest
unfolding extract_u64
extract_u64-skip old z rest h e =
    ap (λ (r : ℕ × In). r.1)
      (extract_with-space (λ s. stored_unsigned (2 ^ 64) (read_number s)) old (show_ℤ z ++ rest)
        (show_ℤ-Visible z rest))
    ∙ ap (λ o. (stored_unsigned (2 ^ 64) o).1) (read_number-show_ℤ z rest e)
    ∙ stored_u64-rest z rest h

pub extract_u64-field :
    (old n : ℕ) (rest : Text)
    → n < 2 ^ 64
    → Ends rest
    → extract_u64 old (open_text (b' ' ∷ (show_ℤ (pos n) ++ rest))) ≡ (n, open_text rest)
unfolding extract_u64
extract_u64-field old n rest h e =
    extract_with-space (λ s. stored_unsigned (2 ^ 64) (read_number s)) old (show_ℤ (pos n) ++ rest)
      (show_ℤ-Visible (pos n) rest)
    ∙ ap (stored_unsigned (2 ^ 64)) (read_number-show_ℤ (pos n) rest e)
    ∙ stored_u64-fits n rest h

pub extract_int-field :
    (old z : ℤ) (rest : Text)
    → IsInt32 z
    → Ends rest
    → extract_int old (open_text (b' ' ∷ (show_ℤ z ++ rest))) ≡ (z, open_text rest)
unfolding extract_int
extract_int-field old z rest h e =
    extract_with-space (λ s. stored_int (read_number s)) old (show_ℤ z ++ rest)
      (show_ℤ-Visible z rest)
    ∙ ap stored_int (read_number-show_ℤ z rest e)
    ∙ stored_int-fits z rest h
