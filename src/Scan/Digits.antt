-- ===== src/Scan/Digits.antt =====
-- Printing a number in decimal, and reading it back.
use system_monitoring_dashbo.Prelude.{
  ℕ, zero, suc, ◌+◌, ◌-◌, ◌*◌, ◌/◌, ◌%◌, ◌≤◌, ◌<◌, ◌≡◌, ◌≢◌, refl, sym, ap, ◌∙◌, [], ◌∷◌, ◌++◌,
  append_assoc, append-nil, arith, All, All-append, Bool, true, false, Option, none, some,
  if◌then◌else◌, ltb, Bool-cases, inl, inr, ltb→lt,
}
use system_monitoring_dashbo.Prelude.Text.{Text, Free}
use system_monitoring_dashbo.Prelude.Int.{ℤ, pos, negsuc, pos_part, neg_part}
use system_monitoring_dashbo.Scan.{
  is_digit, skip_space, read_digits, starts_with_digit, read_sign, read_number, signed, c_str,
  value, judge, strto, show_digits, show_ℕ, show_ℤ,
}

digit-is_digit : (n : ℕ) → n < 10 → is_digit (b'0' + n) ≡ true
digit-is_digit n h = ground arith

read_digits_step :
    (acc d : ℕ) (rest : Text)
    → d < 10
    → read_digits acc ((b'0' + d) ∷ rest) ≡ read_digits (acc * 10 + d) rest
unfolding read_digits
read_digits_step acc d rest h =
    let back : b'0' + d - b'0' ≡ d = omega arith in
    rw (digit-is_digit d h) (ap (λ k. read_digits (acc * 10 + k) rest) back)

show_small : (f n : ℕ) → ltb n 10 ≡ true → show_digits (suc f) n ≡ (b'0' + n) ∷ []
unfolding show_digits
show_small f n h = rw (h, show_digits)

show_big :
    (f n : ℕ)
    → ltb n 10 ≡ false
    → show_digits (suc f) n ≡ show_digits f (n / 10) ++ (b'0' + n % 10) ∷ []
unfolding show_digits
show_big f n h = rw (h, show_digits)

pub read_digits-show_digits :
    (f n : ℕ) (rest : Text) → n < f → read_digits 0 (show_digits f n ++ rest) ≡ read_digits n rest
read_digits-show_digits zero n rest h = absurd (omega arith)
read_digits-show_digits (suc f) n rest h = elim (Bool-cases (ltb n 10)) [
  | inl small ↦
      let same : 0 * 10 + n ≡ n = omega arith in
      rw (show_small f n small)
        (read_digits_step 0 n rest (ltb→lt n 10 small) ∙ ap (λ k. read_digits k rest) same)
  | inr big ↦
      let last = (b'0' + n % 10) ∷ [] in
      let same : n / 10 * 10 + n % 10 ≡ n = omega arith in
      let lower : n / 10 < f = ground arith in
      rw (show_big f n big, append_assoc (show_digits f (n / 10)) last rest)
        (read_digits-show_digits f (n / 10) (last ++ rest) lower
          ∙ read_digits_step (n / 10) (n % 10) rest (omega arith)
          ∙ ap (λ k. read_digits k rest) same)
]

-- All digits, and at least one.
abbrev pub IsDecimal : Text → Type 0
IsDecimal s = (starts_with_digit s ≡ true) × All (λ c. is_digit c ≡ true) s

IsDecimal-concat : (s : Text) (d : ℕ) → IsDecimal s → d < 10 → IsDecimal (s ++ (b'0' + d) ∷ [])
IsDecimal-concat [] d (h, _) p = ground arith
IsDecimal-concat (c ∷ s) d (h, hs) p =
    (h, All-append (λ x. is_digit x ≡ true) (c ∷ s) ((b'0' + d) ∷ []) hs (digit-is_digit d p, tt))

show_digits-IsDecimal : (f n : ℕ) → n < f → IsDecimal (show_digits f n)
show_digits-IsDecimal zero n h = absurd (omega arith)
show_digits-IsDecimal (suc f) n h = elim (Bool-cases (ltb n 10)) [
  | inl small ↦
      let d = digit-is_digit n (ltb→lt n 10 small) in rw (show_small f n small) (d, (d, tt))
  | inr big ↦ rw (show_big f n big) (
      IsDecimal-concat (show_digits f (n / 10)) (n % 10)
        (show_digits-IsDecimal f (n / 10) (ground arith)) (omega arith))
]

pub show_ℕ-IsDecimal : (n : ℕ) → IsDecimal (show_ℕ n)
unfolding show_ℕ
show_ℕ-IsDecimal n = show_digits-IsDecimal (suc n) n (omega arith)

c_str-decimal : (s : Text) → All (λ c. is_digit c ≡ true) s → c_str s ≡ s
unfolding c_str
c_str-decimal [] h = refl
c_str-decimal (c ∷ s) (h, hs) = ground (arith, c_str-decimal s hs)

skip_space-decimal : (s : Text) → starts_with_digit s ≡ true → skip_space s ≡ s
unfolding skip_space
skip_space-decimal [] h = refl
skip_space-decimal (c ∷ s) h = ground arith

read_sign-decimal : (s : Text) → starts_with_digit s ≡ true → read_sign s ≡ (false, s)
read_sign-decimal [] h = refl
read_sign-decimal (c ∷ s) h = ground arith

read_digits-show_ℕ : (n : ℕ) → read_digits 0 (show_ℕ n) ≡ (n, [])
unfolding show_ℕ read_digits
read_digits-show_ℕ n =
    ap (read_digits 0) (sym (append-nil (show_digits (suc n) n)))
    ∙ read_digits-show_digits (suc n) n [] (omega arith)

pub read_number_of :
    (s t rest : Text) (negative : Bool) (n : ℕ)
    → read_sign s ≡ (negative, t)
    → read_digits 0 t ≡ (n, rest)
    → starts_with_digit t ≡ true
    → read_number s ≡ some (negative, n, rest)
unfolding read_number
read_number_of s t rest negative n sign digits starts = ground arith

read_number-show_ℕ : (n : ℕ) → read_number (show_ℕ n) ≡ some (false, n, [])
read_number-show_ℕ n =
    let starts = (show_ℕ-IsDecimal n).0 in
    read_number_of (show_ℕ n) (show_ℕ n) [] false n (read_sign-decimal (show_ℕ n) starts)
      (read_digits-show_ℕ n) starts

read_number-minus : (n : ℕ) → read_number (b'-' ∷ show_ℕ n) ≡ some (true, n, [])
read_number-minus n =
    read_number_of (b'-' ∷ show_ℕ n) (show_ℕ n) [] true n refl (read_digits-show_ℕ n)
      (show_ℕ-IsDecimal n).0

pub strto_of :
    (low high : ℕ) (s t rest : Text) (negative : Bool) (n : ℕ)
    → c_str s ≡ t
    → read_number (skip_space t) ≡ some (negative, n, rest)
    → n ≤ (if negative then low else high)
    → strto low high s ≡ value (signed negative n) rest
unfolding strto
strto_of low high s t rest negative n cut number bound = rw (cut, strto) (rw number (ground arith))

c_str-minus : (s : Text) → c_str (b'-' ∷ s) ≡ b'-' ∷ c_str s
unfolding c_str
c_str-minus s = refl

pub show_ℤ-pos : (n : ℕ) → show_ℤ (pos n) ≡ show_ℕ n
unfolding show_ℤ
show_ℤ-pos n = refl

pub show_ℤ-negsuc : (n : ℕ) → show_ℤ (negsuc n) ≡ b'-' ∷ show_ℕ (suc n)
unfolding show_ℤ
show_ℤ-negsuc n = refl

skip_space-minus : (s : Text) → skip_space (b'-' ∷ s) ≡ b'-' ∷ s
unfolding skip_space
skip_space-minus s = refl

signed_bounds :
    (low high n : ℕ) (negative : Bool)
    → n ≤ (if negative then low else high)
    → (pos_part (signed negative n) ≤ high) × (neg_part (signed negative n) ≤ low)
signed_bounds low high zero true h = omega arith
signed_bounds low high (suc n) true h = omega arith
signed_bounds low high n false h = omega arith

judge_bounds :
    (low high : ℕ) (o : Option (Bool × ℕ × Text)) (z : ℤ) (rest : Text)
    → judge low high o ≡ value z rest
    → (pos_part z ≤ high) × (neg_part z ≤ low)
judge_bounds low high none z rest h = cc
judge_bounds low high (some (negative, n, t)) z rest h =
    ground (arith, signed_bounds low high n negative)

-- What `strto` returns is within the bounds.
pub strto_bounds :
    (low high : ℕ) (s rest : Text) (z : ℤ)
    → strto low high s ≡ value z rest
    → (pos_part z ≤ high) × (neg_part z ≤ low)
unfolding strto
strto_bounds low high s rest z h =
    judge_bounds low high (read_number (skip_space (c_str s))) z rest h

-- `strtoll` reads a printed number back, if it is within the bounds.
pub strto-show_ℤ :
    (low high : ℕ) (z : ℤ)
    → pos_part z ≤ high
    → neg_part z ≤ low
    → strto low high (show_ℤ z) ≡ value z []
strto-show_ℤ low high (pos n) h l =
    let (starts, digits) = show_ℕ-IsDecimal n in
    rw (show_ℤ-pos n) (
      strto_of low high (show_ℕ n) (show_ℕ n) [] false n (c_str-decimal (show_ℕ n) digits)
        (ap read_number (skip_space-decimal (show_ℕ n) starts) ∙ read_number-show_ℕ n) h)
strto-show_ℤ low high (negsuc n) h l =
    let (starts, digits) = show_ℕ-IsDecimal (suc n) in
    let printed = show_ℕ (suc n) in
    rw (show_ℤ-negsuc n) (
      strto_of low high (b'-' ∷ printed) (b'-' ∷ printed) [] true (suc n)
        (c_str-minus printed ∙ ap (λ (t : Text). b'-' ∷ t) (c_str-decimal printed digits))
        (ap read_number (skip_space-minus printed) ∙ read_number-minus (suc n)) l)

digits-Free : (c : ℕ) (s : Text) → is_digit c ≡ false → All (λ x. is_digit x ≡ true) s → Free c s
digits-Free c [] h d = tt
digits-Free c (x ∷ s) h (d, ds) = (λ e. cc, digits-Free c s h ds)

-- A printed number holds digits and `-` alone.
pub show_ℤ-Free : (c : ℕ) (z : ℤ) → is_digit c ≡ false → c ≢ b'-' → Free c (show_ℤ z)
show_ℤ-Free c (pos n) h m = rw (show_ℤ-pos n) (digits-Free c (show_ℕ n) h (show_ℕ-IsDecimal n).1)
show_ℤ-Free c (negsuc n) h m =
    rw (show_ℤ-negsuc n)
      (λ e. m (sym e), digits-Free c (show_ℕ (suc n)) h (show_ℕ-IsDecimal (suc n)).1)
