-- ===== src/Scan/Stream/Sizes.antt =====
-- Extractions never lengthen what is left of a stream, and a word or a number is a byte at least.
use system_monitoring_dashbo.Prelude.{
  ℕ, ◌+◌, ◌-◌, ◌*◌, ◌^◌, ◌≤◌, ◌<◌, ◌≡◌, refl, ap, Bool, true, false, Option, none, some, [], ◌∷◌,
  length, arith, Bool-cases, inl, inr,
}
use native.Mathlib.Nat.{le_trans}
use system_monitoring_dashbo.Prelude.Text.{Text}
use system_monitoring_dashbo.Scan.{
  In, open_text, is_space, skip_space, read_digits, read_sign, read_number, starts_with_digit,
  extract_with, taken, stored_unsigned, extract_u64, extract_u32, take_word, word, extract_word,
}
use system_monitoring_dashbo.Scan.Stream.{skip_line, get_line}

pub length-skip_space : (s : Text) → length (skip_space s) ≤ length s
unfolding skip_space
length-skip_space [] = omega arith
length-skip_space (c ∷ s) = ground (arith, length-skip_space s)

length-skip_line : (s : Text) → length (skip_line s) ≤ length s
unfolding skip_line
length-skip_line [] = omega arith
length-skip_line (c ∷ s) = ground (arith, length-skip_line s)

length-read_digits : (acc : ℕ) (s : Text) → length (read_digits acc s).1 ≤ length s
unfolding read_digits
length-read_digits acc [] = omega arith
length-read_digits acc (c ∷ s) = ground (arith, length-read_digits (acc * 10 + (c - b'0')) s)

length-word : (s : Text) → length (word s).1 ≤ length s
unfolding word
length-word [] = omega arith
length-word (c ∷ s) = ground (arith, length-word s)

skip_space-starts : (s t : Text) (c : ℕ) → skip_space s ≡ c ∷ t → is_space c ≡ false
unfolding skip_space
skip_space-starts [] t c e = absurd (cc)
skip_space-starts (x ∷ s) t c e = elim (Bool-cases (is_space x)) [
  | inl space ↦ skip_space-starts s t c (ground (arith, e, space))
  | inr other ↦ ground (arith, e, other)
]

module _ {A : Type 0} (take : Text → A × In) (old : A) where
  length-taken :
      ((s : Text) → length ((take s).1).rest ≤ length s)
      → (t : Text) → length ((taken take old t).1).rest ≤ length t
  length-taken shorter [] = omega arith
  length-taken shorter (c ∷ s) = shorter (c ∷ s)

  -- An extraction leaves no more than it found, if what it takes of a text does.
  length-extract_with :
      (i : In)
      → ((s : Text) → length ((take s).1).rest ≤ length s)
      → length ((extract_with take old i).1).rest ≤ length i.rest
  unfolding extract_with
  length-extract_with i shorter = elim (Bool-cases i.good) [
    | inl good ↦
        let less = length-taken shorter (skip_space i.rest) in
        let skipped = length-skip_space i.rest in rw (good, extract_with) (le_trans less skipped)
    | inr bad ↦ rw (bad, extract_with) (omega arith)
  ]

length-read_sign : (s : Text) → length (read_sign s).1 ≤ length s
length-read_sign [] = omega arith
length-read_sign (c ∷ s) = ground arith

-- The rest of a number is no longer than the text.
abbrev RestWithin : ℕ → Option (Bool × ℕ × Text) → Type 0
RestWithin n none = Unit
RestWithin n (some (_, _, rest)) = length rest ≤ n

read_number-RestWithin : (s : Text) → RestWithin (length s) (read_number s)
unfolding read_number
read_number-RestWithin s = elim (Bool-cases (starts_with_digit (read_sign s).1)) [
  | inl digits ↦
      rw (digits, read_number)
        (le_trans (length-read_digits 0 (read_sign s).1) (length-read_sign s))
  | inr other ↦ rw (other, read_number) tt
]

length-stored_unsigned :
    (size n : ℕ) (o : Option (Bool × ℕ × Text))
    → RestWithin n o
    → length ((stored_unsigned size o).1).rest ≤ n
length-stored_unsigned size n none h = omega arith
length-stored_unsigned size n (some (negative, m, rest)) h = ground arith

pub length-extract_u64 : (old : ℕ) (i : In) → length ((extract_u64 old i).1).rest ≤ length i.rest
unfolding extract_u64
length-extract_u64 old i =
    length-extract_with (λ s. stored_unsigned (2 ^ 64) (read_number s)) old i
      (λ s. length-stored_unsigned (2 ^ 64) (length s) (read_number s) (read_number-RestWithin s))

pub length-extract_u32 : (old : ℕ) (i : In) → length ((extract_u32 old i).1).rest ≤ length i.rest
unfolding extract_u32
length-extract_u32 old i =
    length-extract_with (λ s. stored_unsigned (2 ^ 32) (read_number s)) old i
      (λ s. length-stored_unsigned (2 ^ 32) (length s) (read_number s) (read_number-RestWithin s))

length-get_line_of : (s : Text) → length (get_line (open_text s)).rest ≤ length s
unfolding get_line
length-get_line_of [] = omega arith
length-get_line_of (c ∷ s) = length-skip_line (c ∷ s)

pub length-get_line : (i : In) → length (get_line i).rest ≤ length i.rest
unfolding get_line
length-get_line i = elim (Bool-cases i.good) [
  | inl good ↦ rw good (length-get_line_of i.rest)
  | inr bad ↦ rw bad (omega arith)
]

length-word_start :
    (old s t : Text)
    → skip_space s ≡ t
    → ((taken take_word old t).1).good ≡ true
    → length ((taken take_word old t).1).rest < length s
unfolding word
length-word_start old s [] e good = absurd (cc)
length-word_start old s (c ∷ t) e good =
    let start = skip_space-starts s t c e in
    rw start (omega (arith, length-word t, length-skip_space s, ap length e))

-- A word that is read shortens the stream.
pub length-extract_word :
    (old : Text) (i : In)
    → ((extract_word old i).1).good ≡ true
    → length ((extract_word old i).1).rest < length i.rest
unfolding extract_word extract_with
length-extract_word old i good = elim (Bool-cases i.good) [
  | inl fine ↦
      let read = rw (fine, extract_with) at good in
      rw (fine, extract_with) (length-word_start old i.rest (skip_space i.rest) refl read)
  | inr shut ↦ absurd (let read = rw (shut, extract_with) at good in cc)
]

-- A stream that has failed stays as it is.
pub extract_u64-failed : (old : ℕ) (i : In) → i.good ≡ false → ((extract_u64 old i).1).good ≡ false
unfolding extract_u64 extract_with
extract_u64-failed old i h = rw (h, extract_with) h

read_digits-first :
    (acc : ℕ) (s : Text) → starts_with_digit s ≡ true → length (read_digits acc s).1 < length s
unfolding read_digits
read_digits-first acc [] h = absurd (cc)
read_digits-first acc (c ∷ s) h = rw h (omega (arith, length-read_digits (acc * 10 + (c - b'0')) s))

-- A number is a byte at least.
abbrev RestBelow : ℕ → Option (Bool × ℕ × Text) → Type 0
RestBelow n none = Unit
RestBelow n (some (_, _, rest)) = length rest < n

read_number-RestBelow : (s : Text) → RestBelow (length s) (read_number s)
unfolding read_number
read_number-RestBelow s = elim (Bool-cases (starts_with_digit (read_sign s).1)) [
  | inl digits ↦
      rw (digits, read_number)
        (omega (arith, read_digits-first 0 (read_sign s).1 digits, length-read_sign s))
  | inr other ↦ rw (other, read_number) tt
]

stored_unsigned-shrinks :
    (size n : ℕ) (o : Option (Bool × ℕ × Text))
    → RestBelow n o
    → ((stored_unsigned size o).1).good ≡ true
    → length ((stored_unsigned size o).1).rest < n
stored_unsigned-shrinks size n none h good = absurd (cc)
stored_unsigned-shrinks size n (some (negative, m, rest)) h good = ground arith

taken_u64-shrinks :
    (old : ℕ) (t : Text)
    → ((taken (λ s. stored_unsigned (2 ^ 64) (read_number s)) old t).1).good ≡ true
    → length ((taken (λ s. stored_unsigned (2 ^ 64) (read_number s)) old t).1).rest < length t
taken_u64-shrinks old [] good = absurd (cc)
taken_u64-shrinks old (c ∷ t) good =
    stored_unsigned-shrinks (2 ^ 64) (length (c ∷ t)) (read_number (c ∷ t))
      (read_number-RestBelow (c ∷ t)) good

-- A number that is read shortens the stream.
pub extract_u64-shrinks :
    (old : ℕ) (i : In)
    → ((extract_u64 old i).1).good ≡ true
    → length ((extract_u64 old i).1).rest < length i.rest
unfolding extract_u64 extract_with
extract_u64-shrinks old i good = elim (Bool-cases i.good) [
  | inl fine ↦
      let read = rw (fine, extract_with) at good in
      let skipped = length-skip_space i.rest in
      rw (fine, extract_with) (omega (arith, taken_u64-shrinks old (skip_space i.rest) read))
  | inr shut ↦ absurd (let read = rw (shut, extract_with) at good in cc)
]
