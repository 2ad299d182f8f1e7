-- ===== src/Scan.antt =====
-- The parts of the C++ standard library by which the program reads text: `std::getline`, the `>>`
-- operators of `std::istringstream` and `std::ifstream`, `strtoll`, and decimal printing.
pub mod Lines
pub mod Digits
pub mod Stream
use system_monitoring_dashbo.Prelude.{
  ℕ, zero, suc, ◌+◌, ◌-◌, ◌*◌, ◌/◌, ◌%◌, ◌^◌, Bool, true, false, ◌&&◌, ◌||◌, not, Option, none,
  some, List, [], ◌∷◌, ◌++◌, ltb, leb, ◌==◌, if◌then◌else◌,
}
use system_monitoring_dashbo.Prelude.Text.{Text}
use system_monitoring_dashbo.Prelude.Int.{ℤ, pos, negsuc}

-- `isspace` of the C locale
abbrev pub is_space : ℕ → Bool
is_space c = c == 32 || (leb 9 c && leb c 13)

-- `isdigit`
abbrev pub is_digit : ℕ → Bool
is_digit c = leb b'0' c && leb c b'9'

abbrev add_first : ℕ → List Text → List Text
add_first x [] = (x ∷ []) ∷ []
add_first x (t ∷ ts) = (x ∷ t) ∷ ts

-- All that `while (std::getline(stream, token, c))` yields: nothing stands behind the last `c`.
unfoldable pub tokens : ℕ → Text → List Text
tokens c [] = []
tokens c (x ∷ s) = if x == c then [] ∷ tokens c s else add_first x (tokens c s)

unfoldable pub skip_space : Text → Text
skip_space [] = []
skip_space (c ∷ s) = if is_space c then skip_space s else c ∷ s

-- The digits in front, as a number, and the rest.
unfoldable pub read_digits : ℕ → Text → ℕ × Text
read_digits acc [] = (acc, [])
read_digits acc (c ∷ s) = if is_digit c then read_digits (acc * 10 + (c - b'0')) s else (acc, c ∷ s)

abbrev pub starts_with_digit : Text → Bool
starts_with_digit [] = false
starts_with_digit (c ∷ s) = is_digit c

-- An optional sign: whether it is `-`, and the rest.
abbrev pub read_sign : Text → Bool × Text
read_sign [] = (false, [])
read_sign (c ∷ s) =
    if c == b'-' then (true, s) else if c == b'+' then (false, s) else (false, c ∷ s)

-- A sign and digits: whether it is negative, the magnitude, the rest. `none` if no digit is there.
unfoldable pub read_number : Text → Option (Bool × ℕ × Text)
unfolding read_digits
read_number s =
    let (negative, t) = read_sign s in
    let (n, rest) = read_digits 0 t in
    if starts_with_digit t then some (negative, n, rest) else none

abbrev pub signed : Bool → ℕ → ℤ
signed true zero = pos 0
signed true (suc n) = negsuc n
signed false n = pos n

-- The bytes in front of the first NUL, `c_str()` as the C library reads it.
unfoldable pub c_str : Text → Text
c_str [] = []
c_str (c ∷ s) = if c == 0 then [] else c ∷ c_str s

-- What `strtoll` and `strtol` do with base 10: no digits, out of range, or a value with the text
-- at `end`. `low` and `high` are the magnitudes of the type's bounds.
pub data Scanned : Type 0 where
  no_digits : Scanned
  out_of_range : Scanned
  value : ℤ → Text → Scanned

abbrev pub judge : ℕ → ℕ → Option (Bool × ℕ × Text) → Scanned
judge low high none = no_digits
judge low high (some (negative, n, rest)) =
    if leb n (if negative then low else high) then value (signed negative n) rest else out_of_range

unfoldable pub strto : ℕ → ℕ → Text → Scanned
unfolding skip_space read_number c_str
strto low high s = judge low high (read_number (skip_space (c_str s)))

-- Decimal digits of a number, on fuel: a number is fuel enough for itself.
unfoldable pub show_digits : ℕ → ℕ → Text
show_digits zero n = []
show_digits (suc f) n = elim (ltb n 10) [
  | true ↦ (b'0' + n) ∷ []
  | false ↦ show_digits f (n / 10) ++ (b'0' + n % 10) ∷ []
]

-- `std::to_string`, `<<` of an integer.
unfoldable pub show_ℕ : ℕ → Text
unfolding show_digits
show_ℕ n = show_digits (suc n) n

unfoldable pub show_ℤ : ℤ → Text
unfolding show_ℕ
show_ℤ (pos n) = show_ℕ n
show_ℤ (negsuc n) = b'-' ∷ show_ℕ (suc n)

-- An input stream: what is left, and whether no extraction has failed.
pub record In : Type 0 where
  pub rest : Text
  pub good : Bool

abbrev pub open_text : Text → In
open_text s = record { rest = s; good = true }

abbrev failed : Text → In
failed s = record { rest = s; good = false }

-- `stream >> x` from what `take` reads of a text: white space is skipped, and at the end of the
-- stream, or if it failed before, `x` keeps its value.
abbrev pub taken : {A : Type 0} → (Text → A × In) → A → Text → A × In
taken take old [] = (old, failed [])
taken take old (c ∷ s) = take (c ∷ s)

unfoldable pub extract_with : {A : Type 0} → (Text → A × In) → A → In → A × In
unfolding skip_space
extract_with take old i = elim i.good [
  | false ↦ (old, i)
  | true ↦ taken take old (skip_space i.rest)
]

-- The value that `>>` stores into an unsigned type of `2 ^ w` values: a negative number wraps, and
-- an overflow stores the largest value and fails.
abbrev pub stored_unsigned : ℕ → Option (Bool × ℕ × Text) → ℕ × In
stored_unsigned size none = (0, failed [])
stored_unsigned size (some (negative, n, rest)) =
    if ltb n size
    then (if negative then (size - n) % size else n, open_text rest)
    else (size - 1, failed rest)

-- `stream >> x` at a `uint64_t`
unfoldable pub extract_u64 : ℕ → In → ℕ × In
unfolding extract_with read_number
extract_u64 = extract_with (λ s. stored_unsigned (2 ^ 64) (read_number s))

-- `stream >> x` at an `unsigned` of 32 bits
unfoldable pub extract_u32 : ℕ → In → ℕ × In
unfolding extract_with read_number
extract_u32 = extract_with (λ s. stored_unsigned (2 ^ 32) (read_number s))

-- The value that `>>` stores into an `int`: an overflow stores the nearest value and fails.
abbrev pub stored_int : Option (Bool × ℕ × Text) → ℤ × In
stored_int none = (pos 0, failed [])
stored_int (some (negative, n, rest)) =
    let bound = if negative then 2 ^ 31 else 2 ^ 31 - 1 in
    if leb n bound
    then (signed negative n, open_text rest)
    else (signed negative bound, failed rest)

-- `stream >> x` at an `int`
unfoldable pub extract_int : ℤ → In → ℤ × In
unfolding extract_with read_number
extract_int = extract_with (λ s. stored_int (read_number s))

-- `stream >> c` at a `char`
abbrev take_char : Text → ℕ × In
take_char [] = (0, failed [])
take_char (c ∷ s) = (c, open_text s)

unfoldable pub extract_char : ℕ → In → ℕ × In
unfolding extract_with
extract_char = extract_with take_char

-- The bytes up to the next white space, and the rest.
unfoldable pub word : Text → Text × Text
word [] = ([], [])
word (c ∷ s) = let (w, rest) = word s in if is_space c then ([], c ∷ s) else (c ∷ w, rest)

abbrev pub take_word : Text → Text × In
take_word s = let (w, rest) = word s in (w, open_text rest)

-- `stream >> s` at a `std::string`
unfoldable pub extract_word : Text → In → Text × In
unfolding extract_with word
extract_word = extract_with take_word
