-- ===== src/Prelude/Text.antt =====
-- Byte strings: `std::string` as the list of its bytes, with equality and the search functions of
-- the standard library that the program calls.
use Prim.Native.Char.{code}
use Prim.Native.String.{String}
use Prim.Native.Nat.{ℕ}
use mathlib.Core.Path.{◌≡◌, refl}
use mathlib.Core.Logic.{◌↔◌, ◌≢◌, inl, inr}
use mathlib.Core.Bool.{Bool, true, false, ◌&&◌}
use mathlib.Core.List.{List, [], ◌∷◌, ◌++◌}
use mathlib.Core.Option.{Option, none, some}
use native.Mathlib.Omega.{arith}
use system_monitoring_dashbo.Prelude.Tests.{◌==◌, if◌then◌else◌, Option-cases}

abbrev pub Text : Type 0
Text = List ℕ

-- A literal of the source: its bytes, for ASCII.
abbrev pub codes : String → Text
codes String.[] = []
codes (String.◌∷◌ c s) = code c ∷ codes s

abbrev pub text_eq : Text → Text → Bool
text_eq [] [] = true
text_eq (a ∷ s) (b ∷ t) = a == b && text_eq s t
text_eq _ _ = false

pub text_eq→eq : (s t : Text) → text_eq s t ≡ true → s ≡ t
text_eq→eq [] [] h = refl
text_eq→eq [] (b ∷ t) h = ground arith
text_eq→eq (a ∷ s) [] h = ground arith
text_eq→eq (a ∷ s) (b ∷ t) h = ground (arith, text_eq→eq s t)

pub text_eq_self : (s : Text) → text_eq s s ≡ true
text_eq_self [] = refl
text_eq_self (a ∷ s) = ground (arith, text_eq_self s)

pub text_eq_iff : (s t : Text) → (text_eq s t ≡ true) ↔ (s ≡ t)
text_eq_iff s t = (text_eq→eq s t, λ e. ground (arith, text_eq_self s))

-- `s.empty()`
abbrev pub is_nil : Text → Bool
is_nil [] = true
is_nil (_ ∷ _) = false

-- `s.find(c)` splits `s`: what stands before the first `c`, and what stands behind it. `none` is
-- `npos`.
abbrev pub split_at : ℕ → Text → Option (Text × Text)
split_at c [] = none
split_at c (x ∷ s) =
    if x == c
    then some ([], s)
    else elim (split_at c s) [ none ↦ none | some (before, after) ↦ some (x ∷ before, after) ]

-- `s.rfind(p, 0) == 0`: `s` begins with `p`.
abbrev pub starts_with : Text → Text → Bool
starts_with [] s = true
starts_with (a ∷ p) [] = false
starts_with (a ∷ p) (b ∷ s) = a == b && starts_with p s

-- `s.find(p) != npos`
abbrev pub contains : Text → Text → Bool
contains p [] = starts_with p []
contains p (b ∷ s) = if starts_with p (b ∷ s) then true else contains p s

-- The byte does not occur.
abbrev pub Free : ℕ → Text → Type 0
Free c [] = Unit
Free c (x ∷ s) = (x ≢ c) × Free c s

pub Free-append : (c : ℕ) (s t : Text) → Free c s → Free c t → Free c (s ++ t)
Free-append c [] t hs ht = ht
Free-append c (x ∷ s) t (hx, hs) ht = (hx, Free-append c s t hs ht)

pub split_at-none : (c : ℕ) (s : Text) → Free c s → split_at c s ≡ none
split_at-none c [] h = refl
split_at-none c (x ∷ s) (hx, hs) = ground (arith, split_at-none c s hs)

-- The first occurrence is found.
pub split_at_first : (c : ℕ) (s t : Text) → Free c s → split_at c (s ++ c ∷ t) ≡ some (s, t)
split_at_first c [] t h = ground arith
split_at_first c (x ∷ s) t (hx, hs) = ground (arith, split_at_first c s t hs)

-- What stands before the first occurrence does not hold the byte, and nothing else is lost.
pub split_at-Free :
    (c : ℕ) (s before after : Text)
    → split_at c s ≡ some (before, after)
    → Free c before × (s ≡ before ++ c ∷ after)
split_at-Free c [] before after h = ground arith
split_at-Free c (x ∷ s) before after h = elim (Option-cases (split_at c s)) [
  | inl absent ↦ ground arith
  | inr ((before', after'), found) ↦ ground (arith, split_at-Free c s before' after' found)
]

pub split_at-Free_behind :
    (c d : ℕ) (s before after : Text)
    → Free d s
    → split_at c s ≡ some (before, after)
    → Free d before × Free d after
split_at-Free_behind c d [] before after f h = ground arith
split_at-Free_behind c d (x ∷ s) before after (fx, f) h = elim (Option-cases (split_at c s)) [
  | inl absent ↦ ground arith
  | inr ((before', after'), found) ↦
      ground (arith, split_at-Free_behind c d s before' after' f found)
]
