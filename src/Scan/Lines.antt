-- ===== src/Scan/Lines.antt =====
-- Splitting at a byte: `std::getline` with a delimiter.
use system_monitoring_dashbo.Prelude.{ℕ, ◌≡◌, ◌≢◌, List, [], ◌∷◌, ◌++◌, arith, All}
use system_monitoring_dashbo.Prelude.Text.{Text, Free}
use system_monitoring_dashbo.Scan.{tokens, add_first}

-- A token that a delimiter ends is split off.
pub tokens_first : (c : ℕ) (t s : Text) → Free c t → tokens c (t ++ c ∷ s) ≡ t ∷ tokens c s
unfolding tokens
tokens_first c [] s h = ground arith
tokens_first c (x ∷ t) s (hx, h) = ground (arith, tokens_first c t s h)

-- The last token needs no delimiter, but a byte.
pub tokens_last : (c x : ℕ) (t : Text) → Free c (x ∷ t) → tokens c (x ∷ t) ≡ (x ∷ t) ∷ []
unfolding tokens
tokens_last c x [] (hx, h) = ground arith
tokens_last c x (y ∷ t) (hx, h) = ground (arith, tokens_last c y t h)

add_first-Free :
    (c x : ℕ) (ts : List Text) → x ≢ c → All (Free c) ts → All (Free c) (add_first x ts)
add_first-Free c x [] p h = ((p, tt), tt)
add_first-Free c x (t ∷ ts) p (h, hs) = ((p, h), hs)

-- No token holds the delimiter.
pub tokens-Free : (c : ℕ) (s : Text) → All (Free c) (tokens c s)
unfolding tokens
tokens-Free c [] = tt
tokens-Free c (x ∷ s) = ground (arith, tokens-Free c s, add_first-Free c x (tokens c s))
