-- ===== src/Scan/Stream/Loop.antt =====
-- A loop that shortens its stream in each round ends, and does what its rounds say.
use system_monitoring_dashbo.Prelude.{
  ℕ, zero, suc, ◌<◌, ◌≡◌, refl, ap, inl, inr, ◌⊎◌, length, arith,
}
use system_monitoring_dashbo.Scan.{In}
use system_monitoring_dashbo.Scan.Stream.{Round, leave, go_on, repeat, loop}

-- Each round that goes on leaves a shorter stream.
abbrev pub Shrinks : {S : Type 0} → (S → In → Round S) → Type 0
Shrinks {S} body = (s s' : S) (i i' : In) → body s i ≡ go_on s' i' → length i'.rest < length i.rest

-- What a loop does with the result of its first round.
abbrev pub after_round : {S : Type 0} → (S → In → Round S) → Round S → S
after_round body (leave r) = r
after_round body (go_on s i) = loop body s i

Round-cases :
    {S : Type 0} (o : Round S) → ((r : S) × (o ≡ leave r)) ⊎ ((s : S) × (i : In) × (o ≡ go_on s i))
Round-cases (leave r) = inl (r, refl)
Round-cases (go_on s i) = inr (s, i, refl)

module _ {S : Type 0} (body : S → In → Round S) (shrinks : Shrinks body) where
  -- Any fuel above the length of the text gives the same result.
  repeat-enough :
      (f g : ℕ) (s : S) (i : In)
      → length i.rest < f
      → length i.rest < g
      → repeat f body s i ≡ repeat g body s i
  unfolding repeat
  repeat-enough zero g s i hf hg = absurd (omega arith)
  repeat-enough (suc f) zero s i hf hg = absurd (omega arith)
  repeat-enough (suc f) (suc g) s i hf hg = elim (Round-cases (body s i)) [
    | inl (r, left) ↦ rw (left, repeat) refl
    | inr (s', i', went) ↦
        let shorter = shrinks s s' i i' went in
        rw (went, repeat) (repeat-enough f g s' i' (omega arith) (omega arith))
  ]

  -- A loop whose rounds shorten the stream does what its first round says: the fuel is enough.
  pub loop_lem : (s : S) (i : In) → loop body s i ≡ after_round body (body s i)
  unfolding loop repeat
  loop_lem s i = elim (Round-cases (body s i)) [
    | inl (r, left) ↦ rw (left, repeat) refl
    | inr (s', i', went) ↦
        let shorter = shrinks s s' i i' went in
        rw (went, repeat)
          (repeat-enough (length i.rest) (suc (length i'.rest)) s' i' (omega arith) (omega arith))
  ]

-- The rounds of a loop, from a state and a stream to its result.
pub data Ends {S : Type 0} (body : S → In → Round S) : S → In → S → Type 0 where
  leaves : {s r : S} {i : In} → body s i ≡ leave r → Ends body s i r
  goes : {s s' r : S} {i i' : In} → body s i ≡ go_on s' i' → Ends body s' i' r → Ends body s i r

module _ {S : Type 0} (body : S → In → Round S) (shrinks : Shrinks body) where
  repeat-Ends : (f : ℕ) (s : S) (i : In) → length i.rest < f → Ends body s i (repeat f body s i)
  unfolding repeat
  repeat-Ends zero s i h = absurd (omega arith)
  repeat-Ends (suc f) s i h = elim (Round-cases (body s i)) [
    | inl (r, left) ↦ rw (left, repeat) (leaves left)
    | inr (s', i', went) ↦
        let shorter = shrinks s s' i i' went in
        rw (went, repeat) (goes went (repeat-Ends f s' i' (omega arith)))
  ]

  -- A loop whose rounds shorten the stream comes to its result by finitely many of them.
  pub loop-Ends : (s : S) (i : In) → Ends body s i (loop body s i)
  unfolding loop
  loop-Ends s i = repeat-Ends (suc (length i.rest)) s i (omega arith)

-- The stream that a round goes on with.
next_stream : {S : Type 0} → In → Round S → In
next_stream other (leave r) = other
next_stream other (go_on s i) = i

pub go_on-stream : {S : Type 0} (s s' : S) (i i' : In) → go_on s i ≡ go_on s' i' → i ≡ i'
unfolding next_stream
go_on-stream s s' i i' e = ap (next_stream i) e
