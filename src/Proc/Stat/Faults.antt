-- ===== src/Proc/Stat/Faults.antt =====
-- When `read_stat` throws: `all.substr(r + 2)` of a line that ends in its last parenthesis.
use system_monitoring_dashbo.Prelude.{
  ℕ, ◌<◌, ◌≡◌, ◌↔◌, refl, sym, ap, ◌∙◌, Option, none, some, [], ◌∷◌, ◌++◌, append_assoc, leb,
  length, arith, Bool-cases, Option-cases, inl, inr,
}
use system_monitoring_dashbo.Prelude.Int.{ℤ}
use system_monitoring_dashbo.Prelude.Text.{Text, Free, split_at, split_at_first, split_at-Free}
use system_monitoring_dashbo.Scan.{tokens}
use system_monitoring_dashbo.Proc.Stat.{
  thrown, split_last, first_line, read_parts, read_stat_line, read_stat,
}
use system_monitoring_dashbo.Proc.Stat.Reading.{split_last_found, read_parts-name, is_nil-append}

-- The line ends in a `)`, and a `(` stands before it.
abbrev pub IsCut : Text → Type 0
IsCut line =
    (before : Text) × (comm : Text) × Free b'(' before
    × (line ≡ before ++ b'(' ∷ (comm ++ b')' ∷ []))

pub split_last_lem :
    (c : ℕ) (s front back : Text) → split_last c s ≡ some (front, back) → s ≡ front ++ c ∷ back
unfolding split_last
split_last_lem c [] front back h = cc
split_last_lem c (x ∷ s) front back h = elim (Option-cases (split_last c s)) [
  | inl absent ↦ ground (arith, h, absent)
  | inr ((front', back'), found) ↦ ground (arith, h, found, split_last_lem c s front' back' found)
]

tail_of : Text → Text
tail_of [] = []
tail_of (_ ∷ s) = s

-- What stands behind a byte and before the last one.
inner_part :
    (x y : ℕ) (before after front : Text)
    → before ++ x ∷ after ≡ front ++ y ∷ []
    → length before < length front
    → (comm : Text) × (after ≡ comm ++ y ∷ [])
unfolding tail_of
inner_part x y before after [] e h = absurd (omega arith)
inner_part x y [] after (f ∷ front) e h = (front, ap tail_of e)
inner_part x y (b ∷ before) after (f ∷ front) e h =
    inner_part x y before after front (ap tail_of e) (omega arith)

-- The parts that lead to the exception.
parts-thrown :
    (pid : ℤ) (o₁ o₂ : Option (Text × Text))
    → read_parts pid o₁ o₂ ≡ thrown
    → (before : Text) × (after : Text) × (front : Text) × (o₁ ≡ some (before, after))
      × (o₂ ≡ some (front, []))
      × (length before < length front)
parts-thrown pid none o₂ h = absurd (cc)
parts-thrown pid (some (before, after)) none h = absurd (cc)
parts-thrown pid (some (before, after)) (some (front, c ∷ back)) h =
    elim (Bool-cases (leb (length front) (length before))) [
      | inl behind ↦ absurd (let h' = rw behind at h in cc)
      | inr inside ↦ absurd (let h' = rw inside at h in cc)
    ]
parts-thrown pid (some (before, after)) (some (front, [])) h =
    elim (Bool-cases (leb (length front) (length before))) [
      | inl behind ↦ absurd (let h' = rw behind at h in cc)
      | inr inside ↦ (before, after, front, refl, refl, ground arith)
    ]

line-IsCut :
    (line before after front : Text)
    → split_at b'(' line ≡ some (before, after)
    → split_last b')' line ≡ some (front, [])
    → length before < length front
    → IsCut line
line-IsCut line before after front opened closed inside =
    let (free, first) = split_at-Free b'(' line before after opened in
    let last = split_last_lem b')' line front [] closed in
    let (comm, inner) = inner_part b'(' b')' before after front (sym first ∙ last) inside in
    (before, comm, free, first ∙ ap (λ (t : Text). before ++ b'(' ∷ t) inner)

IsCut-thrown :
    (pid : ℤ) (line before comm : Text)
    → Free b'(' before
    → line ≡ before ++ b'(' ∷ (comm ++ b')' ∷ [])
    → read_stat_line pid line ≡ thrown
unfolding read_stat_line
IsCut-thrown pid line before comm free e =
    let cut = before ++ b'(' ∷ (comm ++ b')' ∷ []) in
    let opened = split_at_first b'(' before (comm ++ b')' ∷ []) free in
    let closed : split_last b')' cut ≡ some (before ++ b'(' ∷ comm, []) =
      ap (split_last b')') (sym (append_assoc before (b'(' ∷ comm) (b')' ∷ [])))
      ∙ split_last_found b')' (before ++ b'(' ∷ comm) [] tt in
    let full = is_nil-append before (comm ++ b')' ∷ []) b'(' in
    rw (e, full, read_stat_line)
      (ap (λ o. read_parts pid o (split_last b')' cut)) opened
        ∙ ap (read_parts pid (some (before, comm ++ b')' ∷ []))) closed
        ∙ read_parts-name pid before comm [] (b')' ∷ []))

read_stat_line-thrown : (pid : ℤ) (line : Text) → (read_stat_line pid line ≡ thrown) ↔ IsCut line
unfolding read_stat_line
read_stat_line-thrown pid [] =
    (λ h. absurd (cc), λ (before, comm, free, e). IsCut-thrown pid [] before comm free e)
read_stat_line-thrown pid (c ∷ line) = (
  λ h.
      let (before, after, front, opened, closed, inside) =
        parts-thrown pid (split_at b'(' (c ∷ line)) (split_last b')' (c ∷ line)) h in
      line-IsCut (c ∷ line) before after front opened closed inside,
  λ (before, comm, free, e). IsCut-thrown pid (c ∷ line) before comm free e,
)

-- `read_stat` throws exactly if the file can be opened and its first line ends in a `)` with a `(`
-- before it.
pub read_stat-thrown :
    (pid : ℤ) (file : Text)
    → (read_stat pid (some file) ≡ thrown) ↔ IsCut (first_line (tokens b'\n' file))
unfolding read_stat
read_stat-thrown pid file = read_stat_line-thrown pid (first_line (tokens b'\n' file))
