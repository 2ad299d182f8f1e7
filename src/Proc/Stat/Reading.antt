-- ===== src/Proc/Stat/Reading.antt =====
-- `read_stat` reads a printed line back.
use system_monitoring_dashbo.Prelude.{
  ℕ, zero, suc, ◌+◌, ◌-◌, ◌≡◌, ◌≢◌, refl, sym, ap, ◌∙◌, false, none, some, List, [], ◌∷◌, ◌++◌,
  append_assoc, leb, length, take, length-append, arith, All, ◌⊎◌, inl, inr,
}
use system_monitoring_dashbo.Prelude.Int.{ℤ, pos}
use system_monitoring_dashbo.Prelude.Text.{Text, Free, Free-append, is_nil, split_at_first}
use system_monitoring_dashbo.Scan.{open_text, is_space, is_digit, extract_char, show_ℤ}
use system_monitoring_dashbo.Scan.Lines.{tokens_first}
use system_monitoring_dashbo.Scan.Digits.{show_ℤ-Free}
use system_monitoring_dashbo.Scan.Stream.Printed.{
  print_fields, print_fields-Ends, print_fields-Free, Ends, IsU64, extract_u64-skip,
  extract_u64-field, extract_int-field,
}
use system_monitoring_dashbo.Proc.Stat.{
  done, split_last, split_or, first_line, skip_fields, read_fields, read_behind, read_parts,
  read_stat_line, read_stat,
}
use system_monitoring_dashbo.Proc.Stat.Print.{
  StatLine, print_tail, print_stat, IsStatLine, sample_of,
}

skip_fields-print_fields :
    (n : ℕ) (zs : List ℤ) (rest : Text)
    → length zs ≡ n
    → All IsU64 zs
    → Ends rest
    → skip_fields n (open_text (print_fields zs rest)) ≡ open_text rest
unfolding skip_fields
skip_fields-print_fields zero [] rest e h ends = refl
skip_fields-print_fields (suc n) [] rest e h ends = absurd (omega arith)
skip_fields-print_fields zero (z ∷ zs) rest e h ends = absurd (omega arith)
skip_fields-print_fields (suc n) (z ∷ zs) rest e (h, hs) ends =
    ap (skip_fields n)
      (extract_u64-skip 0 z (print_fields zs rest) h (print_fields-Ends zs rest ends))
    ∙ skip_fields-print_fields n zs rest (omega arith) hs ends

extract_char_first :
    (old c : ℕ) (s : Text)
    → is_space c ≡ false
    → extract_char old (open_text (c ∷ s)) ≡ (c, open_text s)
unfolding extract_char
extract_char_first old c s h = rw h refl

-- The last occurrence is found.
split_last-none : (c : ℕ) (s : Text) → Free c s → split_last c s ≡ none
unfolding split_last
split_last-none c [] h = refl
split_last-none c (x ∷ s) (hx, hs) = ground (arith, split_last-none c s hs)

pub split_last_found :
    (c : ℕ) (front back : Text)
    → Free c back
    → split_last c (front ++ c ∷ back) ≡ some (front, back)
unfolding split_last
split_last_found c [] back h = ground (arith, split_last-none c back h)
split_last_found c (x ∷ front) back h =
    ap (split_or c x (front ++ c ∷ back)) (split_last_found c front back h)

take-append : (comm rest : Text) → take (length comm) (comm ++ rest) ≡ comm
take-append [] rest = refl
take-append (c ∷ comm) rest = ap (λ (t : Text). c ∷ t) (take-append comm rest)

read_fields-print :
    (pid : ℤ) (comm : Text) (l : StatLine)
    → IsStatLine l
    → read_fields pid comm (open_text (l.state ∷ print_tail l))
      ≡ record (sample_of pid l) { comm = comm }
unfolding read_fields
read_fields-print pid comm l v =
    let t₀ = print_fields l.more [] in
    let end₀ = print_fields-Ends l.more [] refl in
    let t₁ = print_fields (pos l.starttime ∷ []) t₀ in
    let t₂ = print_fields l.threads t₁ in
    let end₂ = print_fields-Ends l.threads t₁ refl in
    let t₃ = print_fields (l.nice ∷ []) t₂ in
    let t₄ = print_fields (l.priority ∷ []) t₃ in
    let t₅ = print_fields l.children t₄ in
    let end₅ = print_fields-Ends l.children t₄ refl in
    let t₆ = print_fields (pos l.stime ∷ []) t₅ in
    let t₇ = print_fields (pos l.utime ∷ []) t₆ in
    let t₈ = print_fields l.skipped t₇ in
    let end₈ = print_fields-Ends l.skipped t₇ refl in
    rw
      (
        extract_char_first b'?' l.state (print_tail l) v.state_visible,
        extract_int-field (pos 0) l.ppid t₈ v.ppid_fits end₈,
        skip_fields-print_fields 9 l.skipped t₇ v.skipped_nine v.skipped_fit refl,
        extract_u64-field 0 l.utime t₆ v.utime_fits refl,
        extract_u64-field 0 l.stime t₅ v.stime_fits end₅,
        skip_fields-print_fields 2 l.children t₄ v.children_two v.children_fit refl,
        extract_int-field (pos 0) l.priority t₃ v.priority_fits refl,
        extract_int-field (pos 0) l.nice t₂ v.nice_fits end₂,
        skip_fields-print_fields 2 l.threads t₁ v.threads_two v.threads_fit refl,
        extract_u64-field 0 l.starttime t₀ v.starttime_fits end₀,
      )
      refl

pub is_nil-append : (s t : Text) (c : ℕ) → is_nil (s ++ c ∷ t) ≡ false
is_nil-append [] t c = refl
is_nil-append (x ∷ s) t c = refl

pub read_parts-name :
    (pid : ℤ) (before comm back rest : Text)
    → read_parts pid (some (before, comm ++ rest)) (some (before ++ b'(' ∷ comm, back))
      ≡ read_behind pid comm back
read_parts-name pid before comm back rest =
    let size : length (before ++ b'(' ∷ comm) ≡ length before + suc (length comm) =
      length-append before (b'(' ∷ comm) in
    let behind : leb (length (before ++ b'(' ∷ comm)) (length before) ≡ false =
      ground (arith, size) in
    let inner : length (before ++ b'(' ∷ comm) - length before - 1 ≡ length comm =
      omega (arith, size) in
    rw (behind, inner) (ap (λ (t : Text). read_behind pid t back) (take-append comm rest))

tail-Free : (c : ℕ) (l : StatLine) → (c ≡ b')') ⊎ (c ≡ b'\n') → Free c (print_tail l)
tail-Free c l h =
    let digit : is_digit c ≡ false = ground arith in
    let minus : c ≢ b'-' = ground arith in
    let space : c ≢ b' ' = ground arith in
    let step = λ (zs : List ℤ) (rest : Text) (f : Free c rest).
      print_fields-Free c zs rest digit minus space f in
    step (l.ppid ∷ []) _ (
      step l.skipped _ (
        step (pos l.utime ∷ []) _ (
          step (pos l.stime ∷ []) _ (
            step l.children _ (
              step (l.priority ∷ []) _ (
                step (l.nice ∷ []) _
                  (step l.threads _ (step (pos l.starttime ∷ []) _ (step l.more [] tt)))))))))

print_stat-Free : (pid : ℤ) (l : StatLine) → IsStatLine l → Free b'\n' (print_stat pid l)
print_stat-Free pid l v =
    Free-append b'\n' (show_ℤ pid ++ b' ' ∷ [])
      (b'(' ∷ (l.comm ++ b')' ∷ (b' ' ∷ (l.state ∷ print_tail l))))
      (Free-append b'\n' (show_ℤ pid) (b' ' ∷ []) (show_ℤ-Free b'\n' pid refl (omega arith))
        (omega arith))
      (
        omega arith,
        Free-append b'\n' l.comm (b')' ∷ (b' ' ∷ (l.state ∷ print_tail l))) v.comm_line (
          omega arith,
          (omega arith, (state_line l.state v.state_visible, tail-Free b'\n' l (inr refl))),
        ),
      )
  where
    state_line : (c : ℕ) → is_space c ≡ false → c ≢ b'\n'
    state_line c h e = ground arith

read_stat_line-print :
    (pid : ℤ) (l : StatLine)
    → IsStatLine l
    → read_stat_line pid (print_stat pid l) ≡ done (sample_of pid l)
unfolding read_stat_line
read_stat_line-print pid l v =
    let before = show_ℤ pid ++ b' ' ∷ [] in
    let right = l.state ∷ print_tail l in
    let back = b' ' ∷ right in
    let before_free : Free b'(' before =
      Free-append b'(' (show_ℤ pid) (b' ' ∷ []) (show_ℤ-Free b'(' pid refl (omega arith))
        (omega arith) in
    let back_free : Free b')' back = (omega arith, (v.state_open, tail-Free b')' l (inl refl))) in
    let opened = split_at_first b'(' before (l.comm ++ b')' ∷ back) before_free in
    let closed : split_last b')' (print_stat pid l) ≡ some (before ++ b'(' ∷ l.comm, back) =
      ap (split_last b')') (sym (append_assoc before (b'(' ∷ l.comm) (b')' ∷ back)))
      ∙ split_last_found b')' (before ++ b'(' ∷ l.comm) back back_free in
    let full = is_nil-append before (l.comm ++ b')' ∷ back) b'(' in
    rw (full, read_stat_line)
      (ap (λ o. read_parts pid o (split_last b')' (print_stat pid l))) opened
        ∙ ap (read_parts pid (some (before, l.comm ++ b')' ∷ back))) closed
        ∙ read_parts-name pid before l.comm back (b')' ∷ back)
        ∙ ap done (read_fields-print pid l.comm l v))

-- `read_stat` gives back what the kernel printed, whatever bytes but a line break the name holds, also
-- parentheses and spaces, if each field fits the type that it is read as.
pub read_stat-print_stat :
    (pid : ℤ) (l : StatLine) (behind : Text)
    → IsStatLine l
    → read_stat pid (some (print_stat pid l ++ b'\n' ∷ behind)) ≡ done (sample_of pid l)
unfolding read_stat
read_stat-print_stat pid l behind v =
    ap (λ ls. read_stat_line pid (first_line ls))
      (tokens_first b'\n' (print_stat pid l) behind (print_stat-Free pid l v))
    ∙ read_stat_line-print pid l v
