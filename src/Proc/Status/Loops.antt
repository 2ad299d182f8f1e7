-- ===== src/Proc/Status/Loops.antt =====
-- The loops over /proc/[pid]/status and the files like it end after
-- finitely many rounds.
use system_monitoring_dashbo.Prelude.{
  ◌%◌, ◌^◌, ℕ, ◌+◌, ◌%◌, ◌^◌, ◌≤◌, ◌≡◌, ap, inl, inr, [], length, arith, Bool-cases,
}
use system_monitoring_dashbo.Prelude.Text.{Text, text_eq}
use system_monitoring_dashbo.Scan.{In, extract_u64, extract_word}
use system_monitoring_dashbo.Scan.Stream.{go_on, loop, get_line}
use system_monitoring_dashbo.Scan.Stream.Sizes.{
  length-extract_u64, length-extract_u32, length-extract_word, length-get_line, extract_u64-shrinks,
  extract_u64-failed,
}
use system_monitoring_dashbo.Scan.Stream.Loop.{Shrinks, Ends, loop-Ends, go_on-stream}
use system_monitoring_dashbo.Proc.{ProcSample}
use system_monitoring_dashbo.Proc.Status.{assign, status_round, find_round, sum_round}

length-assign :
    (unset : ℕ) (key : Text) (s : ProcSample) (i : In)
    → length ((assign unset key s i).1).rest ≤ length i.rest
unfolding assign
length-assign unset key s i =
    ground (arith, length-extract_u32 (unset % 2 ^ 32) i, length-extract_u64 unset i)

status_round-Shrinks : (unset : ℕ) → Shrinks (status_round unset)
unfolding status_round
status_round-Shrinks unset s s' i i' e =
    let (key, i₁) = extract_word [] i in
    let (sample, i₂) = assign unset key s i₁ in
    elim (Bool-cases i₁.good) [
      | inl read ↦
          let went : go_on sample (get_line i₂) ≡ go_on s' i' = rw read at e in
          let same =
            ap (λ (x : In). length x.rest) (go_on-stream sample s' (get_line i₂) i' went) in
          omega
            (arith, length-get_line i₂, length-assign unset key s i₁, length-extract_word [] i read)
      | inr ended ↦ absurd (let e' = rw ended at e in cc)
    ]

find_round-Shrinks : (wanted : Text) → Shrinks (find_round wanted)
unfolding find_round
find_round-Shrinks wanted r r' i i' e =
    let (key, i₁) = extract_word [] i in
    let (value, i₂) = extract_u64 0 i₁ in
    elim (Bool-cases i₂.good) [
      | inl read ↦ elim (Bool-cases i₁.good) [
        | inl word_read ↦ elim (Bool-cases (text_eq key wanted)) [
          | inl found ↦ absurd (let e' = rw (read, found) at e in cc)
          | inr other ↦
              let went : go_on r (get_line i₂) ≡ go_on r' i' = rw (read, other) at e in
              let same = ap (λ (x : In). length x.rest) (go_on-stream r r' (get_line i₂) i' went) in
              omega (
                arith,
                length-get_line i₂,
                length-extract_u64 0 i₁,
                length-extract_word [] i word_read,
              )
        ]
        | inr no_word ↦ absurd (cc (extract_u64-failed 0 i₁ no_word, read))
      ]
      | inr ended ↦ absurd (let e' = rw ended at e in cc)
    ]

sum_round-Shrinks : Shrinks sum_round
unfolding sum_round
sum_round-Shrinks sum sum' i i' e =
    let (val, after) = extract_u64 0 i in
    elim (Bool-cases after.good) [
      | inl read ↦
          let went : go_on ((sum + val) % 2 ^ 64) after ≡ go_on sum' i' = rw read at e in
          let same =
            ap (λ (x : In). length x.rest)
              (go_on-stream ((sum + val) % 2 ^ 64) sum' after i' went) in
          omega (arith, extract_u64-shrinks 0 i read)
      | inr ended ↦ absurd (let e' = rw ended at e in cc)
    ]

-- The loops of `read_status`, of `read_memtotal_kb` and `rss_kb_from_proc`, and of
-- `read_first_cpu_line` end on every input: each comes to its result by finitely many rounds, of which
-- all but the last go on and the last one leaves the loop with that result.
pub loops-Ends :
    (unset : ℕ) (s : ProcSample) (wanted : Text) (r sum : ℕ) (i : In)
    → Ends (status_round unset) s i (loop (status_round unset) s i)
      × Ends (find_round wanted) r i (loop (find_round wanted) r i)
      × Ends sum_round sum i (loop sum_round sum i)
loops-Ends unset s wanted r sum i = (
  loop-Ends (status_round unset) (status_round-Shrinks unset) s i,
  loop-Ends (find_round wanted) (find_round-Shrinks wanted) r i,
  loop-Ends sum_round sum_round-Shrinks sum i,
)
