-- ===== src/Proc/Stat.antt =====
-- /proc/[pid]/stat and /proc/[pid]/cmdline. A file is `none` if it cannot be opened.
pub mod Print
pub mod Reading
pub mod Faults
mod Tests
use system_monitoring_dashbo.Prelude.{
  ℕ, zero, suc, ◌+◌, ◌-◌, Bool, true, false, Option, none, some, List, [], ◌∷◌, ◌++◌, map,
  if◌then◌else◌, ltb, leb, ◌==◌, length, take, drop,
}
use system_monitoring_dashbo.Prelude.Int.{ℤ, pos}
use system_monitoring_dashbo.Prelude.Text.{Text, is_nil, split_at}
use system_monitoring_dashbo.Scan.{In, open_text, tokens, extract_char, extract_u64, extract_int}
use system_monitoring_dashbo.Proc.{ProcSample}

-- A function returned false, threw an exception, or returned true with its results.
pub data Outcome {ℓ} (A : Type ℓ) : Type ℓ where
  rejected : Outcome A
  thrown : Outcome A
  done : A → Outcome A

-- `s.rfind(c)` splits `s` at the last `c`; `none` is `npos`.
abbrev split_or : ℕ → ℕ → Text → Option (Text × Text) → Option (Text × Text)
split_or c x s (some (before, after)) = some (x ∷ before, after)
split_or c x s none = if x == c then some ([], s) else none

unfoldable pub split_last : ℕ → Text → Option (Text × Text)
split_last c [] = none
split_last c (x ∷ s) = split_or c x s (split_last c s)

-- What `std::getline` reads first: the first line, empty if the file is.
abbrev pub first_line : List Text → Text
first_line [] = []
first_line (line ∷ _) = line

-- `ProcSample{}`
abbrev pub no_sample : ProcSample
no_sample = record {
  pid = pos 0;
  ppid = pos 0;
  utime_ticks = 0;
  stime_ticks = 0;
  starttime_ticks = 0;
  rss_kb = 0;
  ctx_switches = 0;
  threads = 0;
  priority = pos 0;
  nice = pos 0;
  uid = 0;
  state = b'?';
  comm = [];
  cmdline = [];
}

-- The loop that skips fields.
unfoldable pub skip_fields : ℕ → In → In
unfolding extract_u64
skip_fields zero i = i
skip_fields (suc n) i = skip_fields n (extract_u64 0 i).1

-- The fields behind the name, from `state` on.
unfoldable pub read_fields : ℤ → Text → In → ProcSample
unfolding extract_char extract_u64 extract_int skip_fields
read_fields pid comm right =
    let (state, i₁) = extract_char b'?' right in
    let (ppid, i₂) = extract_int (pos 0) i₁ in
    let i₃ = skip_fields 9 i₂ in
    let (utime, i₄) = extract_u64 0 i₃ in
    let (stime, i₅) = extract_u64 0 i₄ in
    let i₆ = skip_fields 2 i₅ in
    let (priority, i₇) = extract_int (pos 0) i₆ in
    let (nice, i₈) = extract_int (pos 0) i₇ in
    let i₉ = skip_fields 2 i₈ in
    let (starttime, _) = extract_u64 0 i₉ in
    record no_sample {
      pid = pid;
      ppid = ppid;
      utime_ticks = utime;
      stime_ticks = stime;
      starttime_ticks = starttime;
      priority = priority;
      nice = nice;
      state = state;
      comm = comm;
    }

-- `all.substr(r + 2)`: the text behind the last `)` without its first byte. It throws where there is
-- no such byte.
abbrev pub read_behind : ℤ → Text → Text → Outcome ProcSample
read_behind pid comm [] = thrown
read_behind pid comm (_ ∷ right) = done (read_fields pid comm (open_text right))

-- What stands before and behind the first `(`, and before and behind the last `)`.
abbrev pub read_parts : ℤ → Option (Text × Text) → Option (Text × Text) → Outcome ProcSample
read_parts pid none _ = rejected
read_parts pid (some (before, after)) none = rejected
read_parts pid (some (before, after)) (some (front, back)) =
    if leb (length front) (length before)
    then rejected
    else read_behind pid (take (length front - length before - 1) after) back

unfoldable pub read_stat_line : ℤ → Text → Outcome ProcSample
unfolding split_last read_fields
read_stat_line pid all =
    if is_nil all then rejected else read_parts pid (split_at b'(' all) (split_last b')' all)

unfoldable pub read_stat : ℤ → Option Text → Outcome ProcSample
unfolding read_stat_line tokens
read_stat pid none = rejected
read_stat pid (some file) = read_stat_line pid (first_line (tokens b'\n' file))

-- `if (!buf.empty() && buf.back() == ' ') buf.pop_back();`
abbrev pub pop_space : Text → Text
pop_space [] = []
pop_space (c ∷ []) = if c == b' ' then [] else c ∷ []
pop_space (c ∷ x ∷ buf) = c ∷ pop_space (x ∷ buf)

unfoldable pub read_cmdline : Option Text → Text
read_cmdline none = []
read_cmdline (some buf) = pop_space (map (λ c. if c == 0 then b' ' else c) buf)
