-- ===== src/Proc/Status.antt =====
-- The files of /proc that hold a key and a value on each line, and the first line of /proc/stat. A
-- file is `none` if it cannot be opened.
pub mod Loops
mod Tests
use system_monitoring_dashbo.Prelude.{
  ℕ, ◌+◌, ◌*◌, ◌/◌, ◌%◌, ◌^◌, Bool, true, false, not, Option, none, some, List, [], ◌∷◌,
  if◌then◌else◌,
}
use system_monitoring_dashbo.Prelude.Int.{ℤ, pos, pos_part, leb_ℤ}
use system_monitoring_dashbo.Prelude.Text.{Text, codes, text_eq}
use system_monitoring_dashbo.Scan.{In, open_text, tokens, extract_u64, extract_u32, extract_word}
use system_monitoring_dashbo.Scan.Stream.{Round, leave, go_on, loop, get_line}
use system_monitoring_dashbo.Proc.{ProcSample}

-- `while (iss >> val) sum += val;`
unfoldable pub sum_round : ℕ → In → Round ℕ
sum_round sum i =
    let (val, after) = extract_u64 0 i in
    if after.good then go_on ((sum + val) % 2 ^ 64) after else leave sum

unfoldable pub sum_line : Text → Option ℕ
unfolding loop sum_round
sum_line line =
    let (tag, i) = extract_word [] (open_text line) in
    if text_eq tag (codes "cpu") then some (loop sum_round 0 i) else none

abbrev sum_first : List Text → Option ℕ
sum_first [] = none
sum_first (line ∷ _) = sum_line line

-- `none` is false.
unfoldable pub read_first_cpu_line : Option Text → Option ℕ
unfolding sum_line tokens
read_first_cpu_line none = none
read_first_cpu_line (some file) = sum_first (tokens b'\n' file)

-- `while (f >> key >> value) { if (key == ...) return value; std::getline(f, rest); } return 0;`
unfoldable pub find_round : Text → ℕ → In → Round ℕ
find_round wanted result i =
    let (key, i₁) = extract_word [] i in
    let (value, i₂) = extract_u64 0 i₁ in
    if not i₂.good
    then leave 0
    else if text_eq key wanted
    then leave value
    else go_on result (get_line i₂)

unfoldable pub find_value : Text → Option Text → ℕ
unfolding loop find_round
find_value wanted none = 0
find_value wanted (some file) = loop (find_round wanted) 0 (open_text file)

unfoldable pub read_memtotal_kb : Option Text → ℕ
unfolding find_value
read_memtotal_kb file = find_value (codes "MemTotal:") file

-- The branches of `read_status` at a key: the value that is stored, and the stream. `unset` is what a
-- variable holds that was never assigned.
unfoldable pub assign : ℕ → Text → ProcSample → In → ProcSample × In
assign unset key s i =
    let (small, after_small) = extract_u32 (unset % 2 ^ 32) i in
    let (big, after_big) = extract_u64 unset i in
    if text_eq key (codes "Uid:")
    then (record s { uid = small }, after_small)
    else if text_eq key (codes "Threads:")
    then (record s { threads = small }, after_small)
    else if text_eq key (codes "voluntary_ctxt_switches:")
    then (record s { ctx_switches = (s.ctx_switches + big) % 2 ^ 64 }, after_big)
    else if text_eq key (codes "nonvoluntary_ctxt_switches:")
    then (record s { ctx_switches = (s.ctx_switches + big) % 2 ^ 64 }, after_big)
    else (s, i)

-- `while (f >> key) { ... std::getline(f, rest); }`
unfoldable pub status_round : ℕ → ProcSample → In → Round ProcSample
unfolding assign
status_round unset s i =
    let (key, i₁) = extract_word [] i in
    let (s', i₂) = assign unset key s i₁ in if i₁.good then go_on s' (get_line i₂) else leave s

unfoldable pub read_status : ℕ → Option Text → ProcSample → ProcSample
unfolding loop status_round
read_status unset none s = s
read_status unset (some file) s = loop (status_round unset) s (open_text file)

-- `if (ps <= 0) ps = 4096;`
abbrev pub page_bytes : ℤ → ℕ
page_bytes ps = if leb_ℤ ps (pos 0) then 4096 else pos_part ps

-- The resident size of /proc/[pid]/statm, in kB; `none` leads to the fallback.
unfoldable pub read_statm : ℤ → Option Text → Option ℕ
read_statm page_size none = none
read_statm page_size (some file) =
    let (size_pages, i₁) = extract_u64 0 (open_text file) in
    let (resident_pages, i₂) = extract_u64 0 i₁ in
    if i₂.good then some (resident_pages * page_bytes page_size % 2 ^ 64 / 1024) else none

-- The first argument is `sysconf(_SC_PAGESIZE)`.
unfoldable pub rss_kb_from_proc : ℤ → Option Text → Option Text → ℕ
unfolding read_statm find_value
rss_kb_from_proc page_size statm status = elim (read_statm page_size statm) [
  | none ↦ find_value (codes "VmRSS:") status
  | some kb ↦ kb
]
