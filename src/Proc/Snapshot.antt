-- ===== src/Proc/Snapshot.antt =====
-- `read_proc_snapshot`: the directory /proc, read into a snapshot.
pub mod Inv
pub mod Faults
mod Tests
use system_monitoring_dashbo.Prelude.{
  ℕ, ◌-◌, ◌%◌, ◌^◌, min, Bool, true, false, ◌&&◌, not, Option, none, some, List, [], ◌∷◌,
  if◌then◌else◌, ltb,
}
use system_monitoring_dashbo.Prelude.Int.{ℤ, pos, leb_ℤ, to_signed}
use system_monitoring_dashbo.Prelude.Text.{Text, is_nil}
use system_monitoring_dashbo.Prelude.Dict.{Dict, emplace, int_eq}
use system_monitoring_dashbo.Scan.{c_str, skip_space, read_number}
use system_monitoring_dashbo.Proc.{ProcSample, ProcSnapshot}
use system_monitoring_dashbo.Proc.Stat.{Outcome, rejected, thrown, done, read_stat, read_cmdline}
use system_monitoring_dashbo.Proc.Status.{
  read_first_cpu_line, read_memtotal_kb, read_status, rss_kb_from_proc,
}

-- The files of one process, as each reader finds them; /proc/[pid]/status is opened twice.
pub record ProcFiles : Type 0 where
  pub stat : Option Text
  pub status : Option Text
  pub statm : Option Text
  pub status_rss : Option Text
  pub cmdline : Option Text

-- An entry that `readdir` returns: its name, and whether its type is one of those considered.
pub record DirEntry : Type 0 where
  pub considered : Bool
  pub name : Text

-- What the operating system answers.
pub record ProcDir : Type 0 where
  -- `sysconf(_SC_CLK_TCK)` and `sysconf(_SC_PAGESIZE)`
  pub ticks_per_second : ℤ
  pub page_size : ℤ
  pub stat : Option Text
  pub meminfo : Option Text
  -- `none` if /proc cannot be opened
  pub entries : Option (List DirEntry)
  pub files : ℤ → ProcFiles
  -- what a variable holds that was never assigned
  pub unset : ℕ

unfoldable pub clk_tck : ℤ → ℤ
unfolding to_signed
clk_tck ticks = let v = to_signed 32 ticks in if leb_ℤ v (pos 0) then pos 100 else v

-- The process id that a name stands for: `strtol` reads all of it as a positive number, which is
-- `LONG_MAX` where it is too large.
unfoldable pub pid_of : Text → Option ℤ
unfolding c_str skip_space read_number to_signed
pid_of name = elim (read_number (skip_space (c_str name))) [
  | none ↦ none
  | some (negative, n, rest) ↦
      if is_nil rest && (not negative && ltb 0 n)
      then some (to_signed 32 (pos (min n (2 ^ 63 - 1))))
      else none
]

-- The rest of a round, from what `read_stat` returned.
abbrev pub add_process :
    ProcDir → ℤ → Outcome ProcSample → Dict ℤ ProcSample → Outcome (Dict ℤ ProcSample)
add_process dir pid rejected by_pid = done by_pid
add_process dir pid thrown by_pid = thrown
add_process dir pid (done s) by_pid =
    let files = dir.files pid in
    let with_status = read_status dir.unset files.status s in
    let filled = record with_status {
      rss_kb = rss_kb_from_proc dir.page_size files.statm files.status_rss;
      cmdline = read_cmdline files.cmdline;
    } in
    done (emplace pid filled by_pid)

-- One entry of the directory.
unfoldable pub add_entry : ProcDir → DirEntry → Dict ℤ ProcSample → Outcome (Dict ℤ ProcSample)
unfolding pid_of emplace
add_entry dir e by_pid = elim (if e.considered then pid_of e.name else none) [
  | none ↦ done by_pid
  | some pid ↦ add_process dir pid (read_stat pid (dir.files pid).stat) by_pid
]

-- The loop over the directory.
unfoldable pub add_entries :
    ProcDir → List DirEntry → Dict ℤ ProcSample → Outcome (Dict ℤ ProcSample)
unfolding add_entry
add_entries dir [] by_pid = done by_pid
add_entries dir (e ∷ entries) by_pid = elim (add_entry dir e by_pid) [
  | rejected ↦ rejected
  | thrown ↦ thrown
  | done by_pid' ↦ add_entries dir entries by_pid'
]

-- The snapshot around a table.
abbrev finish : ProcDir → ℕ → Outcome (Dict ℤ ProcSample) → Outcome ProcSnapshot
finish dir total rejected = rejected
finish dir total thrown = thrown
finish dir total (done by_pid) = done (record {
  total_jiffies = total;
  by_pid = by_pid;
  memtotal_kb = read_memtotal_kb dir.meminfo;
  hz = clk_tck dir.ticks_per_second;
})

abbrev read_dir : ProcDir → Option ℕ → Option (List DirEntry) → Outcome ProcSnapshot
read_dir dir none _ = rejected
read_dir dir (some total) none = rejected
read_dir dir (some total) (some entries) = finish dir total (add_entries dir entries [])

unfoldable pub read_proc_snapshot : ProcDir → Outcome ProcSnapshot
unfolding add_entries read_first_cpu_line read_memtotal_kb clk_tck
read_proc_snapshot dir = read_dir dir (read_first_cpu_line dir.stat) dir.entries
