-- ===== src/Proc/Snapshot/Tests.antt =====
-- A directory with one process.
use system_monitoring_dashbo.Prelude.{
  ◌≡◌, refl, true, false, none, some, List, [], ◌∷◌, if◌then◌else◌,
}
use system_monitoring_dashbo.Prelude.Int.{pos}
use system_monitoring_dashbo.Prelude.Text.{Text, codes}
use system_monitoring_dashbo.Prelude.Dict.{lookup, int_eq}
use system_monitoring_dashbo.Proc.{ProcSnapshot}
use system_monitoring_dashbo.Proc.Stat.{Outcome, rejected, thrown, done, read_stat}
use system_monitoring_dashbo.Proc.Snapshot.{
  ProcFiles, DirEntry, ProcDir, pid_of, read_proc_snapshot,
}
use system_monitoring_dashbo.Scan.{extract_word}
use system_monitoring_dashbo.Proc.Status.{read_first_cpu_line}
use system_monitoring_dashbo.Proc.Snapshot.Inv.{lists, sample_at, lookup-read_proc_snapshot}
use system_monitoring_dashbo.Proc.Snapshot.Faults.{read_proc_snapshot-thrown}

abbrev files_of : Text → ProcFiles
files_of stat = record {
  stat = some stat;
  status = some (codes "Uid:\t7\t7\n");
  statm = some (codes "10 4 1\n");
  status_rss = none;
  cmdline = none;
}

abbrev entries : List DirEntry
entries =
    record { considered = false; name = codes "9" }
    ∷ record { considered = true; name = codes "self" }
    ∷ record { considered = true; name = codes "7" }
    ∷ []

-- The argument is the stat file of every process.
abbrev dir_of : Text → ProcDir
dir_of stat = record {
  ticks_per_second = pos 100;
  page_size = pos 4096;
  stat = some (codes "cpu  3 0 1\n");
  meminfo = none;
  entries = some entries;
  files = λ pid. files_of stat;
  unset = 0;
}

abbrev whole : ProcDir
whole = dir_of (codes "7 (sh) S 1 7 7 0 -1 4194304 12 0 0 0 3 4 0 0 20 0 1 0 50\n")

abbrev cut : ProcDir
cut = dir_of (codes "7 (sh)\n")

abbrev snapshot_of : Outcome ProcSnapshot → ProcSnapshot
snapshot_of rejected = record { total_jiffies = 0; by_pid = []; memtotal_kb = 0; hz = pos 0 }
snapshot_of thrown = record { total_jiffies = 0; by_pid = []; memtotal_kb = 0; hz = pos 0 }
snapshot_of (done s) = s

abbrev snap : ProcSnapshot
snap = snapshot_of (read_proc_snapshot whole)

reads : read_proc_snapshot whole ≡ done snap
unfolding read_proc_snapshot read_stat extract_word
reads = refl

lookup-read_proc_snapshot_example :
    lookup (pos 7) snap.by_pid ≡ (if lists (pos 7) entries then sample_at whole (pos 7) else none)
lookup-read_proc_snapshot_example = lookup-read_proc_snapshot whole entries snap (pos 7) refl reads

read_proc_snapshot-thrown_example : read_proc_snapshot cut ≡ thrown
unfolding lists read_stat read_first_cpu_line pid_of extract_word
read_proc_snapshot-thrown_example =
    read_proc_snapshot-thrown cut 4 entries (pos 7) refl refl refl refl
