-- ===== src/Proc/Status/Tests.antt =====
-- The loops at concrete files.
use system_monitoring_dashbo.Prelude.{◌≡◌, refl, some}
use system_monitoring_dashbo.Prelude.Int.{pos}
use system_monitoring_dashbo.Prelude.Text.{codes}
use system_monitoring_dashbo.Scan.{In, open_text, extract_word, extract_u64, extract_u32}
use system_monitoring_dashbo.Scan.Stream.{loop, get_line}
use system_monitoring_dashbo.Scan.Stream.Loop.{Ends}
use system_monitoring_dashbo.Proc.Stat.{no_sample}
use system_monitoring_dashbo.Proc.Status.{
  sum_round, find_round, status_round, read_first_cpu_line, read_memtotal_kb, read_status,
  rss_kb_from_proc,
}
use system_monitoring_dashbo.Proc.Status.Loops.{loops-Ends}

abbrev uid_line : In
uid_line = open_text (codes "Uid:\t7\n")

loops-Ends_example :
    Ends (status_round 0) no_sample uid_line (loop (status_round 0) no_sample uid_line)
    × Ends (find_round (codes "VmRSS:")) 0 uid_line (loop (find_round (codes "VmRSS:")) 0 uid_line)
    × Ends sum_round 0 uid_line (loop sum_round 0 uid_line)
loops-Ends_example = loops-Ends 0 no_sample (codes "VmRSS:") 0 0 uid_line

cpu_test : read_first_cpu_line (some (codes "cpu  1 2 3\ncpu0 1 2 3\n")) ≡ some 6
unfolding read_first_cpu_line extract_word extract_u64 extract_u32 get_line
cpu_test = refl

memory_test : read_memtotal_kb (some (codes "MemFree: 5 kB\nMemTotal: 8 kB\n")) ≡ 8
unfolding read_memtotal_kb extract_word extract_u64 extract_u32 get_line
memory_test = refl

-- The switches of both kinds are added up.
status_test :
    read_status 0
      (some (
        codes
          "Name:\tsh\nUid:\t7\t7\nThreads:\t2\nvoluntary_ctxt_switches:\t5\nnonvoluntary_ctxt_switches:\t6\n"))
      no_sample
    ≡ record no_sample { uid = 7; threads = 2; ctx_switches = 11 }
unfolding read_status extract_word extract_u64 extract_u32 get_line
status_test = refl

rss_test : rss_kb_from_proc (pos 4096) (some (codes "10 4 1\n")) (some (codes "VmRSS: 3 kB\n")) ≡ 16
unfolding rss_kb_from_proc extract_word extract_u64 extract_u32 get_line
rss_test = refl

fallback_test : rss_kb_from_proc (pos 4096) (some (codes "10\n")) (some (codes "VmRSS: 3 kB\n")) ≡ 3
unfolding rss_kb_from_proc extract_word extract_u64 extract_u32 get_line
fallback_test = refl
