-- ===== src/Proc/Tests.antt =====
-- Concrete process tables.
use system_monitoring_dashbo.Prelude.{ℕ, ◌≡◌, refl, Option, none, List, [], ◌∷◌, map, take, length}
use mathlib.Core.List.{Permᴰ}
use system_monitoring_dashbo.Prelude.Int.{pos}
use system_monitoring_dashbo.Prelude.Text.{Text, codes}
use system_monitoring_dashbo.Prelude.Double.{whole_double}
use system_monitoring_dashbo.Counter.{delta}
use system_monitoring_dashbo.Proc.{ProcSample, ProcSnapshot, ProcRow, compute_proc_rows, top_by_cpu}
use system_monitoring_dashbo.Proc.Order.{IsSorted, whole_double-IsTotal}
use system_monitoring_dashbo.Proc.Table.{kept_of, top_by_cpu-take}

abbrev sample : ℕ → ℕ → ProcSample
sample pid utime = record {
  pid = pos pid;
  ppid = pos 1;
  utime_ticks = utime;
  stime_ticks = 10;
  starttime_ticks = 0;
  rss_kb = 2048;
  ctx_switches = 0;
  threads = 1;
  priority = pos 20;
  nice = pos 0;
  uid = 0;
  state = b'S';
  comm = codes "sh";
  cmdline = [];
}

abbrev before : ProcSnapshot
before = record {
  total_jiffies = 1000;
  by_pid = (pos 7, sample 7 0) ∷ (pos 8, sample 8 0) ∷ [];
  memtotal_kb = 8192;
  hz = pos 100;
}

abbrev after : ProcSnapshot
after = record {
  total_jiffies = 1200;
  by_pid = (pos 9, sample 9 500) ∷ (pos 7, sample 7 200) ∷ (pos 8, sample 8 400) ∷ [];
  memtotal_kb = 8192;
  hz = pos 100;
}

abbrev no_names : ℕ → Option Text
no_names uid = none

top_by_cpu-take_example :
    (all : List (ProcRow ℕ)) × Permᴰ all (compute_proc_rows no_names before after)
    × IsSorted all
    × (top_by_cpu no_names before after 2 ≡ take (kept_of 2 (length all)) all)
top_by_cpu-take_example = top_by_cpu-take no_names before after 2 whole_double-IsTotal

top_test : map (λ (r : ProcRow ℕ). r.pid) (top_by_cpu no_names before after 2) ≡ pos 8 ∷ pos 7 ∷ []
unfolding top_by_cpu delta
top_test = refl
