-- ===== src/Sampler/Example.antt =====
-- The variables of the thread at its start, and what a round may read.
use system_monitoring_dashbo.Prelude.{ℕ, true, false, none, some, [], ◌∷◌}
use system_monitoring_dashbo.Prelude.Int.{pos}
use system_monitoring_dashbo.Prelude.Text.{codes}
use system_monitoring_dashbo.Proc.{ProcSnapshot}
use system_monitoring_dashbo.Proc.Snapshot.{ProcFiles, ProcDir}
use system_monitoring_dashbo.Sampler.{Readings, Sampler}

abbrev pub nothing : ProcSnapshot
nothing = record { total_jiffies = 0; by_pid = []; memtotal_kb = 0; hz = pos 0 }

abbrev pub start : Sampler ℕ
start = record {
  total = record {
    last_total = record {
      user = 0;
      nice = 0;
      system = 0;
      idle = 0;
      iowait = 0;
      irq = 0;
      softirq = 0;
      steal = 0;
    };
    initialized = false;
  };
  core = record { last_per_cpu = []; initialized = false };
  core_percent_buffer = [];
  disk = record { prev_values = []; initialized = false; prev_time = 0 };
  net = record { prev = []; initialized = false; prev_time = 0 };
  interface_rates = [];
  previous = nothing;
  have_previous = false;
}

abbrev pub shell : ProcFiles
shell = record {
  stat = some (codes "7 (sh) S 1 7 7 0 -1 4194304 12 0 0 0 3 4 0 0 20 0 1 0 50\n");
  status = some (codes "Name:\tsh\nUid:\t1000\t1000\nThreads:\t1\n");
  statm = some (codes "10 4 1\n");
  status_rss = none;
  cmdline = none;
}

abbrev pub proc_dir : ProcDir
proc_dir = record {
  ticks_per_second = pos 100;
  page_size = pos 4096;
  stat = some (codes "cpu  3 0 1 9 0 0 0 0\n");
  meminfo = some (codes "MemTotal: 4 kB\n");
  entries = some (record { considered = true; name = codes "7" } ∷ []);
  files = λ pid. shell;
  unset = 0;
}

abbrev pub readings : Readings
readings = record {
  timestamp_ms = pos 1000;
  stat_total = some (codes "cpu  3 0 1 9 0 0 0 0\ncpu0 1 0 1 5 0 0 0 0\n");
  stat_core = some (codes "cpu  3 0 1 9 0 0 0 0\ncpu0 1 0 1 5 0 0 0 0\n");
  meminfo = some (codes "MemTotal: 4 kB\nMemAvailable: 1 kB\n");
  diskstats = none;
  disk_time = 0;
  net_dev = none;
  net_time = 0;
  moved_from = [];
  processes = proc_dir;
}
