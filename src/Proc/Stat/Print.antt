-- ===== src/Proc/Stat/Print.antt =====
-- A line of /proc/[pid]/stat as the kernel prints it. The name may hold spaces and parentheses.
use system_monitoring_dashbo.Prelude.{
  ℕ, ◌^◌, ◌<◌, ◌≡◌, ◌≢◌, false, List, [], ◌∷◌, ◌++◌, length, All,
}
use system_monitoring_dashbo.Prelude.Int.{ℤ, pos}
use system_monitoring_dashbo.Prelude.Text.{Text, Free}
use system_monitoring_dashbo.Scan.{is_space, show_ℤ}
use system_monitoring_dashbo.Scan.Stream.Printed.{print_fields, IsU64, IsInt32}
use system_monitoring_dashbo.Proc.{ProcSample}
use system_monitoring_dashbo.Proc.Stat.{no_sample}

-- What the kernel prints; `skipped`, `children` and `threads` are the fields that `read_stat` passes
-- over.
pub record StatLine : Type 0 where
  pub comm : Text
  pub state : ℕ
  pub ppid : ℤ
  pub skipped : List ℤ
  pub utime : ℕ
  pub stime : ℕ
  pub children : List ℤ
  pub priority : ℤ
  pub nice : ℤ
  pub threads : List ℤ
  pub starttime : ℕ
  pub more : List ℤ

-- The fields behind the state.
abbrev pub print_tail : StatLine → Text
print_tail l = print_fields (l.ppid ∷ []) (
    print_fields l.skipped (
      print_fields (pos l.utime ∷ []) (
        print_fields (pos l.stime ∷ []) (
          print_fields l.children (
            print_fields (l.priority ∷ []) (
              print_fields (l.nice ∷ []) (
                print_fields l.threads
                  (print_fields (pos l.starttime ∷ []) (print_fields l.more [])))))))))

-- The line with its end.
abbrev pub print_stat : ℤ → StatLine → Text
print_stat pid l =
    (show_ℤ pid ++ b' ' ∷ []) ++ b'(' ∷ (l.comm ++ b')' ∷ (b' ' ∷ (l.state ∷ print_tail l)))

-- Each field fits the type that it is read as.
pub record IsStatLine (l : StatLine) : Type 0 where
  pub comm_line : Free b'\n' l.comm
  pub state_visible : is_space l.state ≡ false
  pub state_open : l.state ≢ b')'
  pub ppid_fits : IsInt32 l.ppid
  pub skipped_fit : All IsU64 l.skipped
  pub skipped_nine : length l.skipped ≡ 9
  pub utime_fits : l.utime < 2 ^ 64
  pub stime_fits : l.stime < 2 ^ 64
  pub children_fit : All IsU64 l.children
  pub children_two : length l.children ≡ 2
  pub priority_fits : IsInt32 l.priority
  pub nice_fits : IsInt32 l.nice
  pub threads_fit : All IsU64 l.threads
  pub threads_two : length l.threads ≡ 2
  pub starttime_fits : l.starttime < 2 ^ 64

-- The sample that the line is read as.
abbrev pub sample_of : ℤ → StatLine → ProcSample
sample_of pid l = record no_sample {
  pid = pid;
  ppid = l.ppid;
  utime_ticks = l.utime;
  stime_ticks = l.stime;
  starttime_ticks = l.starttime;
  priority = l.priority;
  nice = l.nice;
  state = l.state;
  comm = l.comm;
}
