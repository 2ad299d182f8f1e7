-- ===== src/Proc/Stat/Tests.antt =====
-- Lines of /proc/[pid]/stat.
use system_monitoring_dashbo.Prelude.{◌≡◌, ◌↔◌, refl, arith, some, [], ◌∷◌, ◌++◌}
use system_monitoring_dashbo.Prelude.Int.{pos, negsuc}
use system_monitoring_dashbo.Prelude.Text.{Text, codes}
use system_monitoring_dashbo.Scan.{tokens}
use system_monitoring_dashbo.Proc.Stat.{thrown, done, first_line, read_stat, read_cmdline}
use system_monitoring_dashbo.Proc.Stat.Print.{StatLine, IsStatLine, print_stat, sample_of}
use system_monitoring_dashbo.Proc.Stat.Reading.{read_stat-print_stat}
use system_monitoring_dashbo.Proc.Stat.Faults.{IsCut, read_stat-thrown}

-- A name that holds what closes a name.
abbrev shell : StatLine
shell = record {
  comm = codes "sh) S (1";
  state = b'R';
  ppid = pos 1;
  skipped = pos 7 ∷ pos 7 ∷ pos 0 ∷ negsuc 0 ∷ pos 4194304 ∷ pos 1 ∷ pos 0 ∷ pos 0 ∷ pos 0 ∷ [];
  utime = 3;
  stime = 4;
  children = pos 0 ∷ pos 0 ∷ [];
  priority = pos 20;
  nice = negsuc 4;
  threads = pos 1 ∷ pos 0 ∷ [];
  starttime = 50;
  more = pos 1000 ∷ pos 0 ∷ [];
}

shell-IsStatLine : IsStatLine shell
shell-IsStatLine = record {
  comm_line = ground arith;
  state_visible = refl;
  state_open = λ e. omega arith;
  ppid_fits = ground arith;
  skipped_fit = ground arith;
  skipped_nine = refl;
  utime_fits = omega arith;
  stime_fits = omega arith;
  children_fit = ground arith;
  children_two = refl;
  priority_fits = ground arith;
  nice_fits = ground arith;
  threads_fit = ground arith;
  threads_two = refl;
  starttime_fits = omega arith;
}

read_stat-print_stat_example :
    read_stat (pos 7) (some (print_stat (pos 7) shell ++ b'\n' ∷ []))
    ≡ done (sample_of (pos 7) shell)
read_stat-print_stat_example = read_stat-print_stat (pos 7) shell [] shell-IsStatLine

abbrev cut : Text
cut = codes "7 (sh)"

read_stat-thrown_example :
    (read_stat (pos 7) (some cut) ≡ thrown) ↔ IsCut (first_line (tokens b'\n' cut))
read_stat-thrown_example = read_stat-thrown (pos 7) cut

thrown_test : read_stat (pos 7) (some cut) ≡ thrown
unfolding read_stat
thrown_test = refl

-- The arguments are joined by spaces.
cmdline_test : read_cmdline (some (codes "ls" ++ 0 ∷ codes "-l" ++ 0 ∷ [])) ≡ codes "ls -l"
unfolding read_cmdline
cmdline_test = refl
