-- ===== src/Cpu/Tests.antt =====
-- Concrete readings of /proc/stat.
use system_monitoring_dashbo.Prelude.{
  ◌^◌, ◌<◌, ◌≡◌, ◌↔◌, refl, true, none, some, [], ◌∷◌, arith, length,
}
use system_monitoring_dashbo.Prelude.Text.{Text, codes}
use system_monitoring_dashbo.Prelude.Double.{◌≼◌, whole_double, whole_double-IsIeee}
use system_monitoring_dashbo.Counter.{delta}
use system_monitoring_dashbo.Cpu.{
  CpuTimes, CoreState, active_time, total_time, percent, read_proc_stat, get_cpu_core_percent,
}
use system_monitoring_dashbo.Cpu.Percent.{IsLater, percent_bounds}
use system_monitoring_dashbo.Cpu.Cores.{is_some, get_cpu_core_percent-none}

abbrev before : CpuTimes
before = record {
  user = 10;
  nice = 0;
  system = 5;
  idle = 80;
  iowait = 5;
  irq = 0;
  softirq = 0;
  steal = 0;
}

abbrev after : CpuTimes
after = record {
  user = 40;
  nice = 0;
  system = 15;
  idle = 130;
  iowait = 15;
  irq = 0;
  softirq = 0;
  steal = 0;
}

later : IsLater before after
later = record {
  user = omega arith;
  nice = omega arith;
  system = omega arith;
  idle = omega arith;
  iowait = omega arith;
  irq = omega arith;
  softirq = omega arith;
  steal = omega arith;
  small = omega arith;
}

abbrev grown : delta (total_time before) (total_time after) < 2 ^ 46
unfolding delta total_time active_time
grown = omega arith

percent_bounds_example :
    (whole_double.of_nat 0 ≼ percent before after)
    × (percent before after ≼ whole_double.of_nat 100)
percent_bounds_example = percent_bounds whole_double-IsIeee later grown

-- Two cores, where the last reading had one.
abbrev stat : Text
stat = codes "cpu  3 0 1 9 0 0 0 0\ncpu0 1 0 1 5 0 0 0 0\ncpu1 2 0 0 4 0 0 0 0\nintr 7\n"

abbrev one_core : CoreState
one_core = record { last_per_cpu = before ∷ []; initialized = true }

get_cpu_core_percent-none_example :
    (get_cpu_core_percent ⦃d = whole_double⦄ (some stat) [] one_core ≡ none) ↔ (
      (is_some (read_proc_stat (some stat)).total ≡ true)
      × (one_core.initialized ≡ true)
      × (length one_core.last_per_cpu < length (read_proc_stat (some stat)).per_cpu))
get_cpu_core_percent-none_example =
    get_cpu_core_percent-none ⦃d = whole_double⦄ (some stat) [] one_core

percent_test : percent before after ≡ whole_double.of_nat 40
unfolding percent active_time total_time delta
percent_test = refl

read_proc_stat_test : length (read_proc_stat (some stat)).per_cpu ≡ 2
unfolding read_proc_stat
read_proc_stat_test = refl
