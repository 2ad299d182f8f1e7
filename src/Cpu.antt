-- ===== src/Cpu.antt =====
-- collector/cpu_linux.cpp: processor use from two readings of /proc/stat. A file is `none` if it
-- cannot be opened. The static variables of a function are its state.
pub mod Percent
pub mod Cores
mod Tests
use system_monitoring_dashbo.Prelude.{
  ℕ, ◌+◌, ◌-◌, ◌%◌, ◌^◌, Bool, true, false, not, Option, none, some, List, [], ◌∷◌, ◌++◌,
  if◌then◌else◌, ltb, ◌==◌, length, replicate, take,
}
use system_monitoring_dashbo.Prelude.Text.{Text, codes, starts_with, text_eq}
use system_monitoring_dashbo.Prelude.Double.{Double}
use system_monitoring_dashbo.Scan.{In, open_text, tokens, extract_u64, extract_word}
use system_monitoring_dashbo.Counter.{delta}

pub record CpuTimes : Type 0 where
  pub user : ℕ
  pub nice : ℕ
  pub system : ℕ
  pub idle : ℕ
  pub iowait : ℕ
  pub irq : ℕ
  pub softirq : ℕ
  pub steal : ℕ

-- `iss >> label >> t.user >> ... >> t.steal` on a fresh `t`
pub read_times : Text → Text × CpuTimes
unfolding extract_u64 extract_word
read_times line =
    let (label, i₀) = extract_word [] (open_text line) in
    let (user, i₁) = extract_u64 0 i₀ in
    let (nice, i₂) = extract_u64 0 i₁ in
    let (system, i₃) = extract_u64 0 i₂ in
    let (idle, i₄) = extract_u64 0 i₃ in
    let (iowait, i₅) = extract_u64 0 i₄ in
    let (irq, i₆) = extract_u64 0 i₅ in
    let (softirq, i₇) = extract_u64 0 i₆ in
    let (steal, i₈) = extract_u64 0 i₇ in
    (
      label,
      record {
        user = user;
        nice = nice;
        system = system;
        idle = idle;
        iowait = iowait;
        irq = irq;
        softirq = softirq;
        steal = steal;
      },
    )

-- What `read_proc_stat` has filled in: the times of each core, and the total if it was there.
pub record Reading : Type 0 where
  pub per_cpu : List CpuTimes
  pub total : Option CpuTimes

-- One line of the file that begins with "cpu".
pub read_line : Text → Reading → Reading
unfolding read_times
read_line line r =
    let (label, t) = read_times line in
    if text_eq label (codes "cpu")
    then record r { total = some t }
    else if ltb 3 (length label)
    then (if starts_with (codes "cpu") label
        then record r { per_cpu = r.per_cpu ++ (t ∷ []) }
        else r)
    else r

-- The loop over the lines; the first line that does not begin with "cpu" ends it.
pub read_lines : List Text → Reading → Reading
unfolding read_line
read_lines [] r = r
read_lines (line ∷ lines) r = elim (starts_with (codes "cpu") line) [
  | true ↦ read_lines lines (read_line line r)
  | false ↦ r
]

-- `read_proc_stat`; it returns whether the file was there and held the total.
pub read_proc_stat : Option Text → Reading
unfolding read_lines tokens
read_proc_stat none = record { per_cpu = []; total = none }
read_proc_stat (some file) = read_lines (tokens b'\n' file) (record { per_cpu = []; total = none })

-- Sums of `uint64_t`
unfoldable pub active_time : CpuTimes → ℕ
active_time t = (t.user + t.nice + t.system + t.irq + t.softirq + t.steal) % 2 ^ 64

unfoldable pub total_time : CpuTimes → ℕ
unfolding active_time
total_time t = (active_time t + t.idle + t.iowait) % 2 ^ 64

module _ {W : Type 0} ⦃d : Double W⦄ where
  -- The share of active time between two readings, in percent.
  unfoldable pub percent : CpuTimes → CpuTimes → W
  unfolding active_time total_time
  percent a b =
      let d_active = delta (active_time a) (active_time b) in
      let d_total = delta (total_time a) (total_time b) in
      if d_total == 0
      then d.of_nat 0
      else d.div (d.mul (d.of_nat 100) (d.of_nat d_active)) (d.of_nat d_total)

  -- The loop of `get_cpu_core_percent`; `none` is a read behind the end of `last_per_cpu`.
  unfoldable pub core_percents : List CpuTimes → List CpuTimes → Option (List W)
  core_percents last [] = some []
  core_percents [] (b ∷ cur) = none
  core_percents (a ∷ last) (b ∷ cur) = elim (core_percents last cur) [
    | none ↦ none
    | some ps ↦ some (percent a b ∷ ps)
  ]

  -- `out.resize(n, 0.0)`
  unfoldable pub resize : ℕ → List W → List W
  resize n out = take n out ++ replicate (n - length out) (d.of_nat 0)

-- The static variables of `get_cpu_core_percent` and of `get_cpu_total_percent`.
pub record CoreState : Type 0 where
  pub last_per_cpu : List CpuTimes
  pub initialized : Bool

pub record TotalState : Type 0 where
  pub last_total : CpuTimes
  pub initialized : Bool

module _ {W : Type 0} ⦃d : Double W⦄ where
  -- The part of `get_cpu_core_percent` behind the reading.
  unfoldable pub core_percent_from :
      List CpuTimes → List W → CoreState → Option (Bool × List W × CoreState)
  unfolding core_percents resize
  core_percent_from cur out s =
      let kept : CoreState = record { last_per_cpu = cur; initialized = true } in
      if not s.initialized
      then some (true, resize (length cur) out, kept)
      else elim (core_percents s.last_per_cpu cur) [ none ↦ none | some ps ↦ some (true, ps, kept) ]

  -- `!read_proc_stat(...) || cur_per_cpu.empty()` returns false.
  unfoldable pub core_percent_reading :
      Option CpuTimes → List CpuTimes → List W → CoreState → Option (Bool × List W × CoreState)
  unfolding core_percent_from
  core_percent_reading none cur out s = some (false, out, s)
  core_percent_reading (some _) [] out s = some (false, out, s)
  core_percent_reading (some _) (b ∷ cur) out s = core_percent_from (b ∷ cur) out s

  -- The result, the buffer and the static variables after the call; `none` is a fault.
  unfoldable pub get_cpu_core_percent :
      Option Text → List W → CoreState → Option (Bool × List W × CoreState)
  unfolding core_percent_reading read_proc_stat
  get_cpu_core_percent file out s =
      core_percent_reading (read_proc_stat file).total (read_proc_stat file).per_cpu out s

  unfoldable pub get_cpu_total_percent : Option Text → TotalState → W × TotalState
  unfolding percent read_proc_stat
  get_cpu_total_percent file s = elim (read_proc_stat file).total [
    | none ↦ (d.neg (d.of_nat 1), s)
    | some cur ↦
        let kept : TotalState = record { last_total = cur; initialized = true } in
        (if not s.initialized then d.of_nat 0 else percent s.last_total cur, kept)
  ]
