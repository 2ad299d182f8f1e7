-- ===== src/Proc.antt =====
-- collector/proc_linux.cpp: the process table, computed from two snapshots of /proc. A snapshot's
-- processes stand in the order in which its table is iterated. `getpwuid` is an argument. The readers
-- of the files stand in Stat, Status and Snapshot.
pub mod Stat
pub mod Status
pub mod Snapshot
pub mod Order
pub mod Table
mod Tests
use system_monitoring_dashbo.Prelude.{
  ℕ, ◌+◌, ◌-◌, ◌%◌, ◌^◌, Bool, true, false, not, ◌&&◌, ◌||◌, Option, none, some, List, [], ◌∷◌,
  ◌++◌, if◌then◌else◌, ltb, ◌==◌, take, length,
}
use system_monitoring_dashbo.Prelude.Int.{ℤ, pos, pos_part, leb_ℤ}
use system_monitoring_dashbo.Prelude.Text.{Text, codes, is_nil}
use system_monitoring_dashbo.Prelude.Dict.{Dict, lookup, int_eq, or_else}
use system_monitoring_dashbo.Prelude.Double.{Double}
use system_monitoring_dashbo.Scan.{show_ℕ}
use system_monitoring_dashbo.Counter.{delta}

pub record ProcSample : Type 0 where
  pub pid : ℤ
  pub ppid : ℤ
  pub utime_ticks : ℕ
  pub stime_ticks : ℕ
  pub starttime_ticks : ℕ
  pub rss_kb : ℕ
  pub ctx_switches : ℕ
  pub threads : ℕ
  pub priority : ℤ
  pub nice : ℤ
  pub uid : ℕ
  pub state : ℕ
  pub comm : Text
  pub cmdline : Text

pub record ProcSnapshot : Type 0 where
  pub total_jiffies : ℕ
  pub by_pid : Dict ℤ ProcSample
  pub memtotal_kb : ℕ
  pub hz : ℤ

pub record ProcRow (W : Type 0) : Type 0 where
  pub pid : ℤ
  pub ppid : ℤ
  pub user : Text
  pub name : Text
  pub state : ℕ
  pub cpu_pct : W
  pub cpu_time_s : W
  pub threads : ℕ
  pub wakeups_per_s : W
  pub rss_mb : W
  pub mem_pct : W
  pub priority : ℤ
  pub nice : ℤ

-- `username_from_uid`; the argument is the name that `getpwuid` finds.
abbrev pub username_from_uid : (ℕ → Option Text) → ℕ → Text
username_from_uid pw_name uid = or_else (pw_name uid) (show_ℕ uid)

-- The command line, or the name in brackets.
abbrev pub row_name : ProcSample → Text
row_name b = if is_nil b.cmdline then codes "[" ++ (b.comm ++ codes "]") else b.cmdline

-- `(int64_t) b - (int64_t) a`, or 0 if that is negative. A difference that overflows 64 bits, which
-- C++ leaves undefined, is exact here.
unfoldable pub signed_delta : ℕ → ℕ → ℕ
signed_delta a b =
    if ltb a (2 ^ 63)
    then (if ltb b (2 ^ 63) then delta a b else 0)
    else if ltb b (2 ^ 63)
    then b + 2 ^ 64 - a
    else delta a b

module _ {W : Type 0} ⦃d : Double W⦄ where
  -- `x > y`
  abbrev pub gt : W → W → Bool
  gt x y = d.le y x && not (d.le x y)

  -- `dt`: the seconds between the snapshots by the processors' ticks, 1.0 if that is not positive.
  unfoldable pub elapsed : ProcSnapshot → ProcSnapshot → W
  elapsed prev cur =
      let ticks =
        if ltb prev.total_jiffies cur.total_jiffies
        then cur.total_jiffies - prev.total_jiffies
        else 1 in
      let dt = d.div (d.of_nat ticks) (d.of_nat (pos_part cur.hz)) in
      if d.le dt (d.of_nat 0) then d.of_nat 1 else dt

  -- `cpu_pct` of a process that both snapshots have.
  unfoldable pub cpu_share : W → ProcSnapshot → ProcSample → ProcSample → W
  unfolding signed_delta
  cpu_share dt cur a b =
      let dut = signed_delta a.utime_ticks b.utime_ticks in
      let dst = signed_delta a.stime_ticks b.stime_ticks in
      let dproc_s = d.div (d.of_nat (dut + dst)) (d.of_nat (pos_part cur.hz)) in
      if gt dt (d.of_nat 0) then d.div (d.mul (d.of_nat 100) dproc_s) dt else d.of_nat 0

  -- `wakeups_per_s` of a process that both snapshots have.
  unfoldable pub wakeups : W → ProcSample → ProcSample → W
  unfolding signed_delta
  wakeups dt a b =
      let dcs = signed_delta a.ctx_switches b.ctx_switches in
      if gt dt (d.of_nat 0) then d.div (d.of_nat dcs) dt else d.of_nat 0

  -- A row with the two values that need the earlier snapshot.
  unfoldable pub make_row : (ℕ → Option Text) → ProcSnapshot → ℤ → ProcSample → W → W → ProcRow W
  make_row pw_name cur pid b cpu_pct wakeups_per_s =
      let memtotal_kb = d.of_nat cur.memtotal_kb in
      record {
        pid = pid;
        ppid = b.ppid;
        user = username_from_uid pw_name b.uid;
        name = row_name b;
        state = b.state;
        cpu_pct = cpu_pct;
        cpu_time_s =
            d.div (d.of_nat ((b.utime_ticks + b.stime_ticks) % 2 ^ 64))
              (d.of_nat (pos_part cur.hz));
        threads = b.threads;
        wakeups_per_s = wakeups_per_s;
        rss_mb = d.div (d.of_nat b.rss_kb) (d.of_nat 1024);
        mem_pct =
            if gt memtotal_kb (d.of_nat 0)
            then d.div (d.mul (d.of_nat 100) (d.of_nat b.rss_kb)) memtotal_kb
            else d.of_nat 0;
        priority = b.priority;
        nice = b.nice;
      }

  -- A new process has no differences yet.
  unfoldable pub row_of :
      (ℕ → Option Text) → W → ProcSnapshot → ℤ → Option ProcSample → ProcSample → ProcRow W
  unfolding make_row cpu_share wakeups
  row_of pw_name dt cur pid none b = make_row pw_name cur pid b (d.of_nat 0) (d.of_nat 0)
  row_of pw_name dt cur pid (some a) b =
      make_row pw_name cur pid b (cpu_share dt cur a b) (wakeups dt a b)

  -- The loop over the processes of the present snapshot.
  unfoldable pub rows_of :
      (ℕ → Option Text) → W → ProcSnapshot → ProcSnapshot → Dict ℤ ProcSample → List (ProcRow W)
  unfolding row_of lookup
  rows_of pw_name dt prev cur [] = []
  rows_of pw_name dt prev cur ((pid, b) ∷ by_pid) =
      row_of pw_name dt cur pid (lookup pid prev.by_pid) b ∷ rows_of pw_name dt prev cur by_pid

  unfoldable pub compute_proc_rows :
      (ℕ → Option Text) → ProcSnapshot → ProcSnapshot → List (ProcRow W)
  unfolding rows_of elapsed
  compute_proc_rows pw_name prev cur =
      if leb_ℤ prev.hz (pos 0) || leb_ℤ cur.hz (pos 0)
      then []
      else rows_of pw_name (elapsed prev cur) prev cur cur.by_pid

  -- `std::stable_sort` by `x.cpu_pct > y.cpu_pct`: a row goes in front of the later rows that do
  -- not come before it.
  unfoldable pub insert_row : ProcRow W → List (ProcRow W) → List (ProcRow W)
  insert_row r [] = r ∷ []
  insert_row r (x ∷ rows) =
      let later = insert_row r rows in if gt x.cpu_pct r.cpu_pct then x ∷ later else r ∷ x ∷ rows

  unfoldable pub stable_sort : List (ProcRow W) → List (ProcRow W)
  unfolding insert_row
  stable_sort [] = []
  stable_sort (r ∷ rows) = insert_row r (stable_sort rows)

  -- `if (limit && rows.size() > limit) rows.resize(limit);`
  abbrev pub limit_rows : ℕ → List (ProcRow W) → List (ProcRow W)
  limit_rows limit rows =
      if not (limit == 0) && ltb limit (length rows) then take limit rows else rows

  unfoldable pub top_by_cpu : (ℕ → Option Text) → ProcSnapshot → ProcSnapshot → ℕ → List (ProcRow W)
  unfolding compute_proc_rows stable_sort
  top_by_cpu pw_name prev cur limit =
      limit_rows limit (stable_sort (compute_proc_rows pw_name prev cur))
