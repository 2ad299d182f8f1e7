-- ===== src/Sampler.antt =====
-- collector/loop.cpp: one round of the sampler thread. What the round reads is an argument: the
-- texts of the files, the clock, and what the directory /proc holds.
-- What lives from round to round, the variables of the thread and the static variables of the
-- collectors, is the state.
pub mod Named
pub mod Round
pub mod Log
pub mod Kinds
pub mod Entries
pub mod Visible
pub mod Processes
pub mod Example
mod Tests
use system_monitoring_dashbo.Prelude.{
  ℕ, Bool, true, false, Option, none, some, List, [], ◌∷◌, ◌++◌, map, if◌then◌else◌,
}
use system_monitoring_dashbo.Prelude.Int.{ℤ, pos}
use system_monitoring_dashbo.Prelude.Text.{Text, codes}
use system_monitoring_dashbo.Prelude.Dict.{Dict}
use system_monitoring_dashbo.Prelude.Double.{Double}
use system_monitoring_dashbo.Json.{Json}
use system_monitoring_dashbo.Selector.{metric_with_labels}
use system_monitoring_dashbo.Store.{Store, append, append_vector, put_snapshot}
use system_monitoring_dashbo.Cpu.{
  CoreState, TotalState, get_cpu_core_percent, get_cpu_total_percent,
}
use system_monitoring_dashbo.Memory.{MemBytes, get_system_memory_bytes}
use system_monitoring_dashbo.Disk.{DiskIo, DiskState, get_disk_io}
use system_monitoring_dashbo.Net.{InterfaceRates, NetSnapshot, NetState, get_net_stats}
use system_monitoring_dashbo.Proc.{ProcRow, ProcSnapshot, top_by_cpu}
use system_monitoring_dashbo.Proc.Stat.{Outcome, rejected, thrown, done}
use system_monitoring_dashbo.Proc.Snapshot.{ProcDir, read_proc_snapshot}

-- `selector_for`
unfoldable pub selector_for : Text → List (Text × Text) → Text
unfolding metric_with_labels
selector_for metric_name labels = metric_with_labels metric_name labels

-- What a round reads.
pub record Readings : Type 0 where
  pub timestamp_ms : ℤ
  -- /proc/stat, as `get_cpu_total_percent` and then `get_cpu_core_percent` read it
  pub stat_total : Option Text
  pub stat_core : Option Text
  pub meminfo : Option Text
  pub diskstats : Option Text
  pub disk_time : ℕ
  pub net_dev : Option Text
  pub net_time : ℕ
  -- what a table holds that has been moved from
  pub moved_from : NetSnapshot
  pub processes : ProcDir

-- What lives from round to round.
pub record Sampler (W : Type 0) : Type 0 where
  pub total : TotalState
  pub core : CoreState
  pub core_percent_buffer : List W
  pub disk : DiskState
  pub net : NetState
  pub interface_rates : Dict Text (InterfaceRates W)
  pub previous : ProcSnapshot
  pub have_previous : Bool

-- The present snapshot, if there is one; `none` if an exception ends the thread.
abbrev pub current_of : Outcome ProcSnapshot → Option (Option ProcSnapshot)
current_of rejected = some none
current_of thrown = none
current_of (done current) = some (some current)

module _ {W J : Type 0} ⦃d : Double W⦄ (host : Text) (timestamp_ms : ℤ) where
  -- A metric of the whole host.
  unfoldable pub append_host : Text → W → Store W J → Store W J
  unfolding selector_for
  append_host metric value store =
      append store (selector_for metric ((codes "host", host) ∷ [])) timestamp_ms value

  -- A metric of one device or interface.
  unfoldable pub append_part : Text → Text → Text → W → Store W J → Store W J
  unfolding selector_for
  append_part metric label part value store =
      append store (selector_for metric ((codes "host", host) ∷ (label, part) ∷ [])) timestamp_ms
        value

  unfoldable pub sample_total : W → Store W J → Store W J
  unfolding append_host
  sample_total total_percent store =
      if d.le (d.of_nat 0) total_percent
      then append_host (codes "cpu.total_pct") total_percent store
      else store

  unfoldable pub sample_cores : Bool → List W → Store W J → Store W J
  unfolding selector_for
  sample_cores false core_percents store = store
  sample_cores true core_percents store =
      append_vector store (selector_for (codes "cpu.core_pct") ((codes "host", host) ∷ []))
        timestamp_ms core_percents

  unfoldable pub sample_memory : Bool × MemBytes → Store W J → Store W J
  unfolding append_host
  sample_memory (false, bytes) store = store
  sample_memory (true, bytes) store =
      append_host (codes "mem.free") (d.of_nat bytes.free_bytes)
        (append_host (codes "mem.used") (d.of_nat bytes.used_bytes) store)

  -- The loop over the devices; the buffer is empty if `get_disk_io` returned false.
  unfoldable pub sample_disks : List (DiskIo W) → Store W J → Store W J
  unfolding append_part
  sample_disks [] store = store
  sample_disks (device_io ∷ rest) store = sample_disks rest (
      append_part (codes "disk.write") (codes "dev") device_io.dev_name
        device_io.bytes_written_per_s
        (append_part (codes "disk.read") (codes "dev") device_io.dev_name device_io.bytes_read_per_s
          store))

  -- The loop over the interfaces.
  unfoldable pub sample_interfaces : Dict Text (InterfaceRates W) → Store W J → Store W J
  unfolding append_part
  sample_interfaces [] store = store
  sample_interfaces ((interface, rate) ∷ rest) store = sample_interfaces rest (
      append_part (codes "net.tx") (codes "iface") interface rate.tx_bytes_per_s
        (append_part (codes "net.rx") (codes "iface") interface rate.rx_bytes_per_s store))

  abbrev pub sample_disk_metrics : Bool × List (DiskIo W) × DiskState → Store W J → Store W J
  sample_disk_metrics (false, _, _) store = store
  sample_disk_metrics (true, disk_io_buffer, _) store = sample_disks disk_io_buffer store

  abbrev pub sample_network_metrics :
      Bool × Dict Text (InterfaceRates W) × NetState → Store W J → Store W J
  sample_network_metrics (false, _, _) store = store
  sample_network_metrics (true, interface_rates, _) store = sample_interfaces interface_rates store

module _ {W J : Type 0} ⦃d : Double W⦄ (j : Json W J) where
  unfoldable pub serialize_row : ProcRow W → J
  serialize_row row = j.obj (
      (codes "pid", j.int row.pid)
      ∷ (codes "ppid", j.int row.ppid)
      ∷ (codes "user", j.str row.user)
      ∷ (codes "name", j.str row.name)
      ∷ (codes "state", j.str (row.state ∷ []))
      ∷ (codes "cpu_pct", j.num row.cpu_pct)
      ∷ (codes "cpu_time_s", j.num row.cpu_time_s)
      ∷ (codes "threads", j.int (pos row.threads))
      ∷ (codes "idle_wakeups_per_s", j.num row.wakeups_per_s)
      ∷ (codes "rss_mb", j.num row.rss_mb)
      ∷ (codes "mem_pct", j.num row.mem_pct)
      ∷ (codes "priority", j.int row.priority)
      ∷ (codes "nice", j.int row.nice)
      ∷ [])

  unfoldable pub serialize_process_rows : List (ProcRow W) → J
  unfolding serialize_row
  serialize_process_rows rows = j.arr (map serialize_row rows)

  -- `kProcessTableLimit` is 128.
  unfoldable pub sample_process_metrics :
      (ℕ → Option Text) → Option ProcSnapshot → ProcSnapshot → Bool → Store W J → Store W J
  unfolding serialize_process_rows
  sample_process_metrics pw_name none previous have_previous store = store
  sample_process_metrics pw_name (some current) previous have_previous store =
      if have_previous
      then put_snapshot store (codes "processes")
          (serialize_process_rows (top_by_cpu pw_name previous current 128))
      else store

  -- `previous_snapshot` and `have_previous_snapshot` after the call.
  abbrev pub keep_snapshot : Option ProcSnapshot → ProcSnapshot → Bool → ProcSnapshot × Bool
  keep_snapshot none previous have_previous = (previous, have_previous)
  keep_snapshot (some current) previous have_previous = (current, true)

  module _ (host : Text) (pw_name : ℕ → Option Text) (r : Readings) where
    -- The writes of a round, in their order, from what the collectors return.
    unfoldable pub sample_all :
        W → Bool → List W → Option ProcSnapshot → Sampler W → Store W J → Store W J
    unfolding sample_total sample_cores sample_memory sample_process_metrics
    sample_all total_percent cores_read core_percents current s store =
        let after_total = sample_total host r.timestamp_ms total_percent store in
        let after_cores = sample_cores host r.timestamp_ms cores_read core_percents after_total in
        let no_bytes : MemBytes = record { total_bytes = 0; used_bytes = 0; free_bytes = 0 } in
        let after_memory =
          sample_memory host r.timestamp_ms (get_system_memory_bytes r.meminfo no_bytes)
            after_cores in
        let after_disk =
          sample_disk_metrics host r.timestamp_ms (get_disk_io r.diskstats r.disk_time s.disk)
            after_memory in
        let after_net =
          sample_network_metrics host r.timestamp_ms
            (get_net_stats r.moved_from r.net_dev r.net_time s.interface_rates s.net) after_disk in
        sample_process_metrics pw_name current s.previous s.have_previous after_net

    -- The state after a round.
    unfoldable pub keep_all :
        TotalState → CoreState → List W → Option ProcSnapshot → Sampler W → Sampler W
    keep_all total core core_percents current s =
        let (disk_read, disk_io, disk) = get_disk_io {W = W} r.diskstats r.disk_time s.disk in
        let (net_read, rates, net) =
          get_net_stats r.moved_from r.net_dev r.net_time s.interface_rates s.net in
        let (previous, have_previous) = keep_snapshot current s.previous s.have_previous in
        record {
          total = total;
          core = core;
          core_percent_buffer = core_percents;
          disk = disk;
          net = net;
          interface_rates = rates;
          previous = previous;
          have_previous = have_previous;
        }

    -- The part of a round behind the processor readings.
    unfoldable pub round_from :
        W
        → TotalState
        → Option (Bool × List W × CoreState)
        → Option (Option ProcSnapshot)
        → Sampler W
        → Store W J
        → Option (Sampler W × Store W J)
    unfolding sample_all keep_all
    round_from total_percent total none current s store = none
    round_from total_percent total (some cores) none s store = none
    round_from total_percent total (some (cores_read, core_percents, core)) (some current) s store =
        some (
          keep_all total core core_percents current s,
          sample_all total_percent cores_read core_percents current s store,
        )

    -- One round; `none` is the fault of `get_cpu_core_percent` or the exception of `read_stat`.
    unfoldable pub sample_round : Sampler W → Store W J → Option (Sampler W × Store W J)
    unfolding round_from read_proc_snapshot
    sample_round s store =
        let (total_percent, total) = get_cpu_total_percent r.stat_total s.total in
        round_from total_percent total
          (get_cpu_core_percent r.stat_core s.core_percent_buffer s.core)
          (current_of (read_proc_snapshot r.processes)) s store
