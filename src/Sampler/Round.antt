-- ===== src/Sampler/Round.antt =====
-- A round of the sampler writes series of registered metrics, under names of `metric_with_labels`.
use system_monitoring_dashbo.Prelude.{
  ℕ, ◌≡◌, refl, ap, Bool, true, false, inl, inr, Option, none, some, List, [], ◌∷◌, Bool-cases, All,
  All-append,
}
use mathlib.Core.Path.{subst}
use system_monitoring_dashbo.Prelude.Int.{ℤ}
use system_monitoring_dashbo.Prelude.Text.{Text, codes}
use system_monitoring_dashbo.Prelude.Dict.{Dict, text_key}
use system_monitoring_dashbo.Prelude.Double.{Double}
use system_monitoring_dashbo.Json.{Json}
use system_monitoring_dashbo.Store.{Store}
use system_monitoring_dashbo.Store.History.{Write}
use system_monitoring_dashbo.Cpu.{
  CoreState, TotalState, get_cpu_core_percent, get_cpu_total_percent,
}
use system_monitoring_dashbo.Memory.{MemBytes}
use system_monitoring_dashbo.Disk.{DiskIo, DiskState, get_disk_io}
use system_monitoring_dashbo.Net.{InterfaceRates, NetState, get_net_stats}
use system_monitoring_dashbo.Proc.{ProcSnapshot}
use system_monitoring_dashbo.Proc.Snapshot.{read_proc_snapshot}
use system_monitoring_dashbo.Sampler.{
  Readings, Sampler, selector_for, round_from, sample_round, current_of,
}
use system_monitoring_dashbo.Sampler.Log.{
  memory_reading, total_log, cores_log, memory_log, disks_log, interfaces_log, disk_log,
  network_log, process_log, round_log, sample_all-run,
}
use system_monitoring_dashbo.Sampler.Named.{
  IsNamed, IsWritten, host-IsAllowed, disk-IsAllowed, net-IsAllowed,
}

module _ {W J : Type 0} ⦃d : Double W⦄ (j : Json W J) (host : Text) (t : ℤ) where
  abbrev AllNamed : List (Write W J) → Type 0
  AllNamed log = All (IsNamed host) log

  pub total_log-IsNamed : (p : W) → AllNamed (total_log host t p)
  unfolding selector_for
  total_log-IsNamed p = elim (Bool-cases (d.le (d.of_nat 0) p)) [
    | inl known ↦ rw known ((codes "cpu.total_pct", [], (host-IsAllowed host).0, refl, refl), tt)
    | inr failed ↦ rw failed tt
  ]

  cores_log-IsNamed : (cores_read : Bool) (ps : List W) → AllNamed (cores_log host t cores_read ps)
  unfolding selector_for
  cores_log-IsNamed false ps = tt
  cores_log-IsNamed true ps = ((codes "cpu.core_pct", [], (host-IsAllowed host).1, refl, refl), tt)

  memory_log-IsNamed : (result : Bool × MemBytes) → AllNamed (memory_log host t result)
  unfolding selector_for
  memory_log-IsNamed (false, bytes) = tt
  memory_log-IsNamed (true, bytes) =
      let (_, _, used, free) = host-IsAllowed host in
      ((codes "mem.used", [], used, refl, refl), ((codes "mem.free", [], free, refl, refl), tt))

  disks_log-IsNamed : (devices : List (DiskIo W)) → AllNamed (disks_log host t devices)
  unfolding selector_for
  disks_log-IsNamed [] = tt
  disks_log-IsNamed (io ∷ rest) =
      let label : Text × Text = (codes "dev", io.dev_name) in
      let (read, written) = disk-IsAllowed host io.dev_name in
      (
        (codes "disk.read", label ∷ [], read, refl, refl),
        ((codes "disk.write", label ∷ [], written, refl, refl), disks_log-IsNamed rest),
      )

  interfaces_log-IsNamed :
      (rates : Dict Text (InterfaceRates W)) → AllNamed (interfaces_log host t rates)
  unfolding selector_for
  interfaces_log-IsNamed [] = tt
  interfaces_log-IsNamed ((iface, rate) ∷ rest) =
      let label : Text × Text = (codes "iface", iface) in
      let (received, sent) = net-IsAllowed host iface in
      (
        (codes "net.rx", label ∷ [], received, refl, refl),
        ((codes "net.tx", label ∷ [], sent, refl, refl), interfaces_log-IsNamed rest),
      )

  disk_log-IsNamed :
      (result : Bool × List (DiskIo W) × DiskState) → AllNamed (disk_log host t result)
  disk_log-IsNamed (false, _, _) = tt
  disk_log-IsNamed (true, devices, _) = disks_log-IsNamed devices

  network_log-IsNamed :
      (result : Bool × Dict Text (InterfaceRates W) × NetState)
      → AllNamed (network_log host t result)
  network_log-IsNamed (false, _, _) = tt
  network_log-IsNamed (true, rates, _) = interfaces_log-IsNamed rates

module _ {W J : Type 0} ⦃d : Double W⦄ (j : Json W J) (host : Text)
    (pw_name : ℕ → Option Text) where
  process_log-IsNamed :
      (current : Option ProcSnapshot) (previous : ProcSnapshot) (have_previous : Bool)
      → All (IsNamed host) (process_log j host pw_name current previous have_previous)
  process_log-IsNamed none previous have_previous = tt
  process_log-IsNamed (some current) previous false = tt
  process_log-IsNamed (some current) previous true = (refl, tt)

  module _ (r : Readings) where
    pub round_log-IsNamed :
        (p : W) (cores_read : Bool) (cores : List W) (current : Option ProcSnapshot)
        (sampler : Sampler W)
        → All (IsNamed host) (round_log j host pw_name r p cores_read cores current sampler)
    round_log-IsNamed p cores_read cores current sampler =
        let t = r.timestamp_ms in
        let devices = get_disk_io r.diskstats r.disk_time sampler.disk in
        let rates =
          get_net_stats r.moved_from r.net_dev r.net_time sampler.interface_rates sampler.net in
        let join = All-append (IsNamed {W = W} {J = J} host) in
        join _ _ (total_log-IsNamed j host t p) (
          join _ _ (cores_log-IsNamed j host t cores_read cores) (
            join _ _ (memory_log-IsNamed j host t (memory_reading r)) (
              join _ _ (disk_log-IsNamed j host t devices) (
                join _ _ (network_log-IsNamed j host t rates)
                  (process_log-IsNamed current sampler.previous sampler.have_previous)))))

    -- The store of a result, and another one without a result.
    abbrev pub store_or : Store W J → Option (Sampler W × Store W J) → Store W J
    store_or other none = other
    store_or other (some (_, written)) = written

    round_from-IsWritten :
        (p : W) (total : TotalState) (cores : Option (Bool × List W × CoreState))
        (current : Option (Option ProcSnapshot)) (sampler : Sampler W) (s : Store W J)
        (after : Sampler W) (written : Store W J)
        → (round_from j host pw_name r p total cores current sampler s ≡ some (after, written))
        → IsWritten host s written
    unfolding round_from
    round_from-IsWritten p total none current sampler s after written e = absurd (cc)
    round_from-IsWritten p total (some cores) none sampler s after written e = absurd (cc)
    round_from-IsWritten p total (some (cores_read, cores, core)) (some current) sampler s after
          written e =
        subst (λ result. IsWritten host s result) (ap (store_or s) e)
          (
            round_log j host pw_name r p cores_read cores current sampler,
            round_log-IsNamed p cores_read cores current sampler,
            sample_all-run j host pw_name r p cores_read cores current sampler s,
          )

    -- A round that does not fault only writes the process table, and series whose names are made of
    -- a registered metric and labels that it allows, with the host first.
    pub sample_round-IsWritten :
        (sampler after : Sampler W) (s written : Store W J)
        → (sample_round j host pw_name r sampler s ≡ some (after, written))
        → IsWritten host s written
    unfolding sample_round
    sample_round-IsWritten sampler after s written e =
        let (p, total) = get_cpu_total_percent r.stat_total sampler.total in
        round_from-IsWritten p total
          (get_cpu_core_percent r.stat_core sampler.core_percent_buffer sampler.core)
          (current_of (read_proc_snapshot r.processes)) sampler s after written e
