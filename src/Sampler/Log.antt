-- ===== src/Sampler/Log.antt =====
-- A round of the sampler as the list of its writes.
use system_monitoring_dashbo.Prelude.{
  ℕ, ◌≡◌, refl, ap, ◌∙◌, Bool, true, false, inl, inr, Option, none, some, List, [], ◌∷◌, ◌++◌,
  if◌then◌else◌, Bool-cases,
}
use system_monitoring_dashbo.Prelude.Int.{ℤ}
use system_monitoring_dashbo.Prelude.Text.{Text, codes}
use system_monitoring_dashbo.Prelude.Dict.{Dict, text_key}
use system_monitoring_dashbo.Prelude.Double.{Double}
use system_monitoring_dashbo.Json.{Json}
use system_monitoring_dashbo.Store.{Store}
use system_monitoring_dashbo.Store.History.{Write, scalar, vector, snapshot, write, run, run-concat}
use system_monitoring_dashbo.Memory.{MemBytes, get_system_memory_bytes}
use system_monitoring_dashbo.Disk.{DiskIo, DiskState, get_disk_io}
use system_monitoring_dashbo.Net.{InterfaceRates, NetState, get_net_stats}
use system_monitoring_dashbo.Proc.{ProcSnapshot, top_by_cpu}
use system_monitoring_dashbo.Sampler.{
  selector_for, append_host, append_part, sample_total, sample_cores, sample_memory, sample_disks,
  sample_interfaces, sample_disk_metrics, sample_network_metrics, sample_process_metrics,
  serialize_process_rows, Readings, Sampler, sample_all,
}

-- What a round reads of the memory.
abbrev pub memory_reading : Readings → Bool × MemBytes
memory_reading r =
    get_system_memory_bytes r.meminfo (record { total_bytes = 0; used_bytes = 0; free_bytes = 0 })

-- The name of a metric of the whole host.
abbrev pub host_series : Text → Text → Text
host_series host metric = selector_for metric ((codes "host", host) ∷ [])

abbrev pub part_series : Text → Text → Text → Text → Text
part_series host metric label part = selector_for metric ((codes "host", host) ∷ (label, part) ∷ [])

module _ {W J : Type 0} ⦃d : Double W⦄ (host : Text) (t : ℤ) where
  abbrev pub total_log : W → List (Write W J)
  total_log p =
      if d.le (d.of_nat 0) p then scalar (host_series host (codes "cpu.total_pct")) t p ∷ [] else []

  abbrev pub cores_log : Bool → List W → List (Write W J)
  cores_log false ps = []
  cores_log true ps = vector (host_series host (codes "cpu.core_pct")) t ps ∷ []

  abbrev pub memory_log : Bool × MemBytes → List (Write W J)
  memory_log (false, mb) = []
  memory_log (true, mb) =
      scalar (host_series host (codes "mem.used")) t (d.of_nat mb.used_bytes)
      ∷ scalar (host_series host (codes "mem.free")) t (d.of_nat mb.free_bytes)
      ∷ []

  abbrev pub disks_log : List (DiskIo W) → List (Write W J)
  disks_log [] = []
  disks_log (io ∷ rest) =
      scalar (part_series host (codes "disk.read") (codes "dev") io.dev_name) t io.bytes_read_per_s
      ∷ scalar (part_series host (codes "disk.write") (codes "dev") io.dev_name) t
          io.bytes_written_per_s
      ∷ disks_log rest

  abbrev pub interfaces_log : Dict Text (InterfaceRates W) → List (Write W J)
  interfaces_log [] = []
  interfaces_log ((iface, rate) ∷ rest) =
      scalar (part_series host (codes "net.rx") (codes "iface") iface) t rate.rx_bytes_per_s
      ∷ scalar (part_series host (codes "net.tx") (codes "iface") iface) t rate.tx_bytes_per_s
      ∷ interfaces_log rest

  abbrev pub disk_log : Bool × List (DiskIo W) × DiskState → List (Write W J)
  disk_log (false, _, _) = []
  disk_log (true, devices, _) = disks_log devices

  abbrev pub network_log : Bool × Dict Text (InterfaceRates W) × NetState → List (Write W J)
  network_log (false, _, _) = []
  network_log (true, rates, _) = interfaces_log rates

  sample_total-run : (p : W) (s : Store W J) → sample_total host t p s ≡ run s (total_log p)
  unfolding sample_total append_host run write
  sample_total-run p s = elim (Bool-cases (d.le (d.of_nat 0) p)) [
    | inl known ↦ rw known refl
    | inr failed ↦ rw failed refl
  ]

  sample_cores-run :
      (cores_read : Bool) (ps : List W) (s : Store W J)
      → sample_cores host t cores_read ps s ≡ run s (cores_log cores_read ps)
  unfolding sample_cores run write
  sample_cores-run false ps s = refl
  sample_cores-run true ps s = refl

  sample_memory-run :
      (result : Bool × MemBytes) (s : Store W J)
      → sample_memory host t result s ≡ run s (memory_log result)
  unfolding sample_memory append_host run write
  sample_memory-run (false, mb) s = refl
  sample_memory-run (true, mb) s = refl

  sample_disks-run :
      (devices : List (DiskIo W)) (s : Store W J)
      → sample_disks host t devices s ≡ run s (disks_log devices)
  unfolding sample_disks append_part run write
  sample_disks-run [] s = refl
  sample_disks-run (io ∷ rest) s = sample_disks-run rest _

  sample_interfaces-run :
      (rates : Dict Text (InterfaceRates W)) (s : Store W J)
      → sample_interfaces host t rates s ≡ run s (interfaces_log rates)
  unfolding sample_interfaces append_part run write
  sample_interfaces-run [] s = refl
  sample_interfaces-run ((iface, rate) ∷ rest) s = sample_interfaces-run rest _

  sample_disk_metrics-run :
      (result : Bool × List (DiskIo W) × DiskState) (s : Store W J)
      → sample_disk_metrics host t result s ≡ run s (disk_log result)
  unfolding run
  sample_disk_metrics-run (false, _, _) s = refl
  sample_disk_metrics-run (true, devices, _) s = sample_disks-run devices s

  sample_network_metrics-run :
      (result : Bool × Dict Text (InterfaceRates W) × NetState) (s : Store W J)
      → sample_network_metrics host t result s ≡ run s (network_log result)
  unfolding run
  sample_network_metrics-run (false, _, _) s = refl
  sample_network_metrics-run (true, rates, _) s = sample_interfaces-run rates s

behind :
    {W J : Type 0} ⦃d : Double W⦄ (s after : Store W J) (log rest : List (Write W J))
    → after ≡ run s log
    → run after rest ≡ run s (log ++ rest)
behind s after log rest made = ap (λ x. run x rest) made ∙ run-concat s log rest

module _ {W J : Type 0} ⦃d : Double W⦄ (j : Json W J) (host : Text)
    (pw_name : ℕ → Option Text) where
  abbrev pub process_log : Option ProcSnapshot → ProcSnapshot → Bool → List (Write W J)
  process_log none previous have_previous = []
  process_log (some current) previous false = []
  process_log (some current) previous true =
      snapshot (codes "processes")
        (serialize_process_rows j (top_by_cpu pw_name previous current 128))
      ∷ []

  sample_process_metrics-run :
      (current : Option ProcSnapshot) (previous : ProcSnapshot) (have_previous : Bool)
      (s : Store W J)
      → sample_process_metrics j pw_name current previous have_previous s
        ≡ run s (process_log current previous have_previous)
  unfolding sample_process_metrics run write
  sample_process_metrics-run none previous have_previous s = refl
  sample_process_metrics-run (some current) previous false s = refl
  sample_process_metrics-run (some current) previous true s = refl

  module _ (r : Readings) (p : W) (cores_read : Bool) (cores : List W)
      (current : Option ProcSnapshot) (sampler : Sampler W) where
    -- The writes of a round, in their order.
    abbrev pub round_log : List (Write W J)
    round_log =
        total_log host r.timestamp_ms p
        ++ (cores_log host r.timestamp_ms cores_read cores
            ++ (memory_log host r.timestamp_ms (memory_reading r)
                ++ (disk_log host r.timestamp_ms (get_disk_io r.diskstats r.disk_time sampler.disk)
                    ++ (network_log host r.timestamp_ms (
                          get_net_stats r.moved_from r.net_dev r.net_time sampler.interface_rates
                            sampler.net)
                        ++ process_log current sampler.previous sampler.have_previous))))

    pub sample_all-run :
        (s : Store W J)
        → sample_all j host pw_name r p cores_read cores current sampler s ≡ run s round_log
    unfolding sample_all
    sample_all-run s =
        let t = r.timestamp_ms in
        let devices = get_disk_io r.diskstats r.disk_time sampler.disk in
        let rates =
          get_net_stats r.moved_from r.net_dev r.net_time sampler.interface_rates sampler.net in
        let s₁ = sample_total host t p s in
        let s₂ = sample_cores host t cores_read cores s₁ in
        let s₃ = sample_memory host t (memory_reading r) s₂ in
        let s₄ = sample_disk_metrics host t devices s₃ in
        let s₅ = sample_network_metrics host t rates s₄ in
        sample_process_metrics-run current sampler.previous sampler.have_previous s₅
        ∙ behind s₄ s₅ _ _ (sample_network_metrics-run host t rates s₄)
        ∙ behind s₃ s₄ _ _ (sample_disk_metrics-run host t devices s₃)
        ∙ behind s₂ s₃ _ _ (sample_memory-run host t (memory_reading r) s₂)
        ∙ behind s₁ s₂ _ _ (sample_cores-run host t cores_read cores s₁)
        ∙ behind s s₁ _ _ (sample_total-run host t p s)
