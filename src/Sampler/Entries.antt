-- ===== src/Sampler/Entries.antt =====
-- What the writes of a round have under the names of the whole host.
use system_monitoring_dashbo.Prelude.{
  ℕ, ◌≡◌, refl, ap, ◌∙◌, Bool, true, false, inl, inr, Option, none, some, List, [], ◌∷◌, ◌++◌,
  append-nil, if◌then◌else◌, Bool-cases, arith, ◌==◌,
}
use system_monitoring_dashbo.Prelude.Int.{ℤ}
use system_monitoring_dashbo.Prelude.Text.{Text, codes, text_eq_self}
use system_monitoring_dashbo.Prelude.Dict.{Dict, text_key}
use system_monitoring_dashbo.Prelude.Double.{Double}
use system_monitoring_dashbo.Json.{Json}
use system_monitoring_dashbo.Store.{Sample}
use system_monitoring_dashbo.Store.History.{Write, scalar, vector, snapshot, metadata, scalar_log}
use system_monitoring_dashbo.Memory.{MemBytes}
use system_monitoring_dashbo.Disk.{DiskIo, DiskState, get_disk_io}
use system_monitoring_dashbo.Net.{InterfaceRates, NetState, get_net_stats}
use system_monitoring_dashbo.Proc.{ProcSnapshot}
use system_monitoring_dashbo.Sampler.{Readings, Sampler, selector_for}
use system_monitoring_dashbo.Sampler.Log.{
  host_series, total_log, cores_log, memory_log, disks_log, interfaces_log, disk_log, network_log,
  process_log, memory_reading, round_log,
}

module _ {W J : Type 0} where
  scalar_log-concat :
      (m : Text) (a b : List (Write W J)) → scalar_log m (a ++ b) ≡ scalar_log m a ++ scalar_log m b
  scalar_log-concat m [] b = refl
  scalar_log-concat m (scalar k t v ∷ a) b = ground (arith, scalar_log-concat m a b)
  scalar_log-concat m (vector k t v ∷ a) b = scalar_log-concat m a b
  scalar_log-concat m (snapshot k v ∷ a) b = scalar_log-concat m a b
  scalar_log-concat m (metadata k v ∷ a) b = scalar_log-concat m a b

  skip_front :
      (m : Text) (a b : List (Write W J))
      → scalar_log m a ≡ []
      → scalar_log m (a ++ b) ≡ scalar_log m b
  skip_front m a b e = scalar_log-concat m a b ∙ ap (λ l. l ++ scalar_log m b) e

  skip_back :
      (m : Text) (a b : List (Write W J))
      → scalar_log m b ≡ []
      → scalar_log m (a ++ b) ≡ scalar_log m a
  skip_back m a b e =
      scalar_log-concat m a b ∙ ap (λ l. scalar_log m a ++ l) e ∙ append-nil (scalar_log m a)

module _ {W : Type 0} (J : Type 0) ⦃d : Double W⦄ (host : Text) (t : ℤ) where
  scalar_log-disks_log :
      (c : ℕ) (m : Text) (devices : List (DiskIo W))
      → (b'd' == c) ≡ false
      → scalar_log {J = J} (c ∷ m) (disks_log host t devices) ≡ []
  unfolding selector_for
  scalar_log-disks_log c m [] other = refl
  scalar_log-disks_log c m (io ∷ rest) other = rw other (scalar_log-disks_log c m rest other)

  scalar_log-interfaces_log :
      (c : ℕ) (m : Text) (rates : Dict Text (InterfaceRates W))
      → (b'n' == c) ≡ false
      → scalar_log {J = J} (c ∷ m) (interfaces_log host t rates) ≡ []
  unfolding selector_for
  scalar_log-interfaces_log c m [] other = refl
  scalar_log-interfaces_log c m ((iface, rate) ∷ rest) other =
      rw other (scalar_log-interfaces_log c m rest other)

  -- A name that begins with another letter is not written.
  scalar_log-disk_log :
      (c : ℕ) (m : Text) (result : Bool × List (DiskIo W) × DiskState)
      → (b'd' == c) ≡ false
      → scalar_log {J = J} (c ∷ m) (disk_log host t result) ≡ []
  scalar_log-disk_log c m (false, _, _) other = refl
  scalar_log-disk_log c m (true, devices, _) other = scalar_log-disks_log c m devices other

  scalar_log-network_log :
      (c : ℕ) (m : Text) (result : Bool × Dict Text (InterfaceRates W) × NetState)
      → (b'n' == c) ≡ false
      → scalar_log {J = J} (c ∷ m) (network_log host t result) ≡ []
  scalar_log-network_log c m (false, _, _) other = refl
  scalar_log-network_log c m (true, rates, _) other = scalar_log-interfaces_log c m rates other

  scalar_log-cores_log :
      (m : Text) (cores_read : Bool) (cores : List W)
      → scalar_log {J = J} m (cores_log host t cores_read cores) ≡ []
  scalar_log-cores_log m false cores = refl
  scalar_log-cores_log m true cores = refl

-- A sample, if there is one.
abbrev pub sample_if : {W : Type 0} → Bool → ℤ → W → List (Sample W)
sample_if b t value = if b then record { ts_ms = t; value = value } ∷ [] else []

module _ {W : Type 0} (J : Type 0) ⦃d : Double W⦄ (host : Text) (t : ℤ) where
  -- What the two logs have under the names of the whole host.
  pub scalar_log-total_log :
      (p : W)
      → (scalar_log {J = J} (host_series host (codes "cpu.total_pct")) (total_log host t p)
          ≡ sample_if (d.le (d.of_nat 0) p) t p)
        × (scalar_log {J = J} (host_series host (codes "mem.used")) (total_log host t p) ≡ [])
        × (scalar_log {J = J} (host_series host (codes "mem.free")) (total_log host t p) ≡ [])
  unfolding selector_for
  scalar_log-total_log p = elim (Bool-cases (d.le (d.of_nat 0) p)) [
    | inl known ↦
        rw (known, text_eq_self (host_series host (codes "cpu.total_pct"))) (refl, refl, refl)
    | inr failed ↦ rw failed (refl, refl, refl)
  ]

  pub scalar_log-memory_log :
      (ok : Bool) (mb : MemBytes)
      → (scalar_log {W = W} {J = J}
            (host_series host (codes "cpu.total_pct"))
            (memory_log host t (ok, mb))
          ≡ [])
        × (scalar_log {W = W} {J = J}
              (host_series host (codes "mem.used"))
              (memory_log host t (ok, mb))
            ≡ sample_if ok t (d.of_nat mb.used_bytes))
        × (scalar_log {W = W} {J = J}
              (host_series host (codes "mem.free"))
              (memory_log host t (ok, mb))
            ≡ sample_if ok t (d.of_nat mb.free_bytes))
  unfolding selector_for
  scalar_log-memory_log false mb = (refl, refl, refl)
  scalar_log-memory_log true mb =
      rw (text_eq_self (host_series host (codes "mem.used"))) (refl, refl, refl)

module _ {W J : Type 0} ⦃d : Double W⦄ (j : Json W J) (host : Text)
    (pw_name : ℕ → Option Text) where
  scalar_log-process_log :
      (m : Text) (current : Option ProcSnapshot) (previous : ProcSnapshot) (have_previous : Bool)
      → scalar_log m (process_log j host pw_name current previous have_previous) ≡ []
  scalar_log-process_log m none previous have_previous = refl
  scalar_log-process_log m (some current) previous false = refl
  scalar_log-process_log m (some current) previous true = refl

  module _ (r : Readings) (p : W) (cores_read : Bool) (cores : List W)
      (current : Option ProcSnapshot) (sampler : Sampler W) where
    -- Only the first log and the one of the memory write a name that begins with neither letter.
    pub scalar_log-round_log :
        (c : ℕ) (m : Text)
        → (b'd' == c) ≡ false
        → (b'n' == c) ≡ false
        → scalar_log (c ∷ m) (round_log j host pw_name r p cores_read cores current sampler)
          ≡ scalar_log (c ∷ m) (total_log {J = J} host r.timestamp_ms p)
            ++ scalar_log {W = W}
                (c ∷ m)
                (memory_log {J = J} host r.timestamp_ms (memory_reading r))
    scalar_log-round_log c m other_d other_n =
        let t = r.timestamp_ms in
        let l₁ = total_log {J = J} host t p in
        let l₂ = cores_log {J = J} host t cores_read cores in
        let l₃ = memory_log {W = W} {J = J} host t (memory_reading r) in
        let devices = get_disk_io r.diskstats r.disk_time sampler.disk in
        let rates =
          get_net_stats r.moved_from r.net_dev r.net_time sampler.interface_rates sampler.net in
        let l₄ = disk_log {J = J} host t devices in
        let l₅ = network_log {J = J} host t rates in
        let l₆ = process_log j host pw_name current sampler.previous sampler.have_previous in
        let none₆ : scalar_log (c ∷ m) l₆ ≡ [] =
          scalar_log-process_log (c ∷ m) current sampler.previous sampler.have_previous in
        let none₅ =
          skip_front (c ∷ m) l₅ l₆ (scalar_log-network_log J host t c m rates other_n) ∙ none₆ in
        let none₄ =
          skip_front (c ∷ m) l₄ (l₅ ++ l₆) (scalar_log-disk_log J host t c m devices other_d)
          ∙ none₅ in
        scalar_log-concat (c ∷ m) l₁ (l₂ ++ (l₃ ++ (l₄ ++ (l₅ ++ l₆))))
        ∙ ap (λ l. scalar_log (c ∷ m) l₁ ++ l)
            (skip_front (c ∷ m) l₂ (l₃ ++ (l₄ ++ (l₅ ++ l₆)))
                (scalar_log-cores_log J host t (c ∷ m) cores_read cores)
              ∙ skip_back (c ∷ m) l₃ (l₄ ++ (l₅ ++ l₆)) none₄)
