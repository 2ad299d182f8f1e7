-- ===== src/Sampler/Visible.antt =====
-- What a round adds to the series of the whole host.
use system_monitoring_dashbo.Prelude.{
  ℕ, ◌≡◌, refl, sym, ap, ap₂, ◌∙◌, Bool, Option, none, some, List, ◌++◌, append-nil, keep_last,
  keep_last_all,
}
use mathlib.Core.Path.{subst}
use system_monitoring_dashbo.Prelude.Text.{Text, codes}
use system_monitoring_dashbo.Prelude.Dict.{text_key}
use system_monitoring_dashbo.Prelude.Double.{Double}
use system_monitoring_dashbo.Json.{Json}
use system_monitoring_dashbo.Store.{Store, Sample}
use system_monitoring_dashbo.Store.History.{scalar_log, scalars-run}
use system_monitoring_dashbo.Store.Lookup.{IsValid, scalars, length-scalars}
use system_monitoring_dashbo.Cpu.{
  CoreState, TotalState, get_cpu_core_percent, get_cpu_total_percent,
}
use system_monitoring_dashbo.Proc.{ProcSnapshot}
use system_monitoring_dashbo.Proc.Snapshot.{read_proc_snapshot}
use system_monitoring_dashbo.Sampler.{
  Readings, Sampler, selector_for, current_of, round_from, sample_all, sample_round,
}
use system_monitoring_dashbo.Sampler.Round.{store_or}
use system_monitoring_dashbo.Sampler.Entries.{
  sample_if, scalar_log-total_log, scalar_log-memory_log, scalar_log-round_log,
}
use system_monitoring_dashbo.Sampler.Log.{host_series, memory_reading, round_log, sample_all-run}

-- What a round with the processor percentage `p` leaves under the names of the whole host.
abbrev pub IsSampled :
    {W J : Type 0} ⦃d : Double W⦄ → Text → Readings → W → Store W J → Store W J → Type 0
IsSampled ⦃d⦄ host r p s written =
    let n = s.per_metric_capacity in
    let (ok, bytes) = memory_reading r in
    let cpu = host_series host (codes "cpu.total_pct") in
    let used = host_series host (codes "mem.used") in
    let free = host_series host (codes "mem.free") in
    (scalars written cpu
      ≡ keep_last n (scalars s cpu ++ sample_if (d.le (d.of_nat 0) p) r.timestamp_ms p))
    × (scalars written used
        ≡ keep_last n (scalars s used ++ sample_if ok r.timestamp_ms (d.of_nat bytes.used_bytes)))
    × (scalars written free
        ≡ keep_last n (scalars s free ++ sample_if ok r.timestamp_ms (d.of_nat bytes.free_bytes)))

module _ {W J : Type 0} ⦃d : Double W⦄ (j : Json W J) (host : Text)
    (pw_name : ℕ → Option Text) where
  module _ (r : Readings) (p : W) (cores_read : Bool) (cores : List W)
      (current : Option ProcSnapshot) (sampler : Sampler W) where
    -- The series of the whole host after the writes of a round.
    sample_all-scalars :
        (s : Store W J)
        → IsValid s
        → IsSampled host r p s (sample_all j host pw_name r p cores_read cores current sampler s)
    unfolding selector_for
    sample_all-scalars s v =
        let t = r.timestamp_ms in
        let (ok, bytes) = memory_reading r in
        let (cpu₁, used₁, free₁) = scalar_log-total_log J host t p in
        let (cpu₂, used₂, free₂) = scalar_log-memory_log {W = W} J host t ok bytes in
        let log = round_log j host pw_name r p cores_read cores current sampler in
        let made : (m : Text)
            → scalars (sample_all j host pw_name r p cores_read cores current sampler s) m
              ≡ keep_last s.per_metric_capacity (scalars s m ++ scalar_log m log) =
          λ m.
            ap (λ (x : Store W J). scalars x m)
              (sample_all-run j host pw_name r p cores_read cores current sampler s)
            ∙ scalars-run s log m s.per_metric_capacity (scalars s m) v refl
                (sym (keep_last_all s.per_metric_capacity (scalars s m) (length-scalars m v))) in
        let holds = λ (m : Text) (new : List (Sample W)) (e : scalar_log m log ≡ new).
          made m ∙ ap (λ l. keep_last s.per_metric_capacity (scalars s m ++ l)) e in
        (
          holds (host_series host (codes "cpu.total_pct")) (sample_if (d.le (d.of_nat 0) p) t p) (
              scalar_log-round_log j host pw_name r p cores_read cores current sampler b'c' _ refl
                refl
              ∙ ap₂ (λ a b. a ++ b) cpu₁ cpu₂
              ∙ append-nil (sample_if (d.le (d.of_nat 0) p) t p)),
          holds (host_series host (codes "mem.used")) (sample_if ok t (d.of_nat bytes.used_bytes)) (
              scalar_log-round_log j host pw_name r p cores_read cores current sampler b'm' _ refl
                refl
              ∙ ap₂ (λ a b. a ++ b) used₁ used₂),
          holds (host_series host (codes "mem.free")) (sample_if ok t (d.of_nat bytes.free_bytes)) (
              scalar_log-round_log j host pw_name r p cores_read cores current sampler b'm' _ refl
                refl
              ∙ ap₂ (λ a b. a ++ b) free₁ free₂),
        )

  module _ (r : Readings) (sampler : Sampler W) where
    round_from-scalars :
        (total : TotalState) (cores : Option (Bool × List W × CoreState))
        (current : Option (Option ProcSnapshot)) (s : Store W J) (after : Sampler W)
        (written : Store W J)
        → IsValid s
        → (round_from j host pw_name r
              (get_cpu_total_percent r.stat_total sampler.total).0
              total
              cores
              current
              sampler
              s
            ≡ some (after, written))
        → IsSampled host r (get_cpu_total_percent r.stat_total sampler.total).0 s written
    unfolding round_from
    round_from-scalars total none current s after written v e = absurd (cc)
    round_from-scalars total (some cores) none s after written v e = absurd (cc)
    round_from-scalars total (some (cores_read, cores, core)) (some current) s after written v e =
        subst
          (λ result. IsSampled host r (get_cpu_total_percent r.stat_total sampler.total).0 s result)
          (ap (store_or j host pw_name r s) e)
          (sample_all-scalars r (get_cpu_total_percent r.stat_total sampler.total).0 cores_read
            cores current sampler s v)

    -- A round that does not fault, on a valid store, appends to the series cpu.total_pct of the host the
    -- percentage that it computed, if that is not negative, and to mem.used and mem.free what it read of
    -- the memory, if it could be read, each with the round's time stamp and nothing else; a series that
    -- is full loses its oldest sample. No disk, interface or process that it reads changes these three.
    pub sample_round-scalars :
        (after : Sampler W) (s written : Store W J)
        → IsValid s
        → (sample_round j host pw_name r sampler s ≡ some (after, written))
        → IsSampled host r (get_cpu_total_percent r.stat_total sampler.total).0 s written
    unfolding sample_round
    sample_round-scalars after s written v e =
        round_from-scalars (get_cpu_total_percent r.stat_total sampler.total).1
          (get_cpu_core_percent r.stat_core sampler.core_percent_buffer sampler.core)
          (current_of (read_proc_snapshot r.processes)) s after written v e
