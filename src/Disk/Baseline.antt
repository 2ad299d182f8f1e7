-- ===== src/Disk/Baseline.antt =====
-- What `get_disk_io` remembers from one call to the next.
use system_monitoring_dashbo.Prelude.{
  ℕ, ◌≡◌, refl, sym, ap, ◌∙◌, Bool, true, false, Option, some, inl, inr, List, [], Bool-cases,
}
use system_monitoring_dashbo.Prelude.Text.{Text}
use system_monitoring_dashbo.Prelude.Dict.{Dict}
use system_monitoring_dashbo.Prelude.Double.{Double}
use system_monitoring_dashbo.Counter.{seconds_between}
use system_monitoring_dashbo.Disk.{
  Row, DiskInfo, DiskIo, DiskState, read_diskstats, disk_values, disk_deltas, aggregate, disk_rates,
  disk_step, disk_io_from, get_disk_io,
}

module _ {W : Type 0} ⦃d : Double W⦄ where
  -- The output of a call.
  abbrev pub output : (Bool × List (DiskIo W) × DiskState) → List (DiskIo W)
  output result = result.1

  -- The static variables after a call.
  abbrev pub kept : (Bool × List (DiskIo W) × DiskState) → DiskState
  kept result = result.2

  disk_io_from-kept :
      (rows : Dict Text Row) (time_now : ℕ) (s : DiskState)
      (result : Bool × List (DiskIo W) × DiskState)
      → (disk_io_from (some rows) time_now s ≡ result)
      → kept result
        ≡ record { prev_values = disk_values rows []; initialized = true; prev_time = time_now }
  unfolding disk_io_from disk_step
  disk_io_from-kept rows time_now s result e = elim (Bool-cases s.initialized) [
    | inl old ↦ elim (Bool-cases (d.le (seconds_between s.prev_time time_now) (d.of_nat 0))) [
      | inl still ↦ ap kept (sym e) ∙ rw (old, still) refl
      | inr ahead ↦ ap kept (sym e) ∙ rw (old, ahead) refl
    ]
    | inr fresh ↦ ap kept (sym e) ∙ rw fresh refl
  ]

  output_from_kept :
      (t₁ t₂ : ℕ) (prev_values : Dict Text DiskInfo) (rows : Dict Text Row)
      → (d.le (seconds_between t₁ t₂) (d.of_nat 0) ≡ false)
      → output (
          disk_io_from
            (some rows)
            t₂
            (record { prev_values = prev_values; initialized = true; prev_time = t₁ }))
        ≡ disk_rates
            (seconds_between t₁ t₂)
            (aggregate (disk_deltas prev_values (disk_values rows []) []) [])
  unfolding disk_io_from disk_step
  output_from_kept t₁ t₂ prev_values rows h = rw h refl

  -- Whatever the static variables are, the call after one with a readable file computes its output
  -- from the two readings and the time between them, if that is positive.
  pub get_disk_io-second :
      (first second : Option Text) (t₁ t₂ : ℕ) (s : DiskState) (rows₁ rows₂ : Dict Text Row)
      → (read_diskstats first ≡ some rows₁)
      → (read_diskstats second ≡ some rows₂)
      → (d.le (seconds_between t₁ t₂) (d.of_nat 0) ≡ false)
      → output (get_disk_io second t₂ (kept (get_disk_io first t₁ s)))
        ≡ disk_rates
            (seconds_between t₁ t₂)
            (aggregate (disk_deltas (disk_values rows₁ []) (disk_values rows₂ []) []) [])
  unfolding get_disk_io
  get_disk_io-second first second t₁ t₂ s rows₁ rows₂ found₁ found₂ ahead =
      rw (found₁, found₂)
        (ap (λ k. output (disk_io_from (some rows₂) t₂ k))
            (disk_io_from-kept rows₁ t₁ s (disk_io_from (some rows₁) t₁ s) refl)
          ∙ output_from_kept t₁ t₂ (disk_values rows₁ []) rows₂ ahead)
