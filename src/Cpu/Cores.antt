-- ===== src/Cpu/Cores.antt =====
-- `get_cpu_core_percent`: which results it gives, and when it reads behind the last reading.
use system_monitoring_dashbo.Prelude.{
  ◌<◌, ◌≡◌, ◌↔◌, refl, Bool, true, false, Option, none, some, List, [], ◌∷◌, arith, length,
  Bool-cases, inl, inr, Option-cases,
}
use system_monitoring_dashbo.Prelude.Text.{Text}
use system_monitoring_dashbo.Prelude.Double.{Double}
use system_monitoring_dashbo.Cpu.{
  CpuTimes, CoreState, read_proc_stat, core_percents, core_percent_from, core_percent_reading,
  get_cpu_core_percent,
}

-- `read_proc_stat` returned true.
abbrev pub is_some {ℓ} : {A : Type ℓ} → Option A → Bool
is_some none = false
is_some (some _) = true

module _ {W : Type 0} ⦃d : Double W⦄ where
  -- The loop reads past the last reading exactly when there are more cores than at the last
  -- reading.
  core_percents-none :
      (last cur : List CpuTimes)
      → (core_percents {W = W} last cur ≡ none) ↔ (length last < length cur)
  unfolding core_percents
  core_percents-none last [] = (λ e. cc, λ h. absurd (omega arith))
  core_percents-none [] (b ∷ cur) = (λ e. omega arith, λ h. refl)
  core_percents-none (a ∷ last) (b ∷ cur) =
      let (to, from) = core_percents-none last cur in
      elim (Option-cases (core_percents {W = W} last cur)) [
        | inl lost ↦ (λ e. let h = to lost in omega arith, λ h. rw lost)
        | inr (ps, found) ↦ (
          λ e. absurd (let e' = rw found at e in cc),
          λ h. let lost = from (omega arith) in absurd (cc),
        )
      ]

  core_percent_from-none :
      (cur : List CpuTimes) (out : List W) (s : CoreState)
      → (core_percent_from cur out s ≡ none)
        ↔ ((s.initialized ≡ true) × (length s.last_per_cpu < length cur))
  unfolding core_percent_from
  core_percent_from-none cur out s =
      let (to, from) = core_percents-none s.last_per_cpu cur in
      elim (Bool-cases s.initialized) [
        | inl old ↦ elim (Option-cases (core_percents {W = W} s.last_per_cpu cur)) [
          | inl lost ↦ (λ e. (old, to lost), λ h. ground (arith, lost, old))
          | inr (ps, found) ↦ (
            λ e. absurd (ground (arith, e, found, old)),
            λ (_, h). let lost = from h in absurd (cc (lost, found)),
          )
        ]
        | inr fresh ↦ (λ e. absurd (ground (arith, e, fresh)), λ (h, _). absurd (cc (h, fresh)))
      ]

  core_percent_reading-none :
      (t : Option CpuTimes) (cur : List CpuTimes) (out : List W) (s : CoreState)
      → (core_percent_reading t cur out s ≡ none)
        ↔ ((is_some t ≡ true) × (s.initialized ≡ true) × (length s.last_per_cpu < length cur))
  unfolding core_percent_reading
  core_percent_reading-none none cur out s = (λ e. absurd (cc), λ (h, _, _). absurd (cc))
  core_percent_reading-none (some t) [] out s =
      (λ e. absurd (cc), λ (_, _, h). absurd (omega arith))
  core_percent_reading-none (some t) (b ∷ rest) out s =
      let (to, from) = core_percent_from-none (b ∷ rest) out s in
      (λ e. let h = to e in (refl, h.0, h.1), λ (_, old, h). from (old, h))

  -- A call of `get_cpu_core_percent` reads behind the end of `last_per_cpu` exactly when the file
  -- has the total, an earlier call has stored a reading, and that reading has fewer cores.
  pub get_cpu_core_percent-none :
      (file : Option Text) (out : List W) (s : CoreState)
      → (get_cpu_core_percent file out s ≡ none) ↔ (
          (is_some (read_proc_stat file).total ≡ true)
          × (s.initialized ≡ true)
          × (length s.last_per_cpu < length (read_proc_stat file).per_cpu))
  unfolding get_cpu_core_percent
  get_cpu_core_percent-none file out s =
      core_percent_reading-none (read_proc_stat file).total (read_proc_stat file).per_cpu out s
