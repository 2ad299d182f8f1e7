-- ===== src/Sampler/Processes.antt =====
-- The process table that two rounds of the sampler leave for GET /api/processes.
use system_monitoring_dashbo.Prelude.{
  ℕ, ◌≡◌, sym, ap, ◌∙◌, Bool, true, false, Option, none, some, List, take, length,
}
use system_monitoring_dashbo.Prelude.Text.{Text, codes}
use system_monitoring_dashbo.Prelude.Dict.{lookup, lookup-insert, text_key}
use system_monitoring_dashbo.Prelude.Double.{Double}
use system_monitoring_dashbo.Json.{Json}
use system_monitoring_dashbo.Store.{Store, put_snapshot, get_snapshot, or_null}
use system_monitoring_dashbo.Cpu.{
  CoreState, TotalState, get_cpu_core_percent, get_cpu_total_percent,
}
use mathlib.Core.List.{Permᴰ}
use system_monitoring_dashbo.Proc.{ProcRow, ProcSnapshot, compute_proc_rows, top_by_cpu}
use system_monitoring_dashbo.Proc.Order.{IsTotal, IsSorted}
use system_monitoring_dashbo.Proc.Table.{kept_of, top_by_cpu-take}
use system_monitoring_dashbo.Proc.Stat.{done}
use system_monitoring_dashbo.Proc.Snapshot.{read_proc_snapshot}
use system_monitoring_dashbo.Api.{Reply, write_json_response}
use system_monitoring_dashbo.Api.Routes.{processes}
use system_monitoring_dashbo.Sampler.{
  Readings, Sampler, serialize_process_rows, sample_process_metrics, sample_all, keep_all,
  current_of, round_from, sample_round,
}
use system_monitoring_dashbo.Sampler.Round.{store_or}

module _ {W J : Type 0} ⦃d : Double W⦄ (j : Json W J) (host : Text)
    (pw_name : ℕ → Option Text) where
  -- The rows of two snapshots, in JSON.
  abbrev table : ProcSnapshot → ProcSnapshot → J
  table previous current = serialize_process_rows j (top_by_cpu pw_name previous current 128)

  -- What a round leaves, if it read a snapshot.
  abbrev IsKept : Sampler W → ProcSnapshot → Sampler W → Store W J → Type 0
  IsKept before current after written =
      (after.previous ≡ current)
      × (after.have_previous ≡ true)
      × (before.have_previous ≡ true
          → lookup (codes "processes") written.snapshots ≡ some (table before.previous current))

  lookup-sample_process_metrics :
      (current previous : ProcSnapshot) (have_previous : Bool) (s : Store W J)
      → have_previous ≡ true
      → lookup
          (codes "processes")
          (sample_process_metrics j pw_name (some current) previous have_previous s).snapshots
        ≡ some (table previous current)
  unfolding sample_process_metrics put_snapshot
  lookup-sample_process_metrics current previous true s h =
      lookup-insert (codes "processes") (codes "processes") (table previous current) s.snapshots
  lookup-sample_process_metrics current previous false s h = absurd (cc)

  sampler_or : Sampler W → Option (Sampler W × Store W J) → Sampler W
  sampler_or other none = other
  sampler_or other (some (after, _)) = after

  round_from-IsKept :
      (r : Readings) (p : W) (total : TotalState) (cores : Option (Bool × List W × CoreState))
      (current : ProcSnapshot) (before after : Sampler W) (s written : Store W J)
      → round_from j host pw_name r p total cores (some (some current)) before s
        ≡ some (after, written)
      → IsKept before current after written
  unfolding round_from keep_all sample_all sampler_or
  round_from-IsKept r p total none current before after s written e = absurd (cc)
  round_from-IsKept r p total (some (cores_read, cores, core)) current before after s written e =
      let kept = ap (sampler_or before) e in
      let stored = ap (store_or j host pw_name r s) e in
      (
        sym (ap Sampler.previous kept),
        sym (ap Sampler.have_previous kept),
        λ had.
            ap (λ (x : Store W J). lookup (codes "processes") x.snapshots) (sym stored)
            ∙ lookup-sample_process_metrics current before.previous before.have_previous _ had,
      )

  round-IsKept :
      (r : Readings) (current : ProcSnapshot) (before after : Sampler W) (s written : Store W J)
      → read_proc_snapshot r.processes ≡ done current
      → sample_round j host pw_name r before s ≡ some (after, written)
      → IsKept before current after written
  unfolding sample_round
  round-IsKept r current before after s written read e =
      let (p, total) = get_cpu_total_percent r.stat_total before.total in
      let cores = get_cpu_core_percent r.stat_core before.core_percent_buffer before.core in
      round_from-IsKept r p total cores current before after s written
        (ap (λ o. round_from j host pw_name r p total cores (current_of o) before s) (sym read) ∙ e)

  -- The rows of two snapshots, the processes that used the processor most first, are a rearrangement
  -- of the computed rows, and their beginning is what is replied.
  abbrev pub IsTable : ProcSnapshot → ProcSnapshot → Reply → Type 0
  IsTable previous current reply =
      (all : List (ProcRow W)) × Permᴰ all (compute_proc_rows pw_name previous current)
      × IsSorted all
      × (reply
          ≡ write_json_response j (serialize_process_rows j (take (kept_of 128 (length all)) all))
              200)

  -- Behind two rounds that do not fault and both read a snapshot of the processes, whatever was there
  -- before, GET /api/processes replies in JSON with the first 128 of the rows computed from the two
  -- snapshots, or with all if there are fewer, in an order in which no row uses more processor time
  -- than one before it: if doubles are compared totally and no array in JSON is null. The reply is what `write_json_response` makes of them, nothing if the library throws.
  pub processes-sample_round :
      (r₁ r₂ : Readings) (previous current : ProcSnapshot) (s₀ s₁ s₂ : Sampler W)
      (st₀ st₁ st₂ : Store W J)
      → IsTotal W
      → ((items : List J) → j.is_null (j.arr items) ≡ false)
      → read_proc_snapshot r₁.processes ≡ done previous
      → read_proc_snapshot r₂.processes ≡ done current
      → sample_round j host pw_name r₁ s₀ st₀ ≡ some (s₁, st₁)
      → sample_round j host pw_name r₂ s₁ st₁ ≡ some (s₂, st₂)
      → IsTable previous current (processes j st₂)
  unfolding processes get_snapshot serialize_process_rows
  processes-sample_round r₁ r₂ previous current s₀ s₁ s₂ st₀ st₁ st₂ order full read₁ read₂ e₁ e₂ =
      let (kept, had, _) = round-IsKept r₁ previous s₀ s₁ st₀ st₁ read₁ e₁ in
      let (_, _, stored) = round-IsKept r₂ current s₁ s₂ st₁ st₂ read₂ e₂ in
      let found = ap (or_null j.null) (stored had ∙ ap (λ x. some (table x current)) kept) in
      let (all, same, sorted, first) = top_by_cpu-take pw_name previous current 128 order in
      (
        all,
        same,
        sorted,
        rw (processes, found, full _)
            (ap (λ rows. write_json_response j (serialize_process_rows j rows) 200) first),
      )
