-- ===== src/Sampler/Tests.antt =====
-- A round of the sampler on a fresh store.
use system_monitoring_dashbo.Prelude.{arith, ℕ, ◌≡◌, refl, Option, none, some}
use system_monitoring_dashbo.Prelude.Text.{Text, codes}
use system_monitoring_dashbo.Prelude.Double.{whole_double}
use system_monitoring_dashbo.Json.Plain.{plain_json}
use system_monitoring_dashbo.Store.{Store, new}
use system_monitoring_dashbo.Cpu.{get_cpu_core_percent, get_cpu_total_percent}
use system_monitoring_dashbo.Store.Lookup.{IsValid}
use system_monitoring_dashbo.Store.Limits.{new-IsValid}
use system_monitoring_dashbo.Sampler.Visible.{IsSampled, sample_round-scalars}
use system_monitoring_dashbo.Proc.Snapshot.{read_proc_snapshot}
use system_monitoring_dashbo.Proc.Stat.{Outcome, rejected, thrown, done, read_stat}
use system_monitoring_dashbo.Sampler.Example.{start, readings, proc_dir, nothing}
use system_monitoring_dashbo.Scan.{extract_word}
use system_monitoring_dashbo.Proc.{ProcSnapshot}
use system_monitoring_dashbo.Proc.Order.{whole_double-IsTotal}
use system_monitoring_dashbo.Api.Routes.{processes}
use system_monitoring_dashbo.Sampler.Processes.{IsTable, processes-sample_round}
use system_monitoring_dashbo.Sampler.{Sampler, sample_round}

abbrev empty_store : Store ℕ Text
empty_store = new 3 1

abbrev no_names : ℕ → Option Text
no_names uid = none

abbrev after : Option (Sampler ℕ × Store ℕ Text)
after = sample_round plain_json (codes "pi") no_names readings start empty_store

abbrev state_after : Option (Sampler ℕ × Store ℕ Text) → Sampler ℕ
state_after none = start
state_after (some (s, _)) = s

abbrev store_after : Option (Sampler ℕ × Store ℕ Text) → Store ℕ Text
store_after none = empty_store
store_after (some (_, s)) = s

succeeds : after ≡ some (state_after after, store_after after)
unfolding sample_round get_cpu_core_percent read_proc_snapshot read_stat
succeeds = refl

empty_store-IsValid : IsValid empty_store
empty_store-IsValid = new-IsValid 3 1 (omega arith)

sample_round-scalars_example :
    IsSampled
      (codes "pi")
      readings
      (get_cpu_total_percent readings.stat_total start.total).0
      empty_store
      (store_after after)
sample_round-scalars_example =
    sample_round-scalars plain_json (codes "pi") no_names readings start (state_after after)
      empty_store (store_after after) empty_store-IsValid succeeds

abbrev second : Option (Sampler ℕ × Store ℕ Text)
second =
    sample_round plain_json (codes "pi") no_names readings (state_after after) (store_after after)

succeeds_again : second ≡ some (state_after second, store_after second)
unfolding sample_round get_cpu_core_percent read_proc_snapshot read_stat
succeeds_again = refl

abbrev snapshot_of : Outcome ProcSnapshot → ProcSnapshot
snapshot_of rejected = nothing
snapshot_of thrown = nothing
snapshot_of (done s) = s

abbrev snap : ProcSnapshot
snap = snapshot_of (read_proc_snapshot proc_dir)

reads : read_proc_snapshot proc_dir ≡ done snap
unfolding read_proc_snapshot read_stat extract_word
reads = refl

processes-sample_round_example :
    IsTable plain_json (codes "pi") no_names snap snap (processes plain_json (store_after second))
processes-sample_round_example =
    processes-sample_round plain_json (codes "pi") no_names readings readings snap snap start
      (state_after after) (state_after second) empty_store (store_after after) (store_after second)
      whole_double-IsTotal (λ items. refl) reads reads succeeds succeeds_again
