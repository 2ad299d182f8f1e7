-- ===== src/Main/Live/Served.antt =====
-- What the store holds while the server runs with its threads side by side.
use system_monitoring_dashbo.Prelude.{
  length, ℕ, ap, ◌∙◌, Option, List, [], ◌∷◌, ◌++◌, arith, All, All-append,
}
use mathlib.Core.Path.{subst}
use system_monitoring_dashbo.Prelude.Text.{Text, codes}
use system_monitoring_dashbo.Prelude.Double.{Double}
use system_monitoring_dashbo.Json.{Json}
use system_monitoring_dashbo.Config.{keep_seconds, sample_period_s}
use system_monitoring_dashbo.Store.{Store, new, capacity_per_metric}
use system_monitoring_dashbo.Store.History.{Write, metadata, run, run-concat}
use system_monitoring_dashbo.Store.Limits.{length-held-run}
use system_monitoring_dashbo.Store.Lookup.{IsWithin}
use system_monitoring_dashbo.Store.Section.Same.{IsSame}
use system_monitoring_dashbo.Store.Section.Seen.{IsSeenAlike, IsSame-IsSeenAlike, IsSame-held}
use system_monitoring_dashbo.Sampler.{Sampler}
use system_monitoring_dashbo.Sampler.Named.{IsNamed}
use system_monitoring_dashbo.Main.Info.{Machine, collect_system_info, system_json}
use system_monitoring_dashbo.Main.Server.{Server, Event}
use system_monitoring_dashbo.Main.Server.Reach.{store-run_events}
use system_monitoring_dashbo.Main.Live.{Live, run_live, start_live}
use system_monitoring_dashbo.Main.Live.Kept.{round_calls-IsNamed}
use system_monitoring_dashbo.Main.Live.Stands.{
  Stands, both_check, both_sample, both_finished, both_faulted, run_live-refines,
}

All-first {ℓ κ} :
    {A : Type ℓ} (P : A → Type κ) (first second : List A) → All P (first ++ second) → All P first
All-first P [] second h = tt
All-first P (a ∷ first) second (here, h) = (here, All-first P first second h)

module _ {W J : Type 0} ⦃d : Double W⦄ (j : Json W J) (host : Text)
    (pw_name : ℕ → Option Text) where
  -- The completed calls of the round that the thread is in.
  Stands-completed :
      {live : Live W J} {server : Server W J}
      → Stands j host pw_name live server
      → (done : List (Write W J)) × All (IsNamed host) done
        × IsSame live.store (run server.store done)
  unfolding run
  Stands-completed (both_check same) = ([], tt, same)
  Stands-completed (both_finished same) = ([], tt, same)
  Stands-completed (both_sample {s = s} r done calls e same pending) =
      let named =
        subst (λ round. All (IsNamed host) round.0) e (round_calls-IsNamed j host pw_name r s) in
      (done, All-first (IsNamed host) done calls named, same)
  Stands-completed (both_faulted {s = s} r done e same) = (
    done,
    subst (λ round. All (IsNamed host) round.0) e (round_calls-IsNamed j host pw_name r s),
    same,
  )

  module _ (machine : Machine) (sampler : Sampler W) (events : List Event) where
    abbrev served : Store W J
    served = (run_live j host pw_name events (start_live j machine sampler)).store

    abbrev cached : Write W J
    cached = metadata (codes "system") (system_json j (collect_system_info machine))

    written :
        (log : List (Write W J)) × All (IsNamed host) log
        × IsSame served (run (new keep_seconds sample_period_s) (cached ∷ log))
    written =
        let (steps, stands) = run_live-refines j host pw_name machine sampler events in
        let (done, completed, same) = Stands-completed stands in
        let ((log, named, made), _) = store-run_events j host pw_name machine sampler steps in
        (
          log ++ done,
          All-append (IsNamed host) log done named completed,
          subst (IsSame served)
              (ap (λ s. run s done) made
                ∙ run-concat (new keep_seconds sample_period_s) (cached ∷ log) done)
              same,
        )

    IsWithin-served :
        (log : List (Write W J))
        → IsSame served (run (new keep_seconds sample_period_s) (cached ∷ log))
        → IsWithin 7200 served
    unfolding new capacity_per_metric
    IsWithin-served log same metric =
        let s = run (new keep_seconds sample_period_s) (cached ∷ log) in
        let (bound, vector_bound) =
          length-held-run keep_seconds sample_period_s (omega arith) (cached ∷ log) metric in
        let (holds, holds_vectors) = IsSame-held served s same metric in
        (
          omega (arith, ap length holds, bound),
          omega (arith, ap length holds_vectors, vector_bound),
        )

    -- At every moment while the server runs with its threads side by side, a sequence of whole calls
    -- makes of a new store of 7200 seconds one that answers every `query`, `query_vector` and `count`
    -- alike and holds the same snapshots and metadata: first that of the metadata of the machine, then
    -- of series, named by `metric_with_labels` from a registered metric and labels that it allows with
    -- the host first, vectors for the metric `cpu.core_pct` and scalars for the others, and of the
    -- process table. No series, scalar or vector, holds more than 7200 samples.
    pub store-run_live :
        ((log : List (Write W J)) × All (IsNamed host) log
          × IsSeenAlike
              (run_live j host pw_name events (start_live j machine sampler)).store
              (run (new keep_seconds sample_period_s) (cached ∷ log)))
        × IsWithin 7200 (run_live j host pw_name events (start_live j machine sampler)).store
    store-run_live =
        let (log, named, same) = written in
        let s = run (new keep_seconds sample_period_s) (cached ∷ log) in
        ((log, named, IsSame-IsSeenAlike served s same), IsWithin-served log same)
