-- ===== src/Main/Server/Reach.antt =====
-- What the store holds while the server runs, and what /api/info answers.
use system_monitoring_dashbo.Prelude.{
  length, ℕ, ◌≡◌, refl, ap, ◌∙◌, false, Option, none, some, List, [], ◌∷◌, arith, All,
}
use system_monitoring_dashbo.Prelude.Text.{Text, codes}
use system_monitoring_dashbo.Prelude.Dict.{lookup, text_key}
use system_monitoring_dashbo.Prelude.Double.{Double}
use system_monitoring_dashbo.Json.{Json}
use system_monitoring_dashbo.Config.{keep_seconds, sample_period_s}
use system_monitoring_dashbo.Store.{Store, new, get_metadata, or_null, capacity_per_metric}
use system_monitoring_dashbo.Store.History.{
  Write, scalar, vector, snapshot, metadata, write, run, last_metadata, metadata-run,
}
use system_monitoring_dashbo.Store.Limits.{length-held-run}
use system_monitoring_dashbo.Store.Lookup.{IsWithin, scalars, vectors}
use system_monitoring_dashbo.Sampler.{Readings, Sampler, sample_round}
use system_monitoring_dashbo.Sampler.Named.{IsNamed, IsWritten, none-IsWritten, then-IsWritten}
use system_monitoring_dashbo.Sampler.Round.{sample_round-IsWritten}
use system_monitoring_dashbo.Api.{Request, write_json_response}
use system_monitoring_dashbo.Api.Routes.{info}
use system_monitoring_dashbo.Main.Info.{
  Machine, collect_system_info, system_json, cache_system_metadata,
}
use system_monitoring_dashbo.Main.Server.{
  Thread, testing, sampling, ended, crashed, Server, Event, thread_runs, listen_returned, end_round,
  stop, start_server, run_at, handle, run_events,
}

module _ {W J : Type 0} ⦃d : Double W⦄ (j : Json W J) (host : Text)
    (pw_name : ℕ → Option Text) where
  run_at-IsWritten :
      (t : Thread) (r : Readings) (server : Server W J)
      → IsWritten host server.store (run_at j host pw_name t r server).store
  unfolding run_at
  run_at-IsWritten testing r server = none-IsWritten host server.store
  run_at-IsWritten sampling r server =
      behind (sample_round j host pw_name r server.sampler server.store) refl
    where
      behind :
          (o : Option (Sampler W × Store W J))
          → sample_round j host pw_name r server.sampler server.store ≡ o
          → IsWritten host server.store (end_round server o).store
      behind none e = none-IsWritten host server.store
      behind (some (sampler, store)) e =
          sample_round-IsWritten j host pw_name r server.sampler sampler server.store store e
  run_at-IsWritten ended r server = none-IsWritten host server.store
  run_at-IsWritten crashed r server = none-IsWritten host server.store

  run_events-IsWritten :
      (events : List Event) (server : Server W J)
      → IsWritten host server.store (run_events j host pw_name events server).store
  unfolding run_events handle
  run_events-IsWritten [] server = none-IsWritten host server.store
  run_events-IsWritten (thread_runs r ∷ events) server =
      let next = run_at j host pw_name server.thread r server in
      then-IsWritten host server.store next.store (run_events j host pw_name events next).store
        (run_at-IsWritten server.thread r server) (run_events-IsWritten events next)
  run_events-IsWritten (listen_returned ∷ events) server = run_events-IsWritten events (stop server)

  module _ (machine : Machine) (sampler : Sampler W) (events : List Event) where
    abbrev served : Store W J
    served = (run_events j host pw_name events (start_server j machine sampler)).store

    -- The metadata that `main` caches.
    abbrev cached : Write W J
    cached = metadata (codes "system") (system_json j (collect_system_info machine))

    written :
        (log : List (Write W J)) × All (IsNamed host) log
        × (served ≡ run (new keep_seconds sample_period_s) (cached ∷ log))
    unfolding start_server cache_system_metadata run write
    written = run_events-IsWritten events (start_server j machine sampler)

    IsWithin-served : IsWithin 7200 served
    unfolding new capacity_per_metric
    IsWithin-served metric =
        let (log, named, e) = written in
        let (bound, vector_bound) =
          length-held-run keep_seconds sample_period_s (omega arith) (cached ∷ log) metric in
        (
          omega (arith, ap (λ (s : Store W J). length (scalars s metric)) e, bound),
          omega (arith, ap (λ (s : Store W J). length (vectors s metric)) e, vector_bound),
        )

    -- Whatever happens while the server runs, its store is a new one of 7200 seconds after a sequence of
    -- writes: first the metadata of the machine, then series, named by `metric_with_labels` from a
    -- registered metric and labels that it allows with the host first, vectors for the metric
    -- `cpu.core_pct` and scalars for the others, and the process table. No series, scalar or vector,
    -- holds more than 7200 samples.
    pub store-run_events :
        ((log : List (Write W J)) × All (IsNamed host) log
          × (served ≡ run (new keep_seconds sample_period_s) (cached ∷ log)))
        × IsWithin 7200 served
    store-run_events = (written, IsWithin-served)

    -- No round touches the metadata.
    last_metadata-IsNamed :
        (key : Text) (o : Option J) (log : List (Write W J))
        → All (IsNamed host) log
        → last_metadata key o log ≡ o
    last_metadata-IsNamed key o [] h = refl
    last_metadata-IsNamed key o (scalar m t v ∷ log) (h, hs) = last_metadata-IsNamed key o log hs
    last_metadata-IsNamed key o (vector m t v ∷ log) (h, hs) = last_metadata-IsNamed key o log hs
    last_metadata-IsNamed key o (snapshot k v ∷ log) (h, hs) = last_metadata-IsNamed key o log hs
    last_metadata-IsNamed key o (metadata k v ∷ log) (h, hs) = absurd h

    metadata-run_events :
        lookup (codes "system") served.metadata ≡ some (system_json j (collect_system_info machine))
    unfolding new lookup
    metadata-run_events =
        let (log, named, e) = written in
        ap (λ (s : Store W J). lookup (codes "system") s.metadata) e
        ∙ metadata-run (new keep_seconds sample_period_s) (cached ∷ log) (codes "system")
        ∙ last_metadata-IsNamed (codes "system") _ log named

    -- Whatever happens while the server runs, /api/info?key=system answers with the metadata that
    -- was collected when it started, if the JSON library takes them neither for null nor for empty.
    info-run_events :
        (req : Request)
        → req (codes "key") ≡ codes "system"
        → j.is_null (system_json j (collect_system_info machine)) ≡ false
        → j.is_empty (system_json j (collect_system_info machine)) ≡ false
        → info j req served
          ≡ write_json_response j (system_json j (collect_system_info machine)) 200
    unfolding info get_metadata
    info-run_events req key full filled =
        let found = ap (or_null j.null) metadata-run_events in
        rw (info, key, found, full, filled) refl
