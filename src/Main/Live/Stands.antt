-- ===== src/Main/Live/Stands.antt =====
-- The server with its threads side by side does what the server does whose rounds are single steps.
use system_monitoring_dashbo.Prelude.{
  ℕ, ◌≡◌, refl, sym, ap, ◌∙◌, Bool, true, false, Option, none, some, List, [], ◌∷◌, ◌++◌,
  append_assoc, append-nil,
}
use mathlib.Core.Path.{subst}
use system_monitoring_dashbo.Prelude.Text.{Text}
use system_monitoring_dashbo.Prelude.Double.{Double}
use system_monitoring_dashbo.Json.{Json}
use system_monitoring_dashbo.Store.{Store}
use system_monitoring_dashbo.Store.History.{Write, write, run, run-concat}
use system_monitoring_dashbo.Store.Section.{Section, perform}
use system_monitoring_dashbo.Store.Section.Same.{IsSame, IsSame-refl}
use system_monitoring_dashbo.Store.Section.Pending.{
  Pending-nil, Pending, between, Effect, prepares, completes, Pending-next,
}
use system_monitoring_dashbo.Sampler.{Readings, Sampler}
use system_monitoring_dashbo.Main.Info.{Machine}
use system_monitoring_dashbo.Main.Server.{
  testing, sampling, ended, crashed, Server, Event, thread_runs, listen_returned, end_round,
  start_server, run_at, handle, run_events,
}
use system_monitoring_dashbo.Main.Live.{
  Live, checking, in_round, finished, faulted, round_calls, load_flag, made, sample_round-made,
  step_at, live_event, run_live, start_live,
}

module _ {W J : Type 0} ⦃d : Double W⦄ where
  run-step :
      (s : Store W J) (done : List (Write W J)) (call : Write W J)
      → write (run s done) call ≡ run s (done ++ (call ∷ []))
  unfolding run
  run-step s done call = run-concat s done (call ∷ [])

module _ {W J : Type 0} ⦃d : Double W⦄ (j : Json W J) (host : Text)
    (pw_name : ℕ → Option Text) where
  -- The two servers stand at the same point: between rounds with stores that hold the same; within
  -- one, the first with what the calls that it has completed make of the store of the second, and
  -- with the sections of the others left.
  pub data Stands : Live W J → Server W J → Type 0 where
    both_check :
        {b : Bool} {s : Sampler W} {mine its : Store W J}
        → IsSame mine its
        → Stands
            (record { running = b; point = checking; sampler = s; store = mine })
            (record { running = b; thread = testing; sampler = s; store = its })
    both_sample :
        {b : Bool} {s : Sampler W} {mine its : Store W J} {todo : List (Section W J)}
        {next : Option (Sampler W)} (r : Readings) (done calls : List (Write W J))
        → round_calls j host pw_name r s ≡ (done ++ calls, next)
        → IsSame mine (run its done)
        → Pending mine todo calls
        → Stands
            (record { running = b; point = in_round todo next; sampler = s; store = mine })
            (record { running = b; thread = sampling; sampler = s; store = its })
    both_finished :
        {b : Bool} {s : Sampler W} {mine its : Store W J}
        → IsSame mine its
        → Stands
            (record { running = b; point = finished; sampler = s; store = mine })
            (record { running = b; thread = ended; sampler = s; store = its })
    both_faulted :
        {b : Bool} {s : Sampler W} {mine its : Store W J} (r : Readings) (done : List (Write W J))
        → round_calls j host pw_name r s ≡ (done, none)
        → IsSame mine (run its done)
        → Stands
            (record { running = b; point = faulted; sampler = s; store = mine })
            (record { running = b; thread = crashed; sampler = s; store = its })

  -- The second server reaches such a point.
  Follows : Live W J → Server W J → Type 0
  Follows live server =
      (events : List Event) × Stands live (run_events j host pw_name events server)

  start_round :
      (r : Readings) (b : Bool) (s : Sampler W) (mine its : Store W J)
      → IsSame mine its
      → Follows
          (step_at j host pw_name checking r
            (record { running = b; point = checking; sampler = s; store = mine }))
          (record { running = b; thread = testing; sampler = s; store = its })
  unfolding Follows step_at load_flag run_events handle run_at run
  start_round r false s mine its same = (thread_runs r ∷ [], both_finished same)
  start_round r true s mine its same =
      let (calls, next) = round_calls j host pw_name r s in
      (thread_runs r ∷ [], both_sample r [] _ refl same (between _))

  do_section :
      (r r' : Readings) (b : Bool) (s : Sampler W) (mine its : Store W J) (op : Section W J)
      (rest : List (Section W J)) (next : Option (Sampler W)) (done calls : List (Write W J))
      → round_calls j host pw_name r s ≡ (done ++ calls, next)
      → Effect mine (run its done) op rest calls
      → Follows
          (step_at j host pw_name
            (in_round (op ∷ rest) next)
            r'
            (record { running = b; point = in_round (op ∷ rest) next; sampler = s; store = mine }))
          (record { running = b; thread = sampling; sampler = s; store = its })
  unfolding Follows step_at run_events
  do_section r r' b s mine its op rest next done calls e (prepares same pending) =
      ([], both_sample r done calls e same pending)
  do_section r r' b s mine its op rest next done _ e (completes {call} {calls} same pending) = (
    [],
    both_sample r (done ++ (call ∷ [])) calls
        (e ∙ ap (λ log. (log, next)) (sym (append_assoc done (call ∷ []) calls)))
        (subst (IsSame (perform mine op)) (run-step its done call) same) pending,
  )

  -- The second server runs the whole round at once.
  whole_round :
      (r : Readings) (b : Bool) (s : Sampler W) (its : Store W J) (live : Live W J)
      (round : List (Write W J) × Option (Sampler W))
      → round_calls j host pw_name r s ≡ round
      → Stands live (
          end_round
            (record { running = b; thread = sampling; sampler = s; store = its })
            (made j host pw_name its round))
      → Follows live (record { running = b; thread = sampling; sampler = s; store = its })
  unfolding Follows run_events handle run_at
  whole_round r b s its live round e stands = (
    thread_runs r ∷ [],
    subst
        (λ o.
          Stands live
            (end_round (record { running = b; thread = sampling; sampler = s; store = its }) o))
        (sym (sample_round-made j host pw_name r s its ∙ ap (made j host pw_name its) e)) stands,
  )

  end_of_round :
      (r r' : Readings) (b : Bool) (s : Sampler W) (mine its : Store W J)
      (next : Option (Sampler W)) (done : List (Write W J))
      → round_calls j host pw_name r s ≡ (done, next)
      → IsSame mine (run its done)
      → Follows
          (step_at j host pw_name
            (in_round [] next)
            r'
            (record { running = b; point = in_round [] next; sampler = s; store = mine }))
          (record { running = b; thread = sampling; sampler = s; store = its })
  unfolding step_at
  end_of_round r r' b s mine its none done e same =
      whole_round r b s its _ (done, none) e (both_faulted r done e same)
  end_of_round r r' b s mine its (some after) done e same =
      whole_round r b s its _ (done, some after) e (both_check same)

  step_in_round :
      (r r' : Readings) (b : Bool) (s : Sampler W) (mine its : Store W J)
      (todo : List (Section W J)) (next : Option (Sampler W)) (done calls : List (Write W J))
      → round_calls j host pw_name r s ≡ (done ++ calls, next)
      → IsSame mine (run its done)
      → Pending mine todo calls
      → Follows
          (step_at j host pw_name
            (in_round todo next)
            r'
            (record { running = b; point = in_round todo next; sampler = s; store = mine }))
          (record { running = b; thread = sampling; sampler = s; store = its })
  step_in_round r r' b s mine its [] next done calls e same pending =
      let all : done ++ calls ≡ done =
        ap (λ log. done ++ log) (Pending-nil pending refl) ∙ append-nil done in
      end_of_round r r' b s mine its next done (e ∙ ap (λ log. (log, next)) all) same
  step_in_round r r' b s mine its (op ∷ rest) next done calls e same pending =
      do_section r r' b s mine its op rest next done calls e
        (Pending-next mine (run its done) same pending)

  -- Whatever happens to the first server happens to the second, in none or one of its steps.
  live_event-Stands :
      (e : Event) (live : Live W J) (server : Server W J)
      → Stands live server
      → Follows (live_event j host pw_name e live) server
  unfolding live_event Follows step_at run_events handle run_at
  live_event-Stands (thread_runs r) _ _ (both_check {b} {s} {mine} {its} same) =
      start_round r b s mine its same
  live_event-Stands (thread_runs r) _ _
        (both_sample {b} {s} {mine} {its} {todo} {next} r₀ done calls e same pending) =
      step_in_round r₀ r b s mine its todo next done calls e same pending
  live_event-Stands (thread_runs r) _ _ (both_finished same) = ([], both_finished same)
  live_event-Stands (thread_runs r) _ _ (both_faulted r₀ done e same) =
      ([], both_faulted r₀ done e same)
  live_event-Stands listen_returned _ _ (both_check same) = (listen_returned ∷ [], both_check same)
  live_event-Stands listen_returned _ _ (both_sample r₀ done calls e same pending) =
      (listen_returned ∷ [], both_sample r₀ done calls e same pending)
  live_event-Stands listen_returned _ _ (both_finished same) =
      (listen_returned ∷ [], both_finished same)
  live_event-Stands listen_returned _ _ (both_faulted r₀ done e same) =
      (listen_returned ∷ [], both_faulted r₀ done e same)

  run_events-concat :
      (first second : List Event) (server : Server W J)
      → run_events j host pw_name (first ++ second) server
        ≡ run_events j host pw_name second (run_events j host pw_name first server)
  unfolding run_events
  run_events-concat [] second server = refl
  run_events-concat (e ∷ first) second server =
      run_events-concat first second (handle j host pw_name e server)

  run_live-Stands :
      (events : List Event) (live : Live W J) (server : Server W J)
      → Stands live server
      → Follows (run_live j host pw_name events live) server
  unfolding run_live Follows run_events
  run_live-Stands [] live server stands = ([], stands)
  run_live-Stands (e ∷ events) live server stands =
      let (first, stands₁) = live_event-Stands e live server stands in
      let next = live_event j host pw_name e live in
      let (second, stands₂) =
        run_live-Stands events next (run_events j host pw_name first server) stands₁ in
      (
        first ++ second,
        subst (Stands (run_live j host pw_name events next))
            (sym (run_events-concat first second server)) stands₂,
      )

  -- Whatever happens while the server runs with its threads side by side, there are events that bring
  -- the server whose rounds are single steps to the same point, with the same flag and sampler: between
  -- rounds and behind the loop, the two stores hold the same; within a round, and where one has ended
  -- the program, the first holds what the round's completed calls make of the second's, and within it the
  -- rest of the round is left.
  pub run_live-refines :
      (machine : Machine) (sampler : Sampler W) (events : List Event)
      → (steps : List Event) × Stands
          (run_live j host pw_name events (start_live j machine sampler))
          (run_events j host pw_name steps (start_server j machine sampler))
  unfolding start_live start_server Follows
  run_live-refines machine sampler events =
      run_live-Stands events (start_live j machine sampler) (start_server j machine sampler)
        (both_check (IsSame-refl _))
