-- ===== src/Main/Server/Stop.antt =====
-- The sampler thread runs as long as the server does, and no longer than a round behind it.
use system_monitoring_dashbo.Prelude.{
  ℕ, ◌+◌, ◌-◌, ◌≤◌, ◌≡◌, ◌≢◌, refl, ◌∙◌, true, false, Option, none, some, List, [], ◌∷◌, arith, inl,
  inr, ◌⊎◌,
}
use system_monitoring_dashbo.Prelude.Text.{Text}
use system_monitoring_dashbo.Prelude.Double.{Double}
use system_monitoring_dashbo.Json.{Json}
use system_monitoring_dashbo.Store.{Store}
use system_monitoring_dashbo.Sampler.{Readings, Sampler, sample_round}
use system_monitoring_dashbo.Main.Info.{Machine}
use system_monitoring_dashbo.Main.Server.{
  Thread, testing, sampling, ended, crashed, Server, Event, thread_runs, listen_returned, end_round,
  start_server, run_at, stop, handle, run_events,
}

-- The thread takes no more steps.
abbrev pub IsHalted : Thread → Type 0
IsHalted t = (t ≡ ended) ⊎ (t ≡ crashed)

-- The number of steps that the thread takes.
abbrev pub thread_steps : List Event → ℕ
thread_steps [] = 0
thread_steps (thread_runs r ∷ events) = 1 + thread_steps events
thread_steps (listen_returned ∷ events) = thread_steps events

-- The events before `listen` returns.
abbrev pub IsServing : List Event → Type 0
IsServing [] = Unit
IsServing (thread_runs r ∷ events) = IsServing events
IsServing (listen_returned ∷ events) = ⊥

-- The steps left once the flag is cleared.
abbrev steps_left : Thread → ℕ
steps_left sampling = 2
steps_left testing = 1
steps_left ended = 0
steps_left crashed = 0

halted : (t : Thread) → steps_left t ≤ 0 → IsHalted t
halted testing h = absurd (omega arith)
halted sampling h = absurd (omega arith)
halted ended h = inl refl
halted crashed h = inr refl

module _ {W J : Type 0} where
  left-end_round :
      (server : Server W J) (o : Option (Sampler W × Store W J))
      → steps_left (end_round server o).thread ≤ 1
  left-end_round server none = omega arith
  left-end_round server (some written) = omega arith

  running-end_round :
      (server : Server W J) (o : Option (Sampler W × Store W J))
      → (end_round server o).running ≡ server.running
  running-end_round server none = refl
  running-end_round server (some written) = refl

  ended-end_round :
      (server : Server W J) (o : Option (Sampler W × Store W J))
      → (end_round server o).thread ≢ ended
  ended-end_round server none e = cc
  ended-end_round server (some written) e = cc

module _ {W J : Type 0} ⦃d : Double W⦄ (j : Json W J) (host : Text)
    (pw_name : ℕ → Option Text) where
  running-run_at :
      (t : Thread) (r : Readings) (server : Server W J)
      → (run_at j host pw_name t r server).running ≡ server.running
  unfolding run_at
  running-run_at testing r server = refl
  running-run_at sampling r server =
      running-end_round server (sample_round j host pw_name r server.sampler server.store)
  running-run_at ended r server = refl
  running-run_at crashed r server = refl

  steps_left-run_at :
      (t : Thread) (r : Readings) (server : Server W J)
      → server.thread ≡ t
      → server.running ≡ false
      → steps_left (run_at j host pw_name t r server).thread ≤ steps_left t - 1
  unfolding run_at
  steps_left-run_at testing r server at stopped = rw stopped (omega arith)
  steps_left-run_at sampling r server at stopped =
      left-end_round server (sample_round j host pw_name r server.sampler server.store)
  steps_left-run_at ended r server at stopped = rw at (omega arith)
  steps_left-run_at crashed r server at stopped = rw at (omega arith)

  steps_left-run_events :
      (events : List Event) (server : Server W J)
      → server.running ≡ false
      → steps_left (run_events j host pw_name events server).thread
        ≤ steps_left server.thread - thread_steps events
  unfolding run_events handle
  steps_left-run_events [] server stopped = omega arith
  steps_left-run_events (thread_runs r ∷ events) server stopped =
      let next = run_at j host pw_name server.thread r server in
      omega (
        arith,
        steps_left-run_at server.thread r server refl stopped,
        steps_left-run_events events next (running-run_at server.thread r server ∙ stopped),
      )
  steps_left-run_events (listen_returned ∷ events) server stopped =
      steps_left-run_events events (stop server) refl

  -- Two steps behind the flag are enough.
  run_events-halts :
      (events : List Event) (server : Server W J)
      → server.running ≡ false
      → 2 ≤ thread_steps events
      → IsHalted (run_events j host pw_name events server).thread
  run_events-halts events server stopped enough =
      halted (run_events j host pw_name events server).thread
        (omega (arith, at_most_two server.thread, steps_left-run_events events server stopped))
    where
      at_most_two : (t : Thread) → steps_left t ≤ 2
      at_most_two testing = omega arith
      at_most_two sampling = omega arith
      at_most_two ended = omega arith
      at_most_two crashed = omega arith

  -- The thread is not behind its loop, and the flag is set.
  abbrev IsRunning : Server W J → Type 0
  IsRunning server = (server.running ≡ true) × (server.thread ≢ ended)

  run_at-IsRunning :
      (t : Thread) (r : Readings) (server : Server W J)
      → server.thread ≡ t
      → IsRunning server
      → (run_at j host pw_name t r server).thread ≢ ended
  unfolding run_at
  run_at-IsRunning testing r server at (on, still) e = let e' = rw on at e in cc
  run_at-IsRunning sampling r server at (on, still) e =
      ended-end_round server (sample_round j host pw_name r server.sampler server.store) e
  run_at-IsRunning ended r server at (on, still) e = still at
  run_at-IsRunning crashed r server at (on, still) e = still e

  run_events-IsRunning :
      (events : List Event) (server : Server W J)
      → IsServing events
      → IsRunning server
      → (run_events j host pw_name events server).thread ≢ ended
  unfolding run_events handle
  run_events-IsRunning [] server serving (on, still) = still
  run_events-IsRunning (thread_runs r ∷ events) server serving (on, still) =
      run_events-IsRunning events (run_at j host pw_name server.thread r server) serving (
        running-run_at server.thread r server ∙ on,
        run_at-IsRunning server.thread r server refl (on, still),
      )
  run_events-IsRunning (listen_returned ∷ events) server serving (on, still) = absurd serving

  -- As long as `listen` has not returned, the sampler thread does not leave its loop; once it has, two
  -- more steps of the thread are enough, whatever they read: then it has left its loop, or a fault or
  -- an exception has ended the program.
  start_server-stops :
      (machine : Machine) (sampler : Sampler W) (before after : List Event)
      → IsServing before
      → 2 ≤ thread_steps after
      → let server = run_events j host pw_name before (start_server j machine sampler) in
        (server.thread ≢ ended)
        × IsHalted
            (run_events j host pw_name after (handle j host pw_name listen_returned server)).thread
  unfolding start_server handle
  start_server-stops machine sampler before after serving enough = (
    run_events-IsRunning before (start_server j machine sampler) serving (refl, λ e. cc),
    run_events-halts after
        (stop (run_events j host pw_name before (start_server j machine sampler))) refl enough,
  )
