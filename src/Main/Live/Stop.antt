-- ===== src/Main/Live/Stop.antt =====
-- The sampler thread, one section at a time, runs as long as the server does, and ends behind it.
use system_monitoring_dashbo.Prelude.{
  ℕ, ◌+◌, ◌-◌, ◌≤◌, ◌≡◌, ◌≢◌, refl, ◌∙◌, true, false, Option, none, some, List, [], ◌∷◌, length,
  arith, inl, inr, ◌⊎◌,
}
use system_monitoring_dashbo.Prelude.Text.{Text}
use system_monitoring_dashbo.Prelude.Double.{Double}
use system_monitoring_dashbo.Json.{Json}
use system_monitoring_dashbo.Sampler.{Readings, Sampler}
use system_monitoring_dashbo.Main.Info.{Machine}
use system_monitoring_dashbo.Main.Server.{Event, thread_runs, listen_returned, start_server}
use system_monitoring_dashbo.Main.Server.Stop.{IsServing, thread_steps}
use system_monitoring_dashbo.Main.Live.{
  Live, Point, checking, in_round, finished, faulted, load_flag, step_at, live_event, run_live,
  start_live,
}

-- The steps that the thread has left once the flag is cleared.
abbrev pub steps_left : {W J : Type 0} → Point W J → ℕ
steps_left checking = 1
steps_left (in_round todo next) = length todo + 2
steps_left finished = 0
steps_left faulted = 0

-- The thread takes no more steps.
abbrev pub IsHalted : {W J : Type 0} → Point W J → Type 0
IsHalted p = (p ≡ finished) ⊎ (p ≡ faulted)

module _ {W J : Type 0} where
  halted : (p : Point W J) → steps_left p ≤ 0 → IsHalted p
  halted checking h = absurd (omega arith)
  halted (in_round todo next) h = absurd (omega arith)
  halted finished h = inl refl
  halted faulted h = inr refl

module _ {W J : Type 0} ⦃d : Double W⦄ (j : Json W J) (host : Text)
    (pw_name : ℕ → Option Text) where
  running-step_at :
      (p : Point W J) (r : Readings) (live : Live W J)
      → (step_at j host pw_name p r live).running ≡ live.running
  unfolding step_at
  running-step_at checking r live = refl
  running-step_at (in_round (op ∷ rest) next) r live = refl
  running-step_at (in_round [] (some s)) r live = refl
  running-step_at (in_round [] none) r live = refl
  running-step_at finished r live = refl
  running-step_at faulted r live = refl

  steps_left-step_at :
      (p : Point W J) (r : Readings) (live : Live W J)
      → live.point ≡ p
      → live.running ≡ false
      → steps_left (step_at j host pw_name p r live).point ≤ steps_left p - 1
  unfolding step_at load_flag
  steps_left-step_at checking r live at stopped = rw stopped (omega arith)
  steps_left-step_at (in_round (op ∷ rest) next) r live at stopped = omega arith
  steps_left-step_at (in_round [] (some s)) r live at stopped = omega arith
  steps_left-step_at (in_round [] none) r live at stopped = omega arith
  steps_left-step_at finished r live at stopped = rw at (omega arith)
  steps_left-step_at faulted r live at stopped = rw at (omega arith)

  steps_left-run_live :
      (events : List Event) (live : Live W J)
      → live.running ≡ false
      → steps_left (run_live j host pw_name events live).point
        ≤ steps_left live.point - thread_steps events
  unfolding run_live live_event
  steps_left-run_live [] live stopped = omega arith
  steps_left-run_live (thread_runs r ∷ events) live stopped =
      let next = step_at j host pw_name live.point r live in
      omega (
        arith,
        steps_left-step_at live.point r live refl stopped,
        steps_left-run_live events next (running-step_at live.point r live ∙ stopped),
      )
  steps_left-run_live (listen_returned ∷ events) live stopped =
      steps_left-run_live events (record live { running = false }) refl

  -- The thread is not behind its loop, and the flag is set.
  abbrev IsRunning : Live W J → Type 0
  IsRunning live = (live.running ≡ true) × (live.point ≢ finished)

  step_at-IsRunning :
      (p : Point W J) (r : Readings) (live : Live W J)
      → live.point ≡ p
      → IsRunning live
      → (step_at j host pw_name p r live).point ≢ finished
  unfolding step_at load_flag
  step_at-IsRunning checking r live at (on, still) e = let e' = rw on at e in cc
  step_at-IsRunning (in_round (op ∷ rest) next) r live at (on, still) e = cc
  step_at-IsRunning (in_round [] (some s)) r live at (on, still) e = cc
  step_at-IsRunning (in_round [] none) r live at (on, still) e = cc
  step_at-IsRunning finished r live at (on, still) e = still at
  step_at-IsRunning faulted r live at (on, still) e = still e

  run_live-IsRunning :
      (events : List Event) (live : Live W J)
      → IsServing events
      → IsRunning live
      → (run_live j host pw_name events live).point ≢ finished
  unfolding run_live live_event
  run_live-IsRunning [] live serving (on, still) = still
  run_live-IsRunning (thread_runs r ∷ events) live serving (on, still) =
      run_live-IsRunning events (step_at j host pw_name live.point r live) serving (
        running-step_at live.point r live ∙ on,
        step_at-IsRunning live.point r live refl (on, still),
      )
  run_live-IsRunning (listen_returned ∷ events) live serving (on, still) = absurd serving

  -- As long as `listen` has not returned, the sampler thread does not leave its loop. Once it has, the
  -- steps of the thread that are left are enough, whatever they read: one for each section left in its
  -- round, one to end the round and one to load the flag. Then it has left its loop, or a fault or an
  -- exception has ended the program.
  pub start_live-stops :
      (machine : Machine) (sampler : Sampler W) (before after : List Event)
      → IsServing before
      → steps_left (run_live j host pw_name before (start_live j machine sampler)).point
        ≤ thread_steps after
      → let live = run_live j host pw_name before (start_live j machine sampler) in
        (live.point ≢ finished)
        × IsHalted
            (run_live j host pw_name after (live_event j host pw_name listen_returned live)).point
  unfolding start_live start_server live_event
  start_live-stops machine sampler before after serving enough =
      let live = run_live j host pw_name before (start_live j machine sampler) in
      (
        run_live-IsRunning before (start_live j machine sampler) serving (refl, λ e. cc),
        halted _ (
            omega
              (arith, enough, steps_left-run_live after (record live { running = false }) refl)),
      )
