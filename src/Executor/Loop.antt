-- ===== src/Executor/Loop.antt =====
-- What the event loop keeps, over any sequence of completed waits.
use frequent_cron.Base.{
  ◌≡◌, ◌≢◌, inl, inr, refl, ◌∙◌, Bool, true, false, not, ◌&&◌, List, [], ◌∷◌, ◌++◌, arith,
  string_eq, nat_eq, Bool-cases,
}
use frequent_cron.External.{Double, Random}
use frequent_cron.Executor.{
  Executor, Tick, TimerError, Event, completed, stop_called, success, operation_aborted,
  other_error, register_callback, execute_sync, execute_async, on_timer, timer_callback, step, stop,
  run_loop, run,
}

-- An event after which the loop goes on: neither `stop` nor a wait that failed for another reason
-- than being cancelled.
abbrev pub GoesOn : Event → Type 0
GoesOn (completed t) = t.error ≢ other_error
GoesOn stop_called = ⊥

abbrev pub AllGoOn : List Event → Type 0
AllGoOn [] = Unit
AllGoOn (v ∷ vs) = GoesOn v × AllGoOn vs

module _ {D : Type 0} (d : Double D) (r : Random D) where
  -- The wait is outstanding and nobody has stopped the loop.
  abbrev pub IsWaiting : Executor D r.State → Type 0
  IsWaiting e = (e.pending ≡ true) × (e.stopped ≡ false)

  -- What every step keeps, a run of the loop keeps, wherever it ends.
  pub run_loop_inv :
      (P : Executor D r.State → Type 0)
      → ((v : Event) (e : Executor D r.State) → P e → P (step d r v e))
      → (vs : List Event) (e : Executor D r.State) → P e
      → P (run_loop d r vs e)
  unfolding run_loop
  run_loop_inv P keep [] e h = h
  run_loop_inv P keep (v ∷ vs) e h = elim (Bool-cases (e.pending && not e.stopped)) [
    | inl on ↦ simp on (run_loop_inv P keep vs (step d r v e) (keep v e h))
    | inr over ↦ simp over h
  ]

  pub step-other_error :
      (t : Tick) (e : Executor D r.State)
      → t.error ≡ other_error
      → step d r (completed t) e ≡ record e { pending = false }
  unfolding step timer_callback
  step-other_error t e h = rw h

  pub step-success :
      (t : Tick) (e : Executor D r.State)
      → t.error ≡ success
      → step d r (completed t) e ≡ on_timer d r t (record e { pending = false })
  unfolding step timer_callback
  step-success t e h = ground arith

  pub step-operation_aborted :
      (t : Tick) (e : Executor D r.State)
      → t.error ≡ operation_aborted
      → step d r (completed t) e ≡ register_callback d r (record e { pending = false })
  unfolding step timer_callback
  step-operation_aborted t e h = ground arith

  -- A step does nothing, stops the loop, or arms the timer, or does what `on_timer` does.
  pub step_cases :
      (P : Executor D r.State → Type 0)
      → ((e : Executor D r.State) (b : Bool) → P e → P (record e { pending = b }))
      → ((e : Executor D r.State) → P e → P (stop d r e))
      → ((e : Executor D r.State) → P e → P (register_callback d r e))
      → ((t : Tick) (e : Executor D r.State) → P e → P (on_timer d r t e))
      → (v : Event) (e : Executor D r.State) → P e
      → P (step d r v e)
  step_cases P flag halt arm_again fire stop_called e h = unfold step in halt e h
  step_cases P flag halt arm_again fire (completed t) e h = by_error t.error refl
    where
      by_error : (error : TimerError) → t.error ≡ error → P (step d r (completed t) e)
      by_error other_error q = rw (step-other_error t e q) (flag e false h)
      by_error operation_aborted q =
          rw (step-operation_aborted t e q) (arm_again _ (flag e false h))
      by_error success q = rw (step-success t e q) (fire t _ (flag e false h))

  pub step-IsWaiting :
      (v : Event) (e : Executor D r.State) → GoesOn v → IsWaiting e → IsWaiting (step d r v e)
  unfolding step timer_callback on_timer execute_sync execute_async register_callback
  step-IsWaiting (completed t) e g h = ground arith
  step-IsWaiting stop_called e g h = absurd g

  pub run_loop-cons :
      (v : Event) (vs : List Event) (e : Executor D r.State)
      → IsWaiting e
      → run_loop d r (v ∷ vs) e ≡ run_loop d r vs (step d r v e)
  unfolding run_loop
  run_loop-cons v vs e h = rw (h.0, h.1)

  run_loop-IsWaiting :
      (vs : List Event) (e : Executor D r.State)
      → AllGoOn vs
      → IsWaiting e
      → IsWaiting (run_loop d r vs e)
  run_loop-IsWaiting [] e g h = unfold run_loop in h
  run_loop-IsWaiting (v ∷ vs) e g h =
      rw (run_loop-cons v vs e h)
        (run_loop-IsWaiting vs (step d r v e) g.1 (step-IsWaiting v e g.0 h))

  -- From an executor that is not stopped, however many waits complete, and whatever the command,
  -- the generator, `popen` and `fork` do, a wait is outstanding again after each of them, as long
  -- as no wait fails and nobody stops the loop.
  pub run-IsWaiting :
      (vs : List Event) (e : Executor D r.State)
      → e.stopped ≡ false
      → AllGoOn vs
      → IsWaiting (run d r vs e)
  unfolding run register_callback
  run-IsWaiting vs e s g = run_loop-IsWaiting vs _ g (refl, s)

  run_loop_over :
      (vs : List Event) (e : Executor D r.State) → e.pending ≡ false → run_loop d r vs e ≡ e
  unfolding run_loop
  run_loop_over [] e h = refl
  run_loop_over (v ∷ vs) e h = rw h

  run_loop_fatal :
      (vs ws : List Event) (t : Tick) (e : Executor D r.State)
      → t.error ≡ other_error
      → AllGoOn vs
      → IsWaiting e
      → (run_loop d r (vs ++ completed t ∷ ws) e ≡ record (run_loop d r vs e) { pending = false })
  run_loop_fatal [] ws t e h g w =
      run_loop-cons (completed t) ws e w
      ∙ rw (step-other_error t e h) (run_loop_over ws _ refl ∙ unfold run_loop in refl)
  run_loop_fatal (v ∷ vs) ws t e h g w =
      rw (run_loop-cons v (vs ++ completed t ∷ ws) e w, run_loop-cons v vs e w)
        (run_loop_fatal vs ws t (step d r v e) h g.1 (step-IsWaiting v e g.0 w))

  -- A wait that fails for another reason than being cancelled, the first that does so, ends `run`:
  -- the state is the one before it, with no wait outstanding, and what would come later has no
  -- effect.
  pub run_fatal :
      (vs ws : List Event) (t : Tick) (e : Executor D r.State)
      → t.error ≡ other_error
      → AllGoOn vs
      → e.stopped ≡ false
      → run d r (vs ++ completed t ∷ ws) e ≡ record (run d r vs e) { pending = false }
  unfolding run register_callback
  run_fatal vs ws t e h g s = run_loop_fatal vs ws t _ h g (refl, s)
