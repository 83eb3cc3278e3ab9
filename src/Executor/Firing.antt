-- ===== src/Executor/Firing.antt =====
-- When the command is run: the fire probability at its two ends.
use frequent_cron.Base.{◌≡◌, refl, true, false, List, [], ◌∷◌, arith, string_eq, nat_eq, if_cases}
use frequent_cron.Base.Int.{ℤ}
use frequent_cron.External.{Double, Random}
use frequent_cron.Executor.{
  Executor, Event, Action, arm, should_fire, register_callback, execute_sync, execute_async,
  on_timer, stop, run, Tick,
}
use frequent_cron.Executor.Loop.{run_loop_inv, step_cases}

-- The timer was armed, and nothing else was done.
abbrev pub OnlyArmed : List Action → Type 0
OnlyArmed [] = Unit
OnlyArmed (arm delay ∷ t) = OnlyArmed t
OnlyArmed (_ ∷ t) = ⊥

module _ {D : Type 0} (d : Double D) (r : Random D) where
  abbrev Skipped : D → ℤ → Executor D r.State → Type 0
  Skipped p n e = (e.fire_probability ≡ p) × (e.skip_count ≡ n)

  register_callback-Skipped :
      (p : D) (n : ℤ) (e : Executor D r.State)
      → Skipped p n e
      → Skipped p n (register_callback d r e)
  unfolding register_callback
  register_callback-Skipped p n e h = h

  on_timer-Skipped :
      (p : D) (n : ℤ) (t : Tick) (e : Executor D r.State)
      → d.le d.one p ≡ true
      → Skipped p n e
      → Skipped p n (on_timer d r t e)
  unfolding on_timer execute_sync execute_async register_callback should_fire
  on_timer-Skipped p n t e always h = ground arith

  -- With a probability of 1 or more no tick is ever skipped.
  pub run_always :
      (vs : List Event) (e : Executor D r.State)
      → d.le d.one e.fire_probability ≡ true
      → (run d r vs e).skip_count ≡ e.skip_count
  unfolding run register_callback stop
  run_always vs e always =
      let P = Skipped e.fire_probability e.skip_count in
      (run_loop_inv d r P
        (step_cases d r P (λ e b k. k) (λ e k. k) (register_callback-Skipped _ _)
          (λ t e k. on_timer-Skipped _ _ t e always k))
        vs _ (refl, refl)).1

  abbrev Unfired : D → ℤ → Executor D r.State → Type 0
  Unfired p n e = (e.fire_probability ≡ p) × (e.execution_count ≡ n) × OnlyArmed e.trace

  register_callback-Unfired :
      (p : D) (n : ℤ) (e : Executor D r.State)
      → Unfired p n e
      → Unfired p n (register_callback d r e)
  unfolding register_callback
  register_callback-Unfired p n e h = h

  should_fire_never :
      (e : Executor D r.State)
      → d.le d.one e.fire_probability ≡ false
      → d.le e.fire_probability d.nought ≡ true
      → (should_fire d r e).0 ≡ false
  unfolding should_fire
  should_fire_never e less never = ground arith

  on_timer-Unfired :
      (p : D) (n : ℤ) (t : Tick) (e : Executor D r.State)
      → d.le d.one p ≡ false
      → d.le p d.nought ≡ true
      → Unfired p n e
      → Unfired p n (on_timer d r t e)
  unfolding on_timer
  on_timer-Unfired p n t e less never (q, ran, h) =
      if_cases (Unfired p n) (should_fire d r e).0 _ _
        (λ fires. cc (should_fire_never e (rw q less) (rw q never)))
        (λ _. register_callback-Unfired p n _ (q, ran, h))

  -- With a probability of 0 or less, from an executor that has done nothing yet, the command is
  -- never run, in either mode: nothing is executed, captured or forked, and the timer is only armed
  -- again.
  pub run_never :
      (vs : List Event) (e : Executor D r.State)
      → d.le d.one e.fire_probability ≡ false
      → d.le e.fire_probability d.nought ≡ true
      → e.trace ≡ []
      → ((run d r vs e).execution_count ≡ e.execution_count) × OnlyArmed (run d r vs e).trace
  unfolding run register_callback stop
  run_never vs e less never h =
      let P = Unfired e.fire_probability e.execution_count in
      let (_, ran, armed) =
        run_loop_inv d r P
          (step_cases d r P (λ e b k. k) (λ e k. k) (register_callback-Unfired _ _)
            (λ t e k. on_timer-Unfired _ _ t e less never k))
          vs (register_callback d r e) (refl, refl, rw h tt) in
      (ran, armed)
