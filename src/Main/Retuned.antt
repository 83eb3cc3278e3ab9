-- ===== src/Main/Retuned.antt =====
-- An executor whose options were left out where they are taken to be the default does the same.
use frequent_cron.Base.{
  ◌≡◌, inl, inr, refl, sym, ap, ◌∙◌, Bool, true, false, not, ◌&&◌, Option, List, [], ◌∷◌, arith,
  string_eq, nat_eq, if◌then◌else◌, Bool-cases,
}
use frequent_cron.Base.Int.{pos, ltb_ℤ}
use mathlib.Core.Path.{subst}
use frequent_cron.Executor.Loop.{step-success, step-operation_aborted, step-other_error}
use frequent_cron.External.{Double, Random}
use frequent_cron.Process.{Pipe}
use frequent_cron.Executor.{
  Executor, Tick, TimerError, ForkResult, parent, failed, Event, completed, stop_called, success,
  operation_aborted, other_error, compute_next_delay, draw_offset, should_fire, register_callback,
  execute_sync, execute_async, child_actions, on_timer, timer_callback, stop, step, run_loop, run,
}

-- The comparison with 1 of a double that is a number.
pub record IsNumber {D : Type 0} (d : Double D) (p : D) : Type 0 where
  pub below : d.lt p d.one ≡ not (d.le d.one p)
  pub one_reached : d.le d.one d.one ≡ true

module _ {D : Type 0} (d : Double D) (r : Random D) where
  -- The executor with the values that the launched program has where an option is left out.
  abbrev pub retuned : Executor D r.State → Executor D r.State
  retuned e = record e {
    jitter_ms = if ltb_ℤ (pos 0) e.jitter_ms then e.jitter_ms else pos 0;
    jitter_distribution = if ltb_ℤ (pos 0) e.jitter_ms then e.jitter_distribution else "uniform";
    fire_probability = if d.lt e.fire_probability d.one then e.fire_probability else d.one;
  }

  compute_next_delay-retuned :
      (e : Executor D r.State) → compute_next_delay d r (retuned e) ≡ compute_next_delay d r e
  unfolding compute_next_delay draw_offset
  compute_next_delay-retuned e = ground arith

  should_fire-retuned :
      (e : Executor D r.State)
      → IsNumber d e.fire_probability
      → should_fire d r (retuned e) ≡ should_fire d r e
  unfolding should_fire
  should_fire-retuned e number = ground (arith, number.below, number.one_reached)

  register_callback-retuned :
      (e : Executor D r.State)
      → register_callback d r (retuned e) ≡ retuned (register_callback d r e)
  unfolding register_callback
  register_callback-retuned e = rw (compute_next_delay-retuned e) refl

  both_retuned :
      (b : Bool) (x y : Executor D r.State) {x' y' : Executor D r.State}
      → x' ≡ retuned x
      → y' ≡ retuned y
      → (if b then x' else y') ≡ retuned (if b then x else y)
  both_retuned true x y h k = h
  both_retuned false x y h k = k

  execute_sync-retuned :
      (pipe : Option Pipe) (e : Executor D r.State)
      → execute_sync d r pipe (retuned e) ≡ retuned (execute_sync d r pipe e)
  unfolding execute_sync
  execute_sync-retuned pipe e = elim (Bool-cases e.output_callback) [
    | inl on ↦ simp on (register_callback-retuned _)
    | inr off ↦ simp off (register_callback-retuned _)
  ]

  execute_async-retuned :
      (pipe : Option Pipe) (f : ForkResult) (e : Executor D r.State)
      → execute_async d r pipe f (retuned e) ≡ retuned (execute_async d r pipe f e)
  unfolding execute_async child_actions
  execute_async-retuned pipe failed e = rw (register_callback-retuned e) refl
  execute_async-retuned pipe parent e = rw (register_callback-retuned e) refl

  on_timer-retuned :
      (t : Tick) (e : Executor D r.State)
      → IsNumber d e.fire_probability
      → on_timer d r t (retuned e) ≡ retuned (on_timer d r t e)
  unfolding on_timer
  on_timer-retuned t e number = rw (should_fire-retuned e number) (
      both_retuned (should_fire d r e).0 _ _
        (both_retuned e.synchronous _ _ (execute_sync-retuned t.pipe _)
          (execute_async-retuned t.pipe t.fork_result _))
        (register_callback-retuned _))

  by_error-retuned :
      (x : TimerError) (t : Tick) (e : Executor D r.State)
      → t.error ≡ x
      → IsNumber d e.fire_probability
      → step d r (completed t) (retuned e) ≡ retuned (step d r (completed t) e)
  by_error-retuned success t e h number =
      step-success d r t (retuned e) h
      ∙ on_timer-retuned t (record e { pending = false }) number
      ∙ sym (ap (λ e'. retuned e') (step-success d r t e h))
  by_error-retuned operation_aborted t e h number =
      step-operation_aborted d r t (retuned e) h
      ∙ register_callback-retuned (record e { pending = false })
      ∙ sym (ap (λ e'. retuned e') (step-operation_aborted d r t e h))
  by_error-retuned other_error t e h number =
      step-other_error d r t (retuned e) h
      ∙ sym (ap (λ e'. retuned e') (step-other_error d r t e h))

  step-retuned :
      (v : Event) (e : Executor D r.State)
      → IsNumber d e.fire_probability
      → step d r v (retuned e) ≡ retuned (step d r v e)
  unfolding step stop
  step-retuned (completed t) e number = by_error-retuned t.error t e refl number
  step-retuned stop_called e number = refl

  step-fire_probability :
      (v : Event) (e : Executor D r.State) → (step d r v e).fire_probability ≡ e.fire_probability
  unfolding step timer_callback on_timer execute_sync execute_async register_callback stop
  step-fire_probability v e = ground arith

  run_loop-retuned :
      (vs : List Event) (e : Executor D r.State)
      → IsNumber d e.fire_probability
      → run_loop d r vs (retuned e) ≡ retuned (run_loop d r vs e)
  unfolding run_loop
  run_loop-retuned [] e number = refl
  run_loop-retuned (v ∷ vs) e number =
      let number' = subst (IsNumber d) (sym (step-fire_probability v e)) number in
      both_retuned (e.pending && not e.stopped) _ _
        (ap (run_loop d r vs) (step-retuned v e number)
          ∙ run_loop-retuned vs (step d r v e) number')
        refl

  pub run-retuned :
      (vs : List Event) (e : Executor D r.State)
      → IsNumber d e.fire_probability
      → run d r vs (retuned e) ≡ retuned (run d r vs e)
  unfolding run register_callback
  run-retuned vs e number =
      ap (run_loop d r vs) (register_callback-retuned e)
      ∙ run_loop-retuned vs (register_callback d r e) number
