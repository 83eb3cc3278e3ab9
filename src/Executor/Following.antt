-- ===== src/Executor/Following.antt =====
-- What holds of the executor and the events that its loop has taken so far.
use frequent_cron.Base.{
  [], ℕ, zero, suc, ◌≡◌, inl, inr, refl, false, not, ◌&&◌, List, ◌∷◌, Bool-cases,
}
use frequent_cron.External.{Double, Random}
use frequent_cron.Executor.{
  Executor, Tick, TimerError, Event, completed, stop_called, success, operation_aborted,
  other_error, register_callback, on_timer, step, stop, run_loop, run,
}
use frequent_cron.Executor.Loop.{step-other_error, step-success, step-operation_aborted}

-- The first n of some events, the latest first, before those of the past.
unfoldable pub taken : ℕ → List Event → List Event → List Event
taken zero vs past = past
taken (suc n) [] past = past
taken (suc n) (v ∷ vs) past = taken n vs (v ∷ past)

module _ {D : Type 0} (d : Double D) (r : Random D) where
  -- What each event adds to the past, and to the executor.
  pub record Follows (P : List Event → Executor D r.State → Type 0) : Type 0 where
    pub taken_off :
        (past : List Event) (e : Executor D r.State)
        → P past e
        → P past (record e { pending = false })
    pub halted :
        (past : List Event) (e : Executor D r.State)
        → P past e
        → P (stop_called ∷ past) (stop d r e)
    pub broken :
        (past : List Event) (t : Tick) (e : Executor D r.State)
        → t.error ≡ other_error
        → P past e
        → P (completed t ∷ past) e
    pub cancelled :
        (past : List Event) (t : Tick) (e : Executor D r.State)
        → P past e
        → P (completed t ∷ past) (register_callback d r e)
    pub ended :
        (past : List Event) (t : Tick) (e : Executor D r.State)
        → P past e
        → P (completed t ∷ past) (on_timer d r t e)

  step_follows :
      (P : List Event → Executor D r.State → Type 0)
      → Follows P
      → (v : Event) (past : List Event) (e : Executor D r.State) → P past e
      → P (v ∷ past) (step d r v e)
  step_follows P f stop_called past e h = unfold step in f.halted past e h
  step_follows P f (completed t) past e h = by_error t.error refl
    where
      off : P past (record e { pending = false })
      off = f.taken_off past e h

      by_error :
          (error : TimerError) → t.error ≡ error → P (completed t ∷ past) (step d r (completed t) e)
      by_error other_error q = rw (step-other_error d r t e q) (f.broken past t _ q off)
      by_error operation_aborted q =
          rw (step-operation_aborted d r t e q) (f.cancelled past t _ off)
      by_error success q = rw (step-success d r t e q) (f.ended past t _ off)

  run_loop_follows :
      (P : List Event → Executor D r.State → Type 0)
      → Follows P
      → (vs past : List Event) (e : Executor D r.State) → P past e
      → (n : ℕ) × P (taken n vs past) (run_loop d r vs e)
  unfolding run_loop taken
  run_loop_follows P f [] past e h = (0, h)
  run_loop_follows P f (v ∷ vs) past e h = elim (Bool-cases (e.pending && not e.stopped)) [
    | inl on ↦
        let (n, k) =
          run_loop_follows P f vs (v ∷ past) (step d r v e) (step_follows P f v past e h) in
        (suc n, simp on k)
    | inr over ↦ (0, simp over h)
  ]

  -- Over any events, the loop takes the first n of them, and what each of them leaves then holds.
  pub run_follows :
      (P : List Event → Executor D r.State → Type 0)
      → Follows P
      → (vs : List Event) (e : Executor D r.State) → P [] (register_callback d r e)
      → (n : ℕ) × P (taken n vs []) (run d r vs e)
  unfolding run
  run_follows P f vs e h = run_loop_follows P f vs [] _ h
