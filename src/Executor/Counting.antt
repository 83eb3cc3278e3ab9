-- ===== src/Executor/Counting.antt =====
-- Every tick is counted once.
use frequent_cron.Base.{
  ℕ, ◌+◌, ◌≡◌, inl, inr, refl, false, List, [], ◌∷◌, arith, string_eq, nat_eq, if◌then◌else◌,
  Bool-cases,
}
use frequent_cron.Base.Int.{pos, ◌+ℤ◌, to_int32, to_int32_count}
use frequent_cron.External.{Double, Random}
use frequent_cron.Executor.{
  Executor, Tick, TimerError, Event, completed, stop_called, success, operation_aborted,
  other_error, should_fire, register_callback, execute_sync, execute_async, on_timer, step,
  run_loop, run,
}
use frequent_cron.Executor.Loop.{
  GoesOn, AllGoOn, IsWaiting, step-success, step-operation_aborted, step-IsWaiting, run_loop-cons,
}

-- How many waits ran to their end.
abbrev pub expiries : List Event → ℕ
expiries [] = 0
expiries (completed t ∷ vs) = elim t.error [
  | success ↦ 1 + expiries vs
  | operation_aborted ↦ expiries vs
  | other_error ↦ expiries vs
]
expiries (stop_called ∷ vs) = expiries vs

module _ {D : Type 0} (d : Double D) (r : Random D) where
  -- The two counters, as far as an `int` can hold them.
  abbrev pub Counts : ℕ → ℕ → Executor D r.State → Type 0
  Counts n m e = (e.execution_count ≡ to_int32 (pos n)) × (e.skip_count ≡ to_int32 (pos m))

  on_timer-execution_count :
      (t : Tick) (e : Executor D r.State)
      → (on_timer d r t e).execution_count ≡ (
          if (should_fire d r e).0
          then to_int32 (e.execution_count +ℤ pos 1)
          else e.execution_count)
  unfolding on_timer execute_sync execute_async register_callback
  on_timer-execution_count t e = ground arith

  on_timer-skip_count :
      (t : Tick) (e : Executor D r.State)
      → (on_timer d r t e).skip_count
        ≡ (if (should_fire d r e).0 then e.skip_count else to_int32 (e.skip_count +ℤ pos 1))
  unfolding on_timer execute_sync execute_async register_callback
  on_timer-skip_count t e = ground arith

  on_timer-Counts :
      (t : Tick) (n m : ℕ) (e : Executor D r.State)
      → Counts n m e
      → (n' : ℕ) × (m' : ℕ) × (n' + m' ≡ n + m + 1) × Counts n' m' (on_timer d r t e)
  on_timer-Counts t n m e h =
      let ran = on_timer-execution_count t e in
      let passed = on_timer-skip_count t e in
      elim (Bool-cases (should_fire d r e).0) [
        | inl fires ↦ (n + 1, m, omega arith, ground (arith, ran, passed, to_int32_count n))
        | inr skips ↦ (n, m + 1, omega arith, ground (arith, ran, passed, to_int32_count m))
      ]

  step-Counts :
      (v : Event) (n m : ℕ) (e : Executor D r.State)
      → GoesOn v
      → Counts n m e
      → (n' : ℕ) × (m' : ℕ) × (n' + m' ≡ n + m + expiries (v ∷ [])) × Counts n' m' (step d r v e)
  unfolding register_callback
  step-Counts stop_called n m e g h = absurd g
  step-Counts (completed t) n m e g h = by_error t.error refl
    where
      by_error :
          (error : TimerError)
          → t.error ≡ error
          → (n' : ℕ) × (m' : ℕ) × (n' + m' ≡ n + m + expiries (completed t ∷ []))
            × Counts n' m' (step d r (completed t) e)
      by_error other_error q = absurd (g q)
      by_error operation_aborted q = (n, m, ground arith, rw (step-operation_aborted d r t e q) h)
      by_error success q =
          let (n', m', sum, h') = on_timer-Counts t n m (record e { pending = false }) h in
          (n', m', ground arith, rw (step-success d r t e q) h')

  expiries-cons :
      (v : Event) (vs : List Event) → expiries (v ∷ vs) ≡ expiries (v ∷ []) + expiries vs
  expiries-cons (completed t) vs = ground arith
  expiries-cons stop_called vs = omega arith

  run_loop-Counts :
      (vs : List Event) (n m : ℕ) (e : Executor D r.State)
      → AllGoOn vs
      → IsWaiting d r e
      → Counts n m e
      → (n' : ℕ) × (m' : ℕ) × (n' + m' ≡ n + m + expiries vs) × Counts n' m' (run_loop d r vs e)
  run_loop-Counts [] n m e g w h = (n, m, omega arith, unfold run_loop in h)
  run_loop-Counts (v ∷ vs) n m e g w h =
      let (n', m', sum, h') = step-Counts v n m e g.0 h in
      let (n'', m'', sum', h'') =
        run_loop-Counts vs n' m' (step d r v e) g.1 (step-IsWaiting d r v e g.0 w) h' in
      (n'', m'', omega (arith, expiries-cons v vs), rw (run_loop-cons d r v vs e w) h'')

  -- From counters at 0, and as long as no wait fails and nobody stops the loop, every wait that
  -- runs to its end is counted once: as an execution or as a skip. The counters are those two
  -- numbers as an `int` holds them.
  pub run-Counts :
      (vs : List Event) (e : Executor D r.State)
      → e.stopped ≡ false
      → e.execution_count ≡ pos 0
      → e.skip_count ≡ pos 0
      → AllGoOn vs
      → (n : ℕ) × (m : ℕ) × (n + m ≡ expiries vs)
        × ((run d r vs e).execution_count ≡ to_int32 (pos n))
        × ((run d r vs e).skip_count ≡ to_int32 (pos m))
  unfolding run register_callback
  run-Counts vs e s none_ran none_skipped g =
      let (n, m, sum, h) =
        run_loop-Counts vs 0 0 (register_callback d r e) g (refl, s)
          (unfold to_int32 in (none_ran, none_skipped)) in
      (n, m, omega arith, h.0, h.1)
