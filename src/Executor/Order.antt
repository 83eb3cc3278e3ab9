-- ===== src/Executor/Order.antt =====
-- In which order the handler acts: what a run of the loop leaves in the trace.
use frequent_cron.Base.{
  [], ℕ, ◌≡◌, ◌≢◌, refl, sym, ◌∙◌, String, Bool, true, false, Option, List, ◌∷◌, arith, string_eq,
  nat_eq, if_cases, if◌then◌else◌,
}
use frequent_cron.Base.Int.{ℤ}
use frequent_cron.External.{Double, Random}
use frequent_cron.Process.{Bytes, Pipe, run_process}
use frequent_cron.Executor.{
  Executor, Tick, ForkResult, Event, completed, stop_called, other_error, failed, parent, Action,
  ChildAction, child_system, child_run_process, child_fputs, child_exit, arm, run_command, output,
  run_system, fork_child, report_fork_failure, reap, should_fire, register_callback, execute_sync,
  child_actions, execute_async, on_timer, stop, run,
}
use frequent_cron.Executor.Following.{taken, Follows, run_follows}

-- The trace of blocking execution over the events that were taken, both with the latest first. For
-- each wait that ended the timer was armed once; where the wait ran the command, that was before, and
-- the command had ended. With a callback, exactly what the command printed at that wait was handed on
-- in between. No process is forked.
pub data IsBlocking (command : String) (callback : Bool) : List Event → List Action → Type 0 where
  started : (delay : ℤ) → IsBlocking command callback [] (arm delay ∷ [])
  halted :
      {vs : List Event} {t : List Action}
      → IsBlocking command callback vs t
      → IsBlocking command callback (stop_called ∷ vs) t
  broken :
      {vs : List Event} {t : List Action} (tick : Tick)
      → tick.error ≡ other_error
      → IsBlocking command callback vs t
      → IsBlocking command callback (completed tick ∷ vs) t
  skipped :
      {vs : List Event} {t : List Action} (tick : Tick) (delay : ℤ)
      → IsBlocking command callback vs t
      → IsBlocking command callback (completed tick ∷ vs) (arm delay ∷ t)
  ran :
      {vs : List Event} {t : List Action} (tick : Tick) (delay : ℤ)
      → callback ≡ false
      → IsBlocking command callback vs t
      → IsBlocking command callback (completed tick ∷ vs) (arm delay ∷ run_system command ∷ t)
  captured :
      {vs : List Event} {t : List Action} (tick : Tick) (delay : ℤ)
      → callback ≡ true
      → IsBlocking command callback vs t
      → IsBlocking command callback
          (completed tick ∷ vs)
          (arm delay ∷ output (run_process tick.pipe).stdout_data ∷ run_command command ∷ t)

-- What a child does: it runs the command, prints what it captured of it, if that is anything, and
-- exits.
pub data IsChild (command : String) (pipe : Option Pipe) : Bool → List ChildAction → Type 0 where
  plain : IsChild command pipe false (child_system command ∷ child_exit ∷ [])
  silent :
      (run_process pipe).stdout_data ≡ []
      → IsChild command pipe true (child_run_process command ∷ child_exit ∷ [])
  printing :
      (out : Bytes)
      → out ≢ []
      → (run_process pipe).stdout_data ≡ out
      → IsChild command pipe true (child_run_process command ∷ child_fputs out ∷ child_exit ∷ [])

-- The trace of detached execution over the events that were taken. The timer is armed before the
-- command is started, in a child; the parent never runs it, and hands no output on.
pub data IsDetached (command : String) (callback : Bool) : List Event → List Action → Type 0 where
  started : (delay : ℤ) → IsDetached command callback [] (arm delay ∷ [])
  halted :
      {vs : List Event} {t : List Action}
      → IsDetached command callback vs t
      → IsDetached command callback (stop_called ∷ vs) t
  broken :
      {vs : List Event} {t : List Action} (tick : Tick)
      → tick.error ≡ other_error
      → IsDetached command callback vs t
      → IsDetached command callback (completed tick ∷ vs) t
  skipped :
      {vs : List Event} {t : List Action} (tick : Tick) (delay : ℤ)
      → IsDetached command callback vs t
      → IsDetached command callback (completed tick ∷ vs) (arm delay ∷ t)
  forked :
      {vs : List Event} {t : List Action} (tick : Tick) (delay : ℤ) (child : List ChildAction)
      → tick.fork_result ≡ parent
      → IsChild command tick.pipe callback child
      → IsDetached command callback vs t
      → IsDetached command callback
          (completed tick ∷ vs)
          (reap ∷ reap ∷ fork_child child ∷ arm delay ∷ t)
  refused :
      {vs : List Event} {t : List Action} (tick : Tick) (delay : ℤ)
      → tick.fork_result ≡ failed
      → IsDetached command callback vs t
      → IsDetached command callback (completed tick ∷ vs) (report_fork_failure ∷ arm delay ∷ t)

-- What a trace handed to the output callback, the latest first.
abbrev pub outputs : List Action → List Bytes
outputs [] = []
outputs (output out ∷ t) = out ∷ outputs t
outputs (_ ∷ t) = outputs t

module _ {D : Type 0} (d : Double D) (r : Random D) where
  -- The executor's command, callback and mode, with its trace.
  abbrev Blocks : String → Bool → List Event → Executor D r.State → Type 0
  Blocks c b past e =
      (e.command ≡ c)
      × (e.output_callback ≡ b)
      × (e.synchronous ≡ true)
      × IsBlocking c b past e.trace

  abbrev Detaches : String → Bool → List Event → Executor D r.State → Type 0
  Detaches c b past e =
      (e.command ≡ c)
      × (e.output_callback ≡ b)
      × (e.synchronous ≡ false)
      × IsDetached c b past e.trace

  execute_sync-Blocks :
      (c : String) (b : Bool) (past : List Event) (t : Tick) (e : Executor D r.State)
      → Blocks c b past e
      → Blocks c b (completed t ∷ past) (execute_sync d r t.pipe e)
  unfolding execute_sync register_callback
  execute_sync-Blocks c b past t e (q, set, sync, h) =
      if_cases (Blocks c b (completed t ∷ past)) e.output_callback _ _
        (λ on. (q, set, sync, rw q (captured t _ (sym set ∙ on) h)))
        (λ off. (q, set, sync, rw q (ran t _ (sym set ∙ off) h)))

  on_timer-Blocks :
      (c : String) (b : Bool) (past : List Event) (t : Tick) (e : Executor D r.State)
      → Blocks c b past e
      → Blocks c b (completed t ∷ past) (on_timer d r t e)
  unfolding on_timer register_callback
  on_timer-Blocks c b past t e (q, set, sync, h) =
      if_cases (Blocks c b (completed t ∷ past)) (should_fire d r e).0 _ _
        (λ _.
          if_cases (Blocks c b (completed t ∷ past)) e.synchronous _ _
            (λ _. execute_sync-Blocks c b past t _ (q, set, sync, h)) (λ async. cc))
        (λ _. (q, set, sync, IsBlocking.skipped t _ h))

  Blocks-Follows : (c : String) (b : Bool) → Follows d r (Blocks c b)
  unfolding stop register_callback
  Blocks-Follows c b = record {
    taken_off = λ past e h. h;
    halted = λ past e h. (h.0, h.1, h.2, IsBlocking.halted h.3);
    broken = λ past t e fatal h. (h.0, h.1, h.2, IsBlocking.broken t fatal h.3);
    cancelled = λ past t e h. (h.0, h.1, h.2, IsBlocking.skipped t _ h.3);
    ended = on_timer-Blocks c b;
  }

  -- A synchronous executor that has done nothing yet is blocking: over any events, of which its loop
  -- takes the first n, the timer is armed again only after the command that a wait started has ended
  -- and, with a callback, exactly what the command printed at that wait has been handed on; and no
  -- process is forked.
  pub run-IsBlocking :
      (vs : List Event) (e : Executor D r.State)
      → e.synchronous ≡ true
      → e.trace ≡ []
      → (n : ℕ) × IsBlocking e.command e.output_callback (taken n vs []) (run d r vs e).trace
  unfolding register_callback
  run-IsBlocking vs e sync h =
      let (n, k) =
        run_follows d r (Blocks e.command e.output_callback)
          (Blocks-Follows e.command e.output_callback) vs e (refl, refl, sync, rw h (started _)) in
      (n, k.3)

  child_actions-IsChild :
      (pipe : Option Pipe) (e : Executor D r.State)
      → IsChild e.command pipe e.output_callback (child_actions d r pipe e)
  unfolding child_actions
  child_actions-IsChild pipe e = by_callback e.output_callback ((run_process pipe).stdout_data) refl
    where
      by_callback :
          (b : Bool) (out : Bytes)
          → (run_process pipe).stdout_data ≡ out
          → IsChild e.command pipe b (
              if b
              then (child_run_process e.command ∷ (elim out [
                | [] ↦ child_exit ∷ []
                | c ∷ s ↦ child_fputs (c ∷ s) ∷ child_exit ∷ []
              ]))
              else child_system e.command ∷ child_exit ∷ [])
      by_callback false out h = plain
      by_callback true [] h = silent h
      by_callback true (c ∷ s) h = printing (c ∷ s) (λ q. ground arith) h

  execute_async-Detaches :
      (c : String) (b : Bool) (past : List Event) (t : Tick) (e : Executor D r.State)
      → Detaches c b past e
      → Detaches c b (completed t ∷ past) (execute_async d r t.pipe t.fork_result e)
  unfolding execute_async register_callback
  execute_async-Detaches c b past t e (q, set, async, h) = by_fork t.fork_result refl
    where
      child : IsChild c t.pipe b (child_actions d r t.pipe e)
      child = rw (sym q, sym set) (child_actions-IsChild t.pipe e)

      by_fork :
          (result : ForkResult)
          → t.fork_result ≡ result
          → Detaches c b (completed t ∷ past) (execute_async d r t.pipe result e)
      by_fork failed f = (q, set, async, refused t _ f h)
      by_fork parent f = (q, set, async, forked t _ _ f child h)

  on_timer-Detaches :
      (c : String) (b : Bool) (past : List Event) (t : Tick) (e : Executor D r.State)
      → Detaches c b past e
      → Detaches c b (completed t ∷ past) (on_timer d r t e)
  unfolding on_timer register_callback
  on_timer-Detaches c b past t e (q, set, async, h) =
      if_cases (Detaches c b (completed t ∷ past)) (should_fire d r e).0 _ _
        (λ _.
          if_cases (Detaches c b (completed t ∷ past)) e.synchronous _ _ (λ sync. cc)
            (λ _. execute_async-Detaches c b past t _ (q, set, async, h)))
        (λ _. (q, set, async, IsDetached.skipped t _ h))

  Detaches-Follows : (c : String) (b : Bool) → Follows d r (Detaches c b)
  unfolding stop register_callback
  Detaches-Follows c b = record {
    taken_off = λ past e h. h;
    halted = λ past e h. (h.0, h.1, h.2, IsDetached.halted h.3);
    broken = λ past t e fatal h. (h.0, h.1, h.2, IsDetached.broken t fatal h.3);
    cancelled = λ past t e h. (h.0, h.1, h.2, IsDetached.skipped t _ h.3);
    ended = on_timer-Detaches c b;
  }

  outputs_of_IsDetached :
      {c : String} {b : Bool} {vs : List Event} {t : List Action}
      → IsDetached c b vs t
      → outputs t ≡ []
  outputs_of_IsDetached (started delay) = refl
  outputs_of_IsDetached (halted h) = outputs_of_IsDetached h
  outputs_of_IsDetached (broken tick fatal h) = outputs_of_IsDetached h
  outputs_of_IsDetached (skipped tick delay h) = outputs_of_IsDetached h
  outputs_of_IsDetached (forked tick delay child here known h) = outputs_of_IsDetached h
  outputs_of_IsDetached (refused tick delay here h) = outputs_of_IsDetached h

  -- An asynchronous executor that has done nothing yet is detached: over any events, of which its
  -- loop takes the first n, it arms the timer before it forks; the child runs the command, prints
  -- what it captured of it, if it captures, and exits; the parent never runs the command, and never
  -- calls the output callback, whether or not one was set.
  pub run_async :
      (vs : List Event) (e : Executor D r.State)
      → e.synchronous ≡ false
      → e.trace ≡ []
      → (n : ℕ) × IsDetached e.command e.output_callback (taken n vs []) (run d r vs e).trace
        × (outputs (run d r vs e).trace ≡ [])
  unfolding register_callback
  run_async vs e async h =
      let (n, k) =
        run_follows d r (Detaches e.command e.output_callback)
          (Detaches-Follows e.command e.output_callback) vs e
          (refl, refl, async, rw h (started _)) in
      (n, k.3, outputs_of_IsDetached k.3)
