-- ===== src/Executor.antt =====
-- src/executor.cc and include/executor.h, in the POSIX build: the timer that runs the command.
--
-- The event loop of Boost.Asio is outside. A `Tick` is one completion of the timer's wait, with
-- the answers that the environment gives while the handler runs; `run` takes a list of them. What
-- the handler does to the world is written to `trace`, the latest action first.
pub mod Delay
pub mod Loop
pub mod Counting
pub mod Firing
pub mod Following
pub mod Order
use frequent_cron.Base.{
  String, Bool, true, false, ◌&&◌, not, Option, List, [], ◌∷◌, ◌==◌, string_eq, if◌then◌else◌,
}
use frequent_cron.Base.Int.{ℤ, pos, ◌+ℤ◌, negate, ltb_ℤ, leb_ℤ, min_ℤ, max_ℤ, to_int32}
use frequent_cron.External.{Double, Random}
use frequent_cron.Process.{Bytes, Pipe, run_process}

-- The error code of a wait that ended.
pub data TimerError : Type 0 where
  success operation_aborted other_error : TimerError

-- What `fork` returns in the parent.
pub data ForkResult : Type 0 where
  failed parent : ForkResult

pub record Tick : Type 0 where
  pub error : TimerError
  -- what `popen` gives, should the handler run the command through it
  pub pipe : Option Pipe
  pub fork_result : ForkResult

-- What the event loop meets: a completed wait, or a call of `stop` from outside.
pub data Event : Type 0 where
  completed : Tick → Event
  stop_called : Event

pub data ChildAction : Type 0 where
  child_run_process : String → ChildAction
  child_fputs : Bytes → ChildAction
  child_system : String → ChildAction
  child_exit : ChildAction

pub data Action : Type 0 where
  -- expires_after( delay ) and async_wait
  arm : ℤ → Action
  -- run_process( command ), and the call of the output callback
  run_command : String → Action
  output : Bytes → Action
  -- system( command )
  run_system : String → Action
  -- a child process that does the listed actions in order, beside the parent
  fork_child : List ChildAction → Action
  report_fork_failure : Action
  -- waitpid( -1, …, WNOHANG | … )
  reap : Action

pub record Executor (D G : Type 0) : Type 0 where
  pub command : String
  pub frequency : ℤ
  pub synchronous : Bool
  pub jitter_ms : ℤ
  pub jitter_distribution : String
  pub fire_probability : D
  pub execution_count : ℤ
  pub skip_count : ℤ
  -- whether `set_output_callback` was called
  pub output_callback : Bool
  pub rng : G
  -- whether the io_context has a wait outstanding
  pub pending : Bool
  -- whether the io_context was stopped
  pub stopped : Bool
  pub trace : List Action

module _ {D : Type 0} (d : Double D) (r : Random D) where
  -- The constructor; `seed` is the generator that `std::random_device` starts.
  unfoldable pub make_executor : String → ℤ → Bool → ℤ → String → D → r.State → Executor D r.State
  make_executor command frequency_ms synchronous jitter_ms jitter_distribution p seed = record {
    command = command;
    frequency = frequency_ms;
    synchronous = synchronous;
    jitter_ms = jitter_ms;
    jitter_distribution = jitter_distribution;
    fire_probability = p;
    execution_count = pos 0;
    skip_count = pos 0;
    output_callback = false;
    rng = seed;
    pending = false;
    stopped = false;
    trace = [];
  }

  unfoldable pub set_output_callback : Executor D r.State → Executor D r.State
  set_output_callback e = record e { output_callback = true }

  -- The jitter of one delay: drawn, and for the normal distribution rounded and clamped.
  unfoldable pub draw_offset : Executor D r.State → ℤ × r.State
  draw_offset e =
      if e.jitter_distribution == "normal"
      then (let (x, g) = r.normal d.nought (d.of_int e.jitter_ms) e.rng in
          (max_ℤ (negate e.jitter_ms) (min_ℤ e.jitter_ms (d.round x)), g))
      else r.uniform_int (negate e.jitter_ms) e.jitter_ms e.rng

  -- int delay = frequency_.count() + offset; if( delay < 1 ) delay = 1;
  unfoldable pub delay_with : ℤ → ℤ → ℤ
  delay_with frequency offset =
      let delay = to_int32 (frequency +ℤ offset) in if ltb_ℤ delay (pos 1) then pos 1 else delay

  unfoldable pub compute_next_delay : Executor D r.State → ℤ × r.State
  compute_next_delay e =
      if leb_ℤ e.jitter_ms (pos 0)
      then (e.frequency, e.rng)
      else (let (offset, g) = draw_offset e in (delay_with e.frequency offset, g))

  unfoldable pub should_fire : Executor D r.State → Bool × r.State
  should_fire e =
      if d.le d.one e.fire_probability
      then (true, e.rng)
      else if d.le e.fire_probability d.nought
      then (false, e.rng)
      else (let (x, g) = r.uniform_real d.nought d.one e.rng in (d.lt x e.fire_probability, g))

  abbrev emit : Action → Executor D r.State → Executor D r.State
  emit a e = record e { trace = a ∷ e.trace }

  unfoldable pub register_callback : Executor D r.State → Executor D r.State
  register_callback e =
      let (delay, g) = compute_next_delay e in
      record e { rng = g; pending = true; trace = arm delay ∷ e.trace }

  unfoldable pub execute_sync : Option Pipe → Executor D r.State → Executor D r.State
  execute_sync pipe e =
      if e.output_callback
      then register_callback
          (emit (output (run_process pipe).stdout_data) (emit (run_command e.command) e))
      else register_callback (emit (run_system e.command) e)

  -- What the child does after `fork`; it writes to its own standard output, if there is any output.
  unfoldable pub child_actions : Option Pipe → Executor D r.State → List ChildAction
  child_actions pipe e =
      if e.output_callback
      then (child_run_process e.command ∷ (elim (run_process pipe).stdout_data [
        | [] ↦ child_exit ∷ []
        | c ∷ s ↦ child_fputs (c ∷ s) ∷ child_exit ∷ []
      ]))
      else child_system e.command ∷ child_exit ∷ []

  unfoldable pub execute_async : Option Pipe → ForkResult → Executor D r.State → Executor D r.State
  execute_async pipe failed e = emit report_fork_failure (register_callback e)
  execute_async pipe parent e =
      emit reap (emit reap (emit (fork_child (child_actions pipe e)) (register_callback e)))

  -- The body of `timer_callback` for a wait that ran to its end.
  unfoldable pub on_timer : Tick → Executor D r.State → Executor D r.State
  on_timer t e =
      let (fires, g) = should_fire e in
      let e' = record e { rng = g } in
      let skipped = record e' { skip_count = to_int32 (e.skip_count +ℤ pos 1) } in
      let counted = record e' { execution_count = to_int32 (e.execution_count +ℤ pos 1) } in
      if fires
      then if e.synchronous
        then execute_sync t.pipe counted
        else execute_async t.pipe t.fork_result counted
      else register_callback skipped

  unfoldable pub timer_callback : Tick → Executor D r.State → Executor D r.State
  timer_callback t e = elim t.error [
    | operation_aborted ↦ register_callback e
    | other_error ↦ e
    | success ↦ on_timer t e
  ]

  unfoldable pub stop : Executor D r.State → Executor D r.State
  stop e = record e { stopped = true }

  -- A completion takes the outstanding wait off the queue before its handler is called.
  unfoldable pub step : Event → Executor D r.State → Executor D r.State
  step (completed t) e = timer_callback t (record e { pending = false })
  step stop_called e = stop e

  -- io_context::run goes on while it is not stopped and a wait is outstanding.
  unfoldable pub run_loop : List Event → Executor D r.State → Executor D r.State
  run_loop [] e = e
  run_loop (v ∷ vs) e =
      let rest = run_loop vs (step v e) in if e.pending && not e.stopped then rest else e

  -- Executor::run
  unfoldable pub run : List Event → Executor D r.State → Executor D r.State
  run vs e = run_loop vs (register_callback e)
