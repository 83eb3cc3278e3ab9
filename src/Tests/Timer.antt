-- ===== src/Tests/Timer.antt =====
-- Executions of the timer on concrete events.
use frequent_cron.Base.{
  [], ℕ, ◌+◌, ◌≡◌, refl, ap, true, false, some, List, ◌∷◌, arith, string_eq, nat_eq,
}
use frequent_cron.Base.Int.{pos, ◌+ℤ◌, ◌≤ℤ◌, negate, to_int32, pos_part, neg_part, max_ℤ}
use text.Mathlib.TextEquality.{eq_iff}
use frequent_cron.Process.{Pipe, exited}
use frequent_cron.Executor.{
  Executor, Tick, Event, completed, success, operation_aborted, parent, make_executor,
  set_output_callback, draw_offset, compute_next_delay, run,
}
use frequent_cron.Executor.Delay.{compute_next_delay_bounds, compute_next_delay_overflow}
use frequent_cron.Executor.Loop.{IsWaiting, AllGoOn, run-IsWaiting}
use frequent_cron.Executor.Counting.{run-Counts}
use frequent_cron.Executor.Following.{taken}
use frequent_cron.Executor.Order.{IsBlocking, IsDetached, outputs, run-IsBlocking, run_async}
use frequent_cron.Tests.{permille, counting, counting-IsUniform}

abbrev pipe : Pipe
pipe = record { stream = b'o' ∷ b'k' ∷ []; status = exited 0 }

abbrev tick : Tick
tick = record { error = success; pipe = some pipe; fork_result = parent }

abbrev cancelled : Tick
cancelled = record tick { error = operation_aborted }

abbrev ticks : List Event
ticks = completed tick ∷ completed cancelled ∷ completed tick ∷ completed tick ∷ []

ticks-AllGoOn : AllGoOn ticks
ticks-AllGoOn =
    ((λ e. ground arith), ((λ e. ground arith), ((λ e. ground arith), ((λ e. ground arith), tt))))

-- Fires every other time, give or take 50 ms.
abbrev half : Executor ℕ ℕ
unfolding make_executor set_output_callback
half =
    set_output_callback permille counting
      (make_executor permille counting "date" (pos 1000) true (pos 50) "uniform" 400 0)

abbrev detached : Executor ℕ ℕ
detached = record half { synchronous = false }

abbrev endless : Executor ℕ ℕ
endless = record half { frequency = pos 2147483640; fire_probability = 1000 }

compute_next_delay_bounds_example :
    (max_ℤ (pos 1) (half.frequency +ℤ negate half.jitter_ms)
      ≤ℤ (compute_next_delay permille counting half).0)
    × ((compute_next_delay permille counting half).0
        ≤ℤ max_ℤ (pos 1) (half.frequency +ℤ half.jitter_ms))
unfolding half
compute_next_delay_bounds_example =
    compute_next_delay_bounds permille counting half counting-IsUniform (omega arith) (omega arith)
      (omega arith, omega arith) (omega arith)

drawn : (draw_offset permille counting endless).0 ≡ pos 50
unfolding half draw_offset
drawn = ground (arith, eq_iff "uniform" "normal")

-- 2147483640 + 50 does not fit in an `int`.
compute_next_delay_overflow_example : (compute_next_delay permille counting endless).0 ≡ pos 1
unfolding half ◌+ℤ◌
compute_next_delay_overflow_example =
    compute_next_delay_overflow permille counting endless (omega arith) (omega arith, omega arith)
      (omega (arith, ap pos_part drawn), omega (arith, ap neg_part drawn)) (rw drawn (omega arith))

run-IsWaiting_example : IsWaiting permille counting (run permille counting ticks half)
unfolding half
run-IsWaiting_example = run-IsWaiting permille counting ticks half refl ticks-AllGoOn

run-Counts_example :
    (n : ℕ) × (m : ℕ) × (n + m ≡ 3)
    × ((run permille counting ticks half).execution_count ≡ to_int32 (pos n))
    × ((run permille counting ticks half).skip_count ≡ to_int32 (pos m))
unfolding half
run-Counts_example = run-Counts permille counting ticks half refl refl refl ticks-AllGoOn

run-IsBlocking_example :
    (n : ℕ) × IsBlocking "date" half.output_callback
      (taken n ticks [])
      (run permille counting ticks half).trace
unfolding half
run-IsBlocking_example = run-IsBlocking permille counting ticks half refl refl

run_async_example :
    (n : ℕ) × IsDetached "date" detached.output_callback
      (taken n ticks [])
      (run permille counting ticks detached).trace
    × (outputs (run permille counting ticks detached).trace ≡ [])
unfolding half
run_async_example = run_async permille counting ticks detached refl refl
