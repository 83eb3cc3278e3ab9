-- ===== src/Tests/Processes.antt =====
-- What a process printed, and a PID file, read back.
use frequent_cron.Base.{[], ℕ, ◌≤◌, ◌≡◌, some, List, ◌∷◌, arith, string_eq, nat_eq}
use frequent_cron.Base.Int.{pos}
use frequent_cron.Process.{Pipe, run_process, exited, signaled, exit_code_of}
use frequent_cron.Process.Output.{run_process_captures, ReadsTo, run_process-ReadsTo}

abbrev greeting : List ℕ
greeting = b'o' ∷ b'k' ∷ b'\n' ∷ []

run_process_captures_example :
    run_process (some (record { stream = greeting; status = exited 3 }))
    ≡ record { stdout_data = greeting; stderr_data = ""; exit_code = pos 3 }
run_process_captures_example =
    run_process_captures greeting 3
      ((λ e. ground arith), ((λ e. ground arith), ((λ e. ground arith), tt)))

-- A process that was killed after it had printed a NUL byte.
abbrev killed : Pipe
killed = record { stream = b'o' ∷ 0 ∷ b'k' ∷ []; status = signaled }

run_process-ReadsTo_example :
    (n : ℕ) × (n ≤ 3)
    × ReadsTo n killed.stream [] (run_process (some killed)).stdout_data
    × ((run_process (some killed)).exit_code ≡ exit_code_of signaled)
run_process-ReadsTo_example = run_process-ReadsTo killed
