-- ===== src/Process.antt =====
-- src/process.cc and include/process_runner.h, in the POSIX build: a command is run through
-- `popen`, and what it prints is read line by line into one string.
pub mod Output
use frequent_cron.Base.{
  ℕ, zero, suc, ◌+◌, String, ◌<>◌, Option, none, some, List, [], ◌∷◌, ◌++◌, ◌==◌, nat_eq,
  if◌then◌else◌,
}
use frequent_cron.Base.Lists.{length}
use frequent_cron.Base.Int.{ℤ, pos, negsuc}

-- The bytes of a `std::string` that a program prints.
abbrev pub Bytes : Type 0
Bytes = List ℕ

abbrev pub newline : ℕ
newline = 10

-- What `pclose` returns, as `WIFEXITED` and `WEXITSTATUS` read it.
pub data WaitStatus : Type 0 where
  exited : ℕ → WaitStatus
  signaled : WaitStatus

-- An open pipe: all that the command will print, and how it ends.
pub record Pipe : Type 0 where
  pub stream : Bytes
  pub status : WaitStatus

pub record ProcessResult : Type 0 where
  pub exit_code : ℤ
  pub stdout_data : Bytes
  pub stderr_data : String

abbrev pub initial_result : ProcessResult
initial_result = record { exit_code = negsuc 0; stdout_data = []; stderr_data = "" }

-- The line that `popen` is given.
unfoldable pub full_command : String → String
full_command command = command <> " 2>&1"

-- `fgets` with a buffer of n + 1 bytes: what it reads, and what it leaves in the stream.
unfoldable pub fgets : ℕ → Bytes → Bytes × Bytes
fgets zero s = ([], s)
fgets (suc n) [] = ([], [])
fgets (suc n) (c ∷ s) =
    if c == newline then (c ∷ [], s) else let (line, rest) = fgets n s in (c ∷ line, rest)

-- The bytes of a buffer that `+=` appends: it stops at the first NUL.
unfoldable pub c_string : Bytes → Bytes
c_string [] = []
c_string (c ∷ s) = if c == 0 then [] else c ∷ c_string s

-- sizeof(buffer) - 1
abbrev pub buffer_room : ℕ
buffer_room = 4095

-- The reading loop. `fgets` fails when nothing is left; each round takes a byte at least.
unfoldable pub read_pipe : ℕ → Bytes → Bytes → Bytes
read_pipe zero s stdout_data = stdout_data
read_pipe (suc fuel) [] stdout_data = stdout_data
read_pipe (suc fuel) (c ∷ s) stdout_data =
    let (line, rest) = fgets buffer_room (c ∷ s) in
    read_pipe fuel rest (stdout_data ++ c_string line)

unfoldable pub exit_code_of : WaitStatus → ℤ
exit_code_of (exited n) = pos n
exit_code_of signaled = negsuc 0

-- `run_process`, given what `popen` of its command returns.
unfoldable pub run_process : Option Pipe → ProcessResult
unfolding read_pipe exit_code_of
run_process none = record initial_result { stderr_data = "Failed to execute command" }
run_process (some pipe) = record initial_result {
  stdout_data = read_pipe (length pipe.stream + 1) pipe.stream [];
  exit_code = exit_code_of pipe.status;
}
