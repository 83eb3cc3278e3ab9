-- ===== src/Registry/Start.antt =====
-- `cmd_start`.
pub mod Outcome
use frequent_cron.Base.{
  ℕ, zero, String, ◌<>◌, Bool, true, false, ◌==◌, string_eq, nat_eq, if◌then◌else◌,
}
use frequent_cron.Base.Int.{ℤ, pos}
use frequent_cron.Base.Decimal.{to_string}
use frequent_cron.Arguments.{quoted, arguments_text, launch_arguments}
use frequent_cron.Paths.{pid_path}
use frequent_cron.Database.{ServiceRecord, initial_state, update_state, get_service}
use frequent_cron.Registry.World.{
  ◌>>=◌, ◌>>◌, Context, Action, pure, say, complain, on_db, call_os, ask_os, on_option,
}
use frequent_cron.Registry.Status.{not_found, get_binary_path, get_actual_status}
use frequent_cron.Registry.Stop.{wait_until, pid_from_file}

-- rc != 0
abbrev pub nonzero : ℤ → Bool
nonzero (pos zero) = false
nonzero _ = true

module _ {D : Type 0} (c : Context D) where
  -- The command line that launches the program in its run mode.
  unfoldable pub launch_command : String → String → ServiceRecord D → String
  launch_command name bin_path service =
      quoted bin_path
      <> " run"
      <> arguments_text c.double
          (launch_arguments c.double name c.data_dir (pid_path c.data_dir name) service)

  -- Once the command line has been handed to the shell.
  unfoldable pub record_start : String → Action c ℕ
  record_start name = do
    wait_until c 10 (c.os.exists (pid_path c.data_dir name))
    pid ← ask_os c (pid_from_file c name)
    on_db c (
        update_state name
          (record initial_state { status = "running"; pid = pid; last_started_at = "now" }))
    say c ("Service '" <> name <> "' started (pid " <> to_string pid <> ").\n")
    pure c 0

  unfoldable pub launch : String → ServiceRecord D → Action c ℕ
  launch name service = do
    bin_path ← get_binary_path c
    rc ← call_os c (c.os.system (launch_command name bin_path service <> " &"))
    if nonzero rc
        then (do complain c ("Failed to start service '" <> name <> "'.\n"); pure c 1)
        else record_start name

  unfoldable pub start_registered : String → ServiceRecord D → Action c ℕ
  start_registered name service = do
    status ← get_actual_status c name
    if status == "running"
        then (do complain c ("Service '" <> name <> "' is already running.\n"); pure c 1)
        else launch name service

  unfoldable pub cmd_start : String → Action c ℕ
  cmd_start name = do
    service ← on_db c (get_service name)
    on_option c service (not_found c name) λ rec. start_registered name rec
