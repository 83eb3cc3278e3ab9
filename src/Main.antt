-- ===== src/Main.antt =====
-- src/main.cc: what `run` sets up from a configuration.
pub mod Dispatch
pub mod Retuned
pub mod Launch
pub mod Units
pub mod Logging
pub mod Setup
pub mod PidFiles
use frequent_cron.Base.{
  ℕ, ◌*◌, ◌-◌, ◌%◌, ◌^◌, String, Bool, not, ◌&&◌, Option, none, some, ◌==◌, string_eq, nat_eq,
  if◌then◌else◌,
}
use frequent_cron.Base.Int.{ℤ, pos, negsuc}
use frequent_cron.External.{Double, Random}
use frequent_cron.Paths.{◌//◌}
use frequent_cron.Config.{Config}
use frequent_cron.DataDir.{Environment, get_default}
use frequent_cron.LogManager.{LogManager}
use frequent_cron.Executor.{Executor, make_executor, set_output_callback}

-- static_cast<size_t>( mb ) * 1024 * 1024
unfoldable pub bytes_of_mb : ℤ → ℕ
bytes_of_mb (pos n) = n * 1048576 % 2 ^ 64
bytes_of_mb (negsuc n) = (2 ^ 64 - 1 - n) * 1048576 % 2 ^ 64

-- What `cmd_run` comes to: an exit code, or the executor that it runs, with the log manager that the
-- executor's callback writes to, if there is one.
pub data Run (D G : Type 0) : Type 0 where
  gave_up : ℕ → Run D G
  running : Option LogManager → Executor D G → Run D G

module _ {D : Type 0} (d : Double D) (r : Random D) where
  -- config.data_dir.empty() ? data_dir::get_default() : config.data_dir
  unfoldable pub chosen_dir : Environment → Config D → String
  chosen_dir env config = if config.data_dir == "" then get_default env else config.data_dir

  unfoldable pub run_log : Environment → Config D → Option LogManager
  run_log env config =
      if config.service_name == ""
      then none
      else some (record {
        log_dir = chosen_dir env config // "logs";
        max_file_size = bytes_of_mb config.log_max_size_mb;
        max_files = config.log_max_files;
      })

  unfoldable pub run_executor : Config D → r.State → Executor D r.State
  run_executor config seed =
      let e =
        make_executor d r config.command config.frequency config.synchronous config.jitter_ms
          config.jitter_distribution config.fire_probability seed in
      if config.service_name == "" then e else set_output_callback d r e

  -- `daemonized` and `written` are the results of `daemonize` and `write_pid_file`.
  unfoldable pub cmd_run : Environment → Bool → Bool → Config D → r.State → Run D r.State
  cmd_run env daemonized written config seed =
      if not daemonized
      then gave_up 1
      else if config.has_pid_file && not written
      then gave_up 1
      else running (run_log env config) (run_executor config seed)
