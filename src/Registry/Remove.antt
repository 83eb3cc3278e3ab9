-- ===== src/Registry/Remove.antt =====
-- `cmd_remove`.
pub mod Outcome
pub mod Units
use frequent_cron.Base.{ℕ, zero, suc, ◌+◌, String, ◌<>◌, ◌==◌, string_eq, nat_eq, if◌then◌else◌}
use frequent_cron.Base.Int.{pos}
use frequent_cron.Paths.{pid_path, log_path, rotated_path}
use frequent_cron.Database.{get_service, remove_service}
use frequent_cron.Registry.World.{
  ◌>>=◌, ◌>>◌, Context, Action, pure, say, complain, on_db, on_os, on_platform, on_option,
}
use frequent_cron.Registry.Status.{not_found, get_actual_status}
use frequent_cron.Registry.Stop.{cmd_stop}

module _ {D : Type 0} (c : Context D) where
  -- for( int i = 0; i < 10; i++ ), from the round `i` with `n` rounds left
  unfoldable pub remove_rotated : String → ℕ → ℕ → Action c (Unit {0})
  remove_rotated name zero i = pure c tt
  remove_rotated name (suc n) i = do
    on_os c (c.os.remove (rotated_path c.data_dir name (pos i)))
    remove_rotated name n (i + 1)

  -- The PID file and the logs.
  unfoldable pub clean_up : String → Action c (Unit {0})
  clean_up name = do
    on_os c (c.os.remove (pid_path c.data_dir name))
    remove_rotated name 10 0
    on_os c (c.os.remove (log_path c.data_dir name))

  unfoldable pub remove_stopped : String → Action c ℕ
  remove_stopped name = do
    on_platform c (λ p. p.uninstall name)
    removed ← on_db c (remove_service name)
    if removed
        then (do clean_up name; say c ("Service '" <> name <> "' removed.\n"); pure c 0)
        else (do complain c ("Failed to remove service '" <> name <> "'.\n"); pure c 1)

  unfoldable pub remove_registered : String → Action c ℕ
  remove_registered name = do
    status ← get_actual_status c name
    if status == "running" then (do cmd_stop c name; remove_stopped name) else remove_stopped name

  unfoldable pub cmd_remove : String → Action c ℕ
  cmd_remove name = do
    existing ← on_db c (get_service name)
    on_option c existing (not_found c name) λ rec. remove_registered name
