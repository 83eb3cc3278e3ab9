-- ===== src/Registry/Status.antt =====
-- `get_binary_path`, `is_process_running` and `get_actual_status`.
pub mod Healing
use frequent_cron.Base.{
  ℕ, String, ◌<>◌, Bool, false, not, ◌&&◌, ◌==◌, string_eq, nat_eq, if◌then◌else◌,
}
use frequent_cron.Base.Int.{ℤ, pos, ltb_ℤ, leb_ℤ}
use frequent_cron.Database.{ServiceState, get_state, update_state}
use frequent_cron.Registry.World.{
  ◌>>=◌, ◌>>◌, Context, Action, pure, complain, on_db, ask_os, on_option,
}

module _ {D : Type 0} (c : Context D) where
  -- What each command says of a name that is not registered.
  unfoldable pub not_found : String → Action c ℕ
  not_found name = do complain c ("Service '" <> name <> "' not found.\n"); pure c 1

  -- Linux: the link of the running program, or its bare name.
  unfoldable pub get_binary_path : Action c String
  get_binary_path = do
    link ← ask_os c c.os.self_exe
    on_option c link (pure c "frequent-cron") (pure c)

  unfoldable pub is_process_running : ℤ → Action c Bool
  is_process_running pid = if leb_ℤ pid (pos 0) then pure c false else ask_os c (c.os.alive pid)

  -- A process that died is written down as stopped.
  unfoldable pub known_status : String → ServiceState → Action c String
  known_status name st =
      if st.status == "running" && ltb_ℤ (pos 0) st.pid
      then (do
        running ← is_process_running st.pid
        if running then pure c "running" else do
          on_db c (update_state name (record st { status = "stopped"; pid = pos 0 }))
          pure c "stopped")
      else pure c st.status

  unfoldable pub get_actual_status : String → Action c String
  get_actual_status name = do
    state ← on_db c (get_state name)
    on_option c state (pure c "unknown") (known_status name)
