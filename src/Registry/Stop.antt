-- ===== src/Registry/Stop.antt =====
-- `cmd_stop`.
pub mod Outcome
use frequent_cron.Base.{
  ℕ, zero, suc, String, ◌<>◌, Bool, not, ◌||◌, Option, none, some, if◌then◌else◌,
}
use frequent_cron.Base.Int.{ℤ, pos, ltb_ℤ, leb_ℤ}
use frequent_cron.Process.{Bytes}
use frequent_cron.PidFile.{extract_int}
use frequent_cron.Paths.{pid_path}
use frequent_cron.Database.{ServiceState, initial_state, get_state, update_state, get_service}
use frequent_cron.Registry.World.{
  ◌>>=◌, ◌>>◌, Context, World, Action, pure, say, complain, on_db, on_os, ask_os, on_option,
}
use frequent_cron.Registry.Status.{not_found, is_process_running}

-- `pf >> pid` on a file that could be opened, or not.
abbrev pub pid_of_file : Option Bytes → ℤ
pid_of_file none = pos 0
pid_of_file (some content) = extract_int content

module _ {D : Type 0} (c : Context D) where
  -- At most `n` rounds of 100 ms, until the test holds of the system.
  unfoldable pub wait_until : ℕ → (c.os.State → Bool) → Action c (Unit {0})
  wait_until zero test w = (tt, w)
  wait_until (suc n) test w =
      let s = c.os.sleep 100000 w.os in
      let w' : World c = record w { os = s } in
      let rest = wait_until n test w' in if test s then (tt, w') else rest

  -- The PID that is written in the service's PID file, if there is such a file.
  unfoldable pub pid_from_file : String → c.os.State → ℤ
  pid_from_file name s =
      let path = pid_path c.data_dir name in
      if c.os.exists path s then pid_of_file (c.os.read path s) else pos 0

  -- `state`, once the PID file has been looked at in place of a missing PID.
  unfoldable pub state_to_stop : String → Option ServiceState → c.os.State → Option ServiceState
  state_to_stop name state s =
      let pid = pid_from_file name s in
      let from_file =
        if ltb_ℤ (pos 0) pid
        then some (record initial_state { status = "running"; pid = pid })
        else state in
      elim state [
        | none ↦ from_file
        | some st ↦ if leb_ℤ st.pid (pos 0) then from_file else some st
      ]

  unfoldable pub not_running : String → Action c ℕ
  not_running name = do
    complain c ("Service '" <> name <> "' is not running.\n")
    on_db c (update_state name (record initial_state { status = "stopped" }))
    pure c 1

  unfoldable pub stop_process : String → ℤ → Action c ℕ
  stop_process name pid = do
    on_os c (c.os.terminate pid)
    wait_until 20 (λ s. leb_ℤ pid (pos 0) || not (c.os.alive pid s))
    on_db c (
        update_state name
          (record initial_state { status = "stopped"; pid = pos 0; last_stopped_at = "now" }))
    on_os c (c.os.remove (pid_path c.data_dir name))
    say c ("Service '" <> name <> "' stopped.\n")
    pure c 0

  unfoldable pub stop_registered : String → Action c ℕ
  stop_registered name = do
    state ← on_db c (get_state name)
    found ← ask_os c (state_to_stop name state)
    on_option c found (not_running name) λ st. do
      running ← is_process_running c st.pid
      if running then stop_process name st.pid else not_running name

  unfoldable pub cmd_stop : String → Action c ℕ
  cmd_stop name = do
    service ← on_db c (get_service name)
    on_option c service (not_found c name) λ rec. stop_registered name
