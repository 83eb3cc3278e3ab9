-- ===== src/Registry/System/Signals.antt =====
-- Which processes the commands send a signal to.
use frequent_cron.Base.{
  ℕ, zero, suc, ◌≡◌, String, ◌<>◌, Bool, true, arith, string_eq, nat_eq, if◌then◌else◌, if_cases,
}
use frequent_cron.Base.Int.{ℤ, pos, ◌<ℤ◌}
use frequent_cron.Database.{ServiceRecord, ServiceState}
use frequent_cron.Registry.World.{◌>>=◌, Context, World, Action, call_os, complain}
use frequent_cron.Registry.Status.{get_binary_path, is_process_running}
use frequent_cron.Registry.Stop.{wait_until, not_running, stop_process, stop_registered, cmd_stop}
use frequent_cron.Registry.Remove.{remove_registered, cmd_remove}
use frequent_cron.Registry.Start.{
  nonzero, launch_command, record_start, launch, start_registered, cmd_start,
}
use frequent_cron.Registry.Commands.{Command, perform}
use frequent_cron.Registry.System.{
  KeepsOs, IsCalm, os_rules, is_process_running-KeepsOs, not_found-KeepsOs, not_running-KeepsOs,
  get_actual_status-KeepsOs, get_binary_path-KeepsOs, cmd_install-KeepsOs, remove_stopped-KeepsOs,
  KeepsOs-call_os,
}

module _ {D : Type 0} (c : Context D) (P : c.os.State → Type 0) (calm : IsCalm c P)
    (sleeping : (u : ℕ) (s : c.os.State) → P s → P (c.os.sleep u s)) where
  wait_until-KeepsOs : (n : ℕ) (test : c.os.State → Bool) → KeepsOs c P (wait_until c n test)
  unfolding wait_until
  wait_until-KeepsOs zero test = record { at = λ w h. h }
  wait_until-KeepsOs (suc n) test = record {
    at = λ w h.
        let s = c.os.sleep 100000 w.os in
        let k = sleeping 100000 w.os h in
        if_cases (λ (x : Unit {0} × World c). P x.1.os) (test s) _ _ (λ _. k)
          (λ _. (wait_until-KeepsOs n test).at _ k);
  }

  stop_process-KeepsOs :
      (name : String) (pid : ℤ) → pos 0 <ℤ pid → KeepsOs c P (stop_process c name pid)
  unfolding stop_process
  stop_process-KeepsOs name pid positive =
      search (os_rules, wait_until-KeepsOs, calm.removing, calm.signalling) depth 12

  -- A process that was found running has a positive PID.
  running_positive : (pid : ℤ) (w : World c) → (is_process_running c pid w).0 ≡ true → pos 0 <ℤ pid
  unfolding is_process_running
  running_positive pid w h = ground arith

  stop_found-KeepsOs :
      (name : String) (st : ServiceState)
      → KeepsOs c P (
          is_process_running c st.pid >>= λ running.
          if running then stop_process c name st.pid else not_running c name)
  stop_found-KeepsOs name st = record {
    at = λ w h.
        let k = (is_process_running-KeepsOs c P calm st.pid).at w h in
        if_cases (λ (m : Action c ℕ). P (m (is_process_running c st.pid w).1).1.os)
          (is_process_running c st.pid w).0 _ _
          (λ on. (stop_process-KeepsOs name st.pid (running_positive st.pid w on)).at _ k)
          (λ _. (not_running-KeepsOs c P calm name).at _ k);
  }

  stop_registered-KeepsOs : (name : String) → KeepsOs c P (stop_registered c name)
  unfolding stop_registered
  stop_registered-KeepsOs name =
      search (os_rules, not_running-KeepsOs c P calm, stop_found-KeepsOs) depth 9

  cmd_stop-KeepsOs : (name : String) → KeepsOs c P (cmd_stop c name)
  unfolding cmd_stop
  cmd_stop-KeepsOs name = search (os_rules, not_found-KeepsOs c P calm, stop_registered-KeepsOs)

  record_start-KeepsOs : (name : String) → KeepsOs c P (record_start c name)
  unfolding record_start
  record_start-KeepsOs name = search (os_rules, wait_until-KeepsOs) depth 9

  launch-KeepsOs : (name : String) (service : ServiceRecord D) → KeepsOs c P (launch c name service)
  unfolding launch complain
  launch-KeepsOs name service = record {
    at = λ w h.
        let (bin_path, w1) = get_binary_path c w in
        let k = (get_binary_path-KeepsOs c P calm).at w h in
        let (rc, w2) =
          call_os c (c.os.system (launch_command c name bin_path service <> " &")) w1 in
        let k2 = (KeepsOs-call_os c P _ (calm.running _)).at w1 k in
        if_cases (λ (m : Action c ℕ). P (m w2).1.os) (nonzero rc) _ _ (λ _. k2)
          (λ _. (record_start-KeepsOs name).at w2 k2);
  }

  start_registered-KeepsOs :
      (name : String) (service : ServiceRecord D) → KeepsOs c P (start_registered c name service)
  unfolding start_registered
  start_registered-KeepsOs name service =
      search (os_rules, get_actual_status-KeepsOs c P calm, launch-KeepsOs) depth 9

  cmd_start-KeepsOs : (name : String) → KeepsOs c P (cmd_start c name)
  unfolding cmd_start
  cmd_start-KeepsOs name = search (os_rules, not_found-KeepsOs c P calm, start_registered-KeepsOs)

  remove_registered-KeepsOs : (name : String) → KeepsOs c P (remove_registered c name)
  unfolding remove_registered
  remove_registered-KeepsOs name =
      search
        (
          os_rules,
          get_actual_status-KeepsOs c P calm,
          cmd_stop-KeepsOs,
          remove_stopped-KeepsOs c P calm,
        )
        depth 9

  cmd_remove-KeepsOs : (name : String) → KeepsOs c P (cmd_remove c name)
  unfolding cmd_remove
  cmd_remove-KeepsOs name = search (os_rules, not_found-KeepsOs c P calm, remove_registered-KeepsOs)

-- What holds of the system before a command holds after it, whatever the command is, if waiting, a
-- removal, the shell, the platform's service manager and a signal to a positive PID keep it. So no
-- command sends a signal to PID 0 or to a negative PID, which would reach a group of processes.
pub perform_signals :
    {D : Type 0} (c : Context D) (P : c.os.State → Type 0) (k : Command D) (w : World c)
    → IsCalm c P
    → ((u : ℕ) (s : c.os.State) → P s → P (c.os.sleep u s))
    → P w.os
    → P (perform c k w).1.os
unfolding perform
perform_signals c P (Command.install config) w calm sleeping h =
    (cmd_install-KeepsOs c P calm config).at w h
perform_signals c P (Command.remove name) w calm sleeping h =
    (cmd_remove-KeepsOs c P calm sleeping name).at w h
perform_signals c P (Command.start name) w calm sleeping h =
    (cmd_start-KeepsOs c P calm sleeping name).at w h
perform_signals c P (Command.stop name) w calm sleeping h =
    (cmd_stop-KeepsOs c P calm sleeping name).at w h
