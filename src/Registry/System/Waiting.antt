-- ===== src/Registry/System/Waiting.antt =====
-- How long the commands wait.
use frequent_cron.Base.{
  ℕ, zero, suc, ◌+◌, ◌*◌, ◌≤◌, ◌≡◌, String, ◌<>◌, Bool, not, ◌||◌, Option, none, some, arith, ◌==◌,
  string_eq, nat_eq, if◌then◌else◌, if_cases,
}
use frequent_cron.Base.Int.{ℤ, pos, leb_ℤ}
use frequent_cron.Database.{ServiceRecord, ServiceState, get_service, get_state}
use frequent_cron.Paths.{pid_path}
use frequent_cron.Registry.World.{
  ◌>>=◌, Context, World, Action, PlatformService, call_os, complain, say, on_db, on_os, ask_os,
  on_option,
}
use frequent_cron.Registry.Status.{
  not_found, get_binary_path, is_process_running, get_actual_status,
}
use frequent_cron.Registry.Stop.{
  wait_until, state_to_stop, not_running, stop_process, stop_registered, cmd_stop,
}
use frequent_cron.Registry.Remove.{remove_registered, cmd_remove}
use frequent_cron.Registry.Start.{
  nonzero, launch_command, record_start, launch, start_registered, cmd_start,
}
use frequent_cron.Registry.Commands.{Command, perform}
use frequent_cron.Registry.System.{
  KeepsOs, IsCalm, is_process_running-KeepsOs, not_found-KeepsOs, not_running-KeepsOs,
  get_actual_status-KeepsOs, get_binary_path-KeepsOs, cmd_install-KeepsOs, remove_stopped-KeepsOs,
}

-- The microseconds that were slept; `usleep` adds its argument, and no other call changes them.
pub record IsSleepTime {D : Type 0} (c : Context D) (slept : c.os.State → ℕ) : Type 0 where
  pub sleeping : (u : ℕ) (s : c.os.State) → slept (c.os.sleep u s) ≡ slept s + u
  pub removing : (q : String) (s : c.os.State) → slept (c.os.remove q s) ≡ slept s
  pub running : (line : String) (s : c.os.State) → slept (c.os.system line s).1 ≡ slept s
  pub signalling : (pid : ℤ) (s : c.os.State) → slept (c.os.terminate pid s) ≡ slept s
  pub installing :
      (p : PlatformService D c.os) (name : String) (rec : ServiceRecord D)
      (binary_path data_dir : String) (s : c.os.State)
      → c.platform ≡ some p
      → slept (p.install name rec binary_path data_dir s).1 ≡ slept s
  pub uninstalling :
      (p : PlatformService D c.os) (name : String) (s : c.os.State)
      → c.platform ≡ some p
      → slept (p.uninstall name s).1 ≡ slept s

-- How many microseconds a command may sleep.
abbrev pub sleep_limit : {D : Type 0} → Command D → ℕ
sleep_limit (Command.install config) = 0
sleep_limit (Command.remove name) = 2000000
sleep_limit (Command.start name) = 1000000
sleep_limit (Command.stop name) = 2000000

module _ {D : Type 0} (c : Context D) (slept : c.os.State → ℕ) (count : IsSleepTime c slept) where
  calm : (k : ℕ) → IsCalm c (λ s. slept s ≤ k)
  calm k = record {
    removing = λ q s h. rw (count.removing q s) h;
    running = λ line s h. rw (count.running line s) h;
    signalling = λ pid s positive h. rw (count.signalling pid s) h;
    installing = λ p name rec binary_path data_dir s here h.
        rw (count.installing p name rec binary_path data_dir s here) h;
    uninstalling = λ p name s here h. rw (count.uninstalling p name s here) h;
  }

  -- An action that sleeps for at most `n` microseconds.
  abbrev Waits : {A : Type 0} → ℕ → Action c A → Type 0
  Waits n m = (w : World c) → slept (m w).1.os ≤ slept w.os + n

  -- One that keeps every bound does not sleep.
  no_wait :
      {A : Type 0} (n : ℕ) (m : Action c A) → ((k : ℕ) → KeepsOs c (λ s. slept s ≤ k) m) → Waits n m
  no_wait n m h w = let k = (h (slept w.os)).at w (omega arith) in omega arith

  wait_until-Waits : (n : ℕ) (test : c.os.State → Bool) → Waits (n * 100000) (wait_until c n test)
  unfolding wait_until
  wait_until-Waits zero test w = omega arith
  wait_until-Waits (suc n) test w =
      let s = c.os.sleep 100000 w.os in
      let once = count.sleeping 100000 w.os in
      let w' : World c = record w { os = s } in
      let rest = wait_until-Waits n test w' in
      if_cases (λ (x : Unit {0} × World c). slept x.1.os ≤ slept w.os + suc n * 100000) (test s) _ _
        (λ _. omega (arith, once)) (λ _. omega (arith, once, rest))

  stop_process-Waits : (name : String) (pid : ℤ) → Waits 2000000 (stop_process c name pid)
  unfolding stop_process on_os on_db say
  stop_process-Waits name pid w =
      let w1 : World c = record w { os = c.os.terminate pid w.os } in
      let test : c.os.State → Bool = λ s. leb_ℤ pid (pos 0) || not (c.os.alive pid s) in
      let s = (wait_until c 20 test w1).1.os in
      omega (
        arith,
        count.removing (pid_path c.data_dir name) s,
        wait_until-Waits 20 test w1,
        count.signalling pid w.os,
      )

  stop_registered-Waits : (name : String) → Waits 2000000 (stop_registered c name)
  unfolding stop_registered ask_os on_db
  stop_registered-Waits name w =
      let (state, w') = on_db c (get_state name) w in by_found (state_to_stop c name state w'.os) w'
    where
      by_found :
          (found : Option ServiceState)
          → Waits 2000000 (
              on_option c found (not_running c name) (λ st.
                is_process_running c st.pid >>= λ running.
                if running then stop_process c name st.pid else not_running c name))
      by_found none w = no_wait 2000000 _ (λ k. not_running-KeepsOs c _ (calm k) name) w
      by_found (some st) w =
          let (running, w') = is_process_running c st.pid w in
          let looked = no_wait 0 _ (λ k. is_process_running-KeepsOs c _ (calm k) st.pid) w in
          if_cases (λ (m : Action c ℕ). slept (m w').1.os ≤ slept w.os + 2000000) running _ _
            (λ _. omega (arith, looked, stop_process-Waits name st.pid w'))
            (λ _.
              omega (arith, looked, no_wait 0 _ (λ k. not_running-KeepsOs c _ (calm k) name) w'))

  cmd_stop-Waits : (name : String) → Waits 2000000 (cmd_stop c name)
  unfolding cmd_stop on_db
  cmd_stop-Waits name w = let (service, w') = on_db c (get_service name) w in by_service service w'
    where
      by_service :
          (service : Option (ServiceRecord D))
          → Waits 2000000 (on_option c service (not_found c name) (λ rec. stop_registered c name))
      by_service none w = no_wait 2000000 _ (λ k. not_found-KeepsOs c _ (calm k) name) w
      by_service (some rec) w = stop_registered-Waits name w

  record_start-Waits : (name : String) → Waits 1000000 (record_start c name)
  unfolding record_start ask_os on_db say
  record_start-Waits name w = wait_until-Waits 10 (c.os.exists (pid_path c.data_dir name)) w

  launch-Waits : (name : String) (service : ServiceRecord D) → Waits 1000000 (launch c name service)
  unfolding launch complain call_os
  launch-Waits name service w =
      let (bin_path, w1) = get_binary_path c w in
      let found = no_wait 0 _ (λ k. get_binary_path-KeepsOs c _ (calm k)) w in
      let line = launch_command c name bin_path service <> " &" in
      let (rc, w2) = call_os c (c.os.system line) w1 in
      let ran = count.running line w1.os in
      if_cases (λ (m : Action c ℕ). slept (m w2).1.os ≤ slept w.os + 1000000) (nonzero rc) _ _
        (λ _. omega (arith, found, ran))
        (λ _. omega (arith, found, ran, record_start-Waits name w2))

  start_registered-Waits :
      (name : String) (service : ServiceRecord D) → Waits 1000000 (start_registered c name service)
  unfolding start_registered complain
  start_registered-Waits name service w =
      let (status, w') = get_actual_status c name w in
      let looked = no_wait 0 _ (λ k. get_actual_status-KeepsOs c _ (calm k) name) w in
      if_cases (λ (m : Action c ℕ). slept (m w').1.os ≤ slept w.os + 1000000) (status == "running")
        _ _ (λ _. omega (arith, looked)) (λ _. omega (arith, looked, launch-Waits name service w'))

  cmd_start-Waits : (name : String) → Waits 1000000 (cmd_start c name)
  unfolding cmd_start on_db
  cmd_start-Waits name w = let (service, w') = on_db c (get_service name) w in by_service service w'
    where
      by_service :
          (service : Option (ServiceRecord D))
          → Waits 1000000
              (on_option c service (not_found c name) (λ rec. start_registered c name rec))
      by_service none w = no_wait 1000000 _ (λ k. not_found-KeepsOs c _ (calm k) name) w
      by_service (some rec) w = start_registered-Waits name rec w

  remove_registered-Waits : (name : String) → Waits 2000000 (remove_registered c name)
  unfolding remove_registered
  remove_registered-Waits name w =
      let (status, w') = get_actual_status c name w in
      let looked = no_wait 0 _ (λ k. get_actual_status-KeepsOs c _ (calm k) name) w in
      let stopped = no_wait 0 _ (λ k. remove_stopped-KeepsOs c _ (calm k) name) in
      if_cases (λ (m : Action c ℕ). slept (m w').1.os ≤ slept w.os + 2000000) (status == "running")
        _ _ (λ _. omega (arith, looked, cmd_stop-Waits name w', stopped (cmd_stop c name w').1))
        (λ _. omega (arith, looked, stopped w'))

  cmd_remove-Waits : (name : String) → Waits 2000000 (cmd_remove c name)
  unfolding cmd_remove on_db
  cmd_remove-Waits name w =
      let (service, w') = on_db c (get_service name) w in by_service service w'
    where
      by_service :
          (service : Option (ServiceRecord D))
          → Waits 2000000 (on_option c service (not_found c name) (λ rec. remove_registered c name))
      by_service none w = no_wait 2000000 _ (λ k. not_found-KeepsOs c _ (calm k) name) w
      by_service (some rec) w = remove_registered-Waits name w

  -- Where nothing but `usleep` is a wait, each of the four commands that change the database ends
  -- after a bounded one, whatever the processes and the files do: `install` does not sleep, `start`
  -- sleeps for a second at most, and `stop` and `remove` for two.
  pub perform_waits :
      (k : Command D) (w : World c) → slept (perform c k w).1.os ≤ slept w.os + sleep_limit k
  unfolding perform
  perform_waits (Command.install config) w =
      no_wait 0 _ (λ k. cmd_install-KeepsOs c _ (calm k) config) w
  perform_waits (Command.remove name) w = cmd_remove-Waits name w
  perform_waits (Command.start name) w = cmd_start-Waits name w
  perform_waits (Command.stop name) w = cmd_stop-Waits name w
