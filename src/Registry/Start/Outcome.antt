-- ===== src/Registry/Start/Outcome.antt =====
-- What `cmd_start` returns and records, where SQLite refuses nothing.
use frequent_cron.Base.{
  ◌≡◌, ◌≢◌, inl, inr, refl, ap, ◌∙◌, String, ◌<>◌, true, false, some, [], arith, string_eq, nat_eq,
  if◌then◌else◌, Bool-cases,
}
use frequent_cron.Base.Int.{ℤ, pos}
use frequent_cron.Database.{Database, ServiceRecord, ServiceState, initial_state, update_state}
use frequent_cron.Registry.World.{Context, World, say, complain, on_db, call_os, ask_os}
use frequent_cron.Registry.Status.{get_binary_path, get_actual_status}
use frequent_cron.Registry.Stop.{pid_from_file}
use frequent_cron.Registry.Start.{record_start, launch, start_registered, cmd_start}
use frequent_cron.Database.Crud.{service_at, state_at, get_service-eq, get_state-eq}
use frequent_cron.Database.State.{update_state-at, update_state-eq}
use frequent_cron.Registry.Install.Outcome.{get_binary_path-db}
use frequent_cron.Registry.Stop.Outcome.{now≢empty}
use frequent_cron.Registry.Keeps.{IsUpdating, db-wait_until}
use frequent_cron.Registry.Keeps.Commands.{get_actual_status-Keeps}
use frequent_cron.Registry.Start.{nonzero, launch_command}

module _ {D : Type 0} (c : Context D) where
  pub cmd_start-registered :
      (name : String) (w : World c) (rec : ServiceRecord D)
      → w.db.faults ≡ []
      → service_at name w.db ≡ some rec
      → cmd_start c name w ≡ start_registered c name rec w
  unfolding cmd_start on_db
  cmd_start-registered name w rec clear registered = rw (get_service-eq name w.db clear, registered)

  -- Where SQLite refuses nothing, `start` of a registered service that is reported as running
  -- returns 1, launches nothing and leaves the system alone.
  pub cmd_start_running :
      (name : String) (w : World c) (rec : ServiceRecord D)
      → w.db.faults ≡ []
      → service_at name w.db ≡ some rec
      → (get_actual_status c name w).0 ≡ "running"
      → ((cmd_start c name w).0 ≡ 1)
        × ((cmd_start c name w).1.db ≡ (get_actual_status c name w).1.db)
        × ((cmd_start c name w).1.os ≡ (get_actual_status c name w).1.os)
  unfolding start_registered complain
  cmd_start_running name w rec clear registered running =
      rw (cmd_start-registered name w rec clear registered) (ground arith)

  -- What is written once the program has been launched.
  abbrev pub marked_running : ℤ → ServiceState
  marked_running pid = record initial_state {
    status = "running";
    pid = pid;
    last_started_at = "now";
  }

  record_start-eq :
      (name : String) (w : World c)
      → ((record_start c name w).0 ≡ 0)
        × ((record_start c name w).1.db
            ≡ (update_state name
                (marked_running (pid_from_file c name (record_start c name w).1.os))
                w.db).1)
  unfolding record_start ask_os on_db say
  record_start-eq name w = (refl, rw db-wait_until)

  -- The answer of the shell that is handed the command line of the launch.
  abbrev pub launch_answer : String → ServiceRecord D → World c → ℤ × c.os.State
  launch_answer name rec w =
      let (bin_path, w') = get_binary_path c w in
      c.os.system (launch_command c name bin_path rec <> " &") w'.os

  launch_refused :
      (name : String) (rec : ServiceRecord D) (w : World c)
      → nonzero (launch_answer name rec w).0 ≡ true
      → ((launch c name rec w).0 ≡ 1) × ((launch c name rec w).1.db ≡ w.db)
  unfolding launch call_os complain get_binary_path ask_os
  launch_refused name rec w h = ground arith

  launch_accepted :
      (name : String) (rec : ServiceRecord D) (w : World c)
      → nonzero (launch_answer name rec w).0 ≡ false
      → launch c name rec w ≡ record_start c name (record w { os = (launch_answer name rec w).1 })
  unfolding launch call_os
  launch_accepted name rec w h = rw h (
      ap (λ (v : World c). record_start c name (record v { os = (launch_answer name rec w).1 }))
        (get_binary_path-db c w))

  started :
      (name : String) (pid : ℤ) (db : Database D) (st : ServiceState)
      → db.faults ≡ []
      → state_at name db ≡ some st
      → state_at name (update_state name (marked_running pid) db).1
        ≡ some (record st {
          status = "running";
          pid = pid;
          last_started_at = "now";
          execution_count = pos 0;
        })
  started name pid db st clear here =
      ground (arith, update_state-at name (marked_running pid) db name clear, now≢empty)

  NoFaults : Database D → Type 0
  NoFaults db = db.faults ≡ []

  NoFaults-IsUpdating : (name : String) → IsUpdating c NoFaults name
  unfolding NoFaults
  NoFaults-IsUpdating name = record {
    get_service-P = λ n db h. rw (get_service-eq n db h) h;
    get_state-P = λ n db h. rw (get_state-eq n db h) h;
    update_state-P = λ st db h. rw (update_state-eq name st db h) h;
  }

  clear_after_status :
      (name : String) (w : World c)
      → w.db.faults ≡ []
      → (get_actual_status c name w).1.db.faults ≡ []
  unfolding NoFaults
  clear_after_status name w h =
      (get_actual_status-Keeps c NoFaults name (NoFaults-IsUpdating name)).at w h

  start_registered-launch :
      (name : String) (rec : ServiceRecord D) (w : World c)
      → (get_actual_status c name w).0 ≢ "running"
      → start_registered c name rec w ≡ launch c name rec (get_actual_status c name w).1
  unfolding start_registered
  start_registered-launch name rec w idle = ground arith

  -- Where SQLite refuses nothing, `start` of a registered service that has a state and is not
  -- reported as running hands the launch to the shell. If the shell refuses, it
  -- returns 1 and the state is kept. Otherwise it returns 0, and the service is written down as
  -- running with the PID that the PID file holds in the end, 0 if there is none.
  pub cmd_start_outcome :
      (name : String) (w : World c) (rec : ServiceRecord D) (st : ServiceState)
      → w.db.faults ≡ []
      → service_at name w.db ≡ some rec
      → (get_actual_status c name w).0 ≢ "running"
      → state_at name (get_actual_status c name w).1.db ≡ some st
      → let w' = (get_actual_status c name w).1 in
        let refused = nonzero (launch_answer name rec w').0 in
        let after = cmd_start c name w in
        (after.0 ≡ (if refused then 1 else 0))
        × (state_at name after.1.db
            ≡ some (
                if refused then st else record st {
                  status = "running";
                  pid = pid_from_file c name after.1.os;
                  last_started_at = "now";
                  execution_count = pos 0;
                }))
  cmd_start_outcome name w rec st clear registered idle here =
      let w' = (get_actual_status c name w).1 in
      rw (cmd_start-registered name w rec clear registered, start_registered-launch name rec w idle)
        (elim (Bool-cases (nonzero (launch_answer name rec w').0)) [
          | inl refused ↦
              let (code, db) = launch_refused name rec w' refused in
              simp refused (code, ap (state_at name) db ∙ here)
          | inr accepted ↦
              let (code, db) =
                record_start-eq name (record w' { os = (launch_answer name rec w').1 }) in
              rw accepted (
                rw (launch_accepted name rec w' accepted)
                  (code, rw db (started name _ w'.db st (clear_after_status name w clear) here)))
        ])
