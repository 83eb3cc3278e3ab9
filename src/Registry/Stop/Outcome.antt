-- ===== src/Registry/Stop/Outcome.antt =====
-- What `cmd_stop` returns and leaves behind, where SQLite refuses nothing.
use frequent_cron.Base.{
  ℕ, ◌≡◌, ◌≢◌, refl, String, Bool, false, Option, none, some, [], arith, string_eq, nat_eq,
  if◌then◌else◌,
}
use frequent_cron.Base.Int.{ℤ, pos, leb_ℤ}
use frequent_cron.Database.{ServiceRecord, ServiceState, initial_state, update_state}
use frequent_cron.Registry.World.{
  Context, World, Action, ◌>>=◌, say, complain, on_db, on_os, ask_os, on_option,
}
use frequent_cron.Registry.Status.{is_process_running}
use frequent_cron.Registry.Stop.{
  cmd_stop, stop_registered, stop_process, not_running, state_to_stop,
}
use text.Mathlib.TextEquality.{eq_iff}
use frequent_cron.Database.Crud.{service_at, state_at, get_state-eq, get_service-eq}
use frequent_cron.Database.State.{update_state-at}
use frequent_cron.Registry.Keeps.{db-wait_until}

pub now≢empty : ◌≢◌ {A = String} "now" ""
now≢empty = ground (arith, eq_iff "now" "")

module _ {D : Type 0} (c : Context D) where
  -- Whether `cmd_stop` finds a process to stop: the PID in the database, or else in the PID file, is
  -- that of a process that is alive.
  abbrev pub finds_process : Option ServiceState → c.os.State → Bool
  finds_process none s = false
  finds_process (some st) s = if leb_ℤ st.pid (pos 0) then false else c.os.alive st.pid s

  abbrev pub marked_stopped : String → ServiceState
  marked_stopped now = record initial_state { status = "stopped"; last_stopped_at = now }

  not_running-eq :
      (name : String) (w : World c)
      → ((not_running c name w).0 ≡ 1)
        × ((not_running c name w).1.db ≡ (update_state name (marked_stopped "") w.db).1)
  unfolding not_running complain on_db
  not_running-eq name w = (refl, refl)

  stop_process-eq :
      (name : String) (pid : ℤ) (w : World c)
      → ((stop_process c name pid w).0 ≡ 0)
        × ((stop_process c name pid w).1.db ≡ (update_state name (marked_stopped "now") w.db).1)
  unfolding stop_process on_os on_db say
  stop_process-eq name pid w = (refl, rw db-wait_until)

  -- The state that `stop` looks at.
  abbrev pub stop_target : String → World c → Option ServiceState
  stop_target name w = state_to_stop c name (state_at name w.db) w.os

  -- What the commands on a found state do.
  stop_state : String → ServiceState → Action c ℕ
  stop_state name st = do
    running ← is_process_running c st.pid
    if running then stop_process c name st.pid else not_running c name

  Outcome : String → World c → Bool → ℕ × World c → Type 0
  Outcome name w found r =
      (r.0 ≡ (if found then 0 else 1))
      × (r.1.db ≡ (update_state name (marked_stopped (if found then "now" else "")) w.db).1)

  stop_state-Outcome :
      (name : String) (st : ServiceState) (w : World c)
      → Outcome name w (finds_process (some st) w.os) (stop_state name st w)
  unfolding stop_state Outcome is_process_running ask_os
  stop_state-Outcome name st w =
      ground (arith, stop_process-eq name st.pid w, not_running-eq name w)

  target-Outcome :
      (name : String) (o : Option ServiceState) (w : World c)
      → Outcome name w
          (finds_process o w.os)
          (on_option c o (not_running c name) (stop_state name) w)
  unfolding Outcome
  target-Outcome name none w = not_running-eq name w
  target-Outcome name (some st) w = unfold Outcome in stop_state-Outcome name st w

  stop_registered-Outcome :
      (name : String) (w : World c)
      → w.db.faults ≡ []
      → Outcome name w (finds_process (stop_target name w) w.os) (stop_registered c name w)
  unfolding stop_registered on_db ask_os stop_state
  stop_registered-Outcome name w clear =
      rw (get_state-eq name w.db clear) (target-Outcome name (stop_target name w) w)

  pub cmd_stop-registered :
      (name : String) (w : World c) (rec : ServiceRecord D)
      → w.db.faults ≡ []
      → service_at name w.db ≡ some rec
      → cmd_stop c name w ≡ stop_registered c name w
  unfolding cmd_stop on_db
  cmd_stop-registered name w rec clear registered = rw (get_service-eq name w.db clear, registered)

  -- Where SQLite refuses nothing, `stop` of a registered service that has a state returns 0 exactly
  -- when it finds a live process to stop. Either way the service is afterwards written down as
  -- stopped, with no PID, and its record is kept.
  pub cmd_stop_outcome :
      (name : String) (w : World c) (rec : ServiceRecord D) (st : ServiceState)
      → w.db.faults ≡ []
      → service_at name w.db ≡ some rec
      → state_at name w.db ≡ some st
      → let found = finds_process (stop_target name w) w.os in
        ((cmd_stop c name w).0 ≡ (if found then 0 else 1))
        × (service_at name (cmd_stop c name w).1.db ≡ some rec)
        × (state_at name (cmd_stop c name w).1.db
            ≡ some (record st {
              status = "stopped";
              pid = pos 0;
              execution_count = pos 0;
              last_stopped_at = if found then "now" else st.last_stopped_at;
            }))
  cmd_stop_outcome name w rec st clear registered here =
      let found = finds_process (stop_target name w) w.os in
      let done = stop_registered-Outcome name w clear in
      rw (cmd_stop-registered name w rec clear registered) (
        unfold Outcome in
        ground (
          arith,
          done.0,
          done.1,
          update_state-at name (marked_stopped (if found then "now" else "")) w.db name clear,
          now≢empty,
        ))
