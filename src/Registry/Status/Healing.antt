-- ===== src/Registry/Status/Healing.antt =====
-- What `get_actual_status` reports, and what it corrects.
use frequent_cron.Base.{
  [], ◌≡◌, ◌≢◌, ◌⊎◌, refl, String, true, not, ◌&&◌, Option, none, some, arith, ◌==◌, string_eq,
  nat_eq, if◌then◌else◌,
}
use frequent_cron.Base.Int.{pos, ◌≤ℤ◌, ltb_ℤ}
use frequent_cron.Database.{Database, ServiceState, update_state}
use frequent_cron.Registry.World.{Context, World, pure, on_db, ask_os, on_option}
use frequent_cron.Registry.Status.{is_process_running, known_status, get_actual_status}
use text.Mathlib.TextEquality.{eq_iff}
use frequent_cron.Database.Crud.{state_at, get_state-eq}
use frequent_cron.Database.State.{update_state-at}

module _ {D : Type 0} (c : Context D) where
  -- The status that a state and the process table call for.
  abbrev pub actual : ServiceState → c.os.State → String
  actual st s =
      if st.status == "running" && ltb_ℤ (pos 0) st.pid
      then if c.os.alive st.pid s then "running" else "stopped"
      else st.status

  known_status-result :
      (name : String) (st : ServiceState) (w : World c)
      → (known_status c name st w).0 ≡ actual st w.os
  unfolding known_status is_process_running ask_os on_db
  known_status-result name st w = ground arith

  -- The database after the status was asked for: a process that died is written down as stopped.
  abbrev pub corrected : String → ServiceState → c.os.State → Database D → Database D
  corrected name st s db =
      if st.status == "running" && ltb_ℤ (pos 0) st.pid && not (c.os.alive st.pid s)
      then (update_state name (record st { status = "stopped"; pid = pos 0 }) db).1
      else db

  known_status-eq :
      (name : String) (st : ServiceState) (w : World c)
      → known_status c name st w ≡ (actual st w.os, record w { db = corrected name st w.os w.db })
  unfolding known_status is_process_running ask_os on_db
  known_status-eq name st w = ground arith

  pub get_actual_status-eq :
      (name : String) (w : World c)
      → w.db.faults ≡ []
      → get_actual_status c name w ≡ elim (state_at name w.db) [
        | none ↦ ("unknown", w)
        | some st ↦ (actual st w.os, record w { db = corrected name st w.os w.db })
      ]
  unfolding get_actual_status on_db
  get_actual_status-eq name w clear =
      rw (get_state-eq name w.db clear) (by_state (state_at name w.db))
    where
      by_state :
          (o : Option ServiceState)
          → on_option c o (pure c "unknown") (known_status c name) w ≡ elim o [
            | none ↦ ("unknown", w)
            | some st ↦ (actual st w.os, record w { db = corrected name st w.os w.db })
          ]
      by_state none = refl
      by_state (some st) = known_status-eq name st w

  pub stopped≢running : ◌≢◌ {A = String} "stopped" "running"
  stopped≢running = ground (arith, eq_iff "stopped" "running")

  -- Where SQLite refuses nothing, the status that is reported is the one in the database afterwards,
  -- and if that is `running` with a PID then the process is alive: one that died has been corrected.
  pub get_actual_status_heals :
      (name : String) (w : World c) (st : ServiceState)
      → w.db.faults ≡ []
      → state_at name (get_actual_status c name w).1.db ≡ some st
      → ((get_actual_status c name w).0 ≡ st.status)
        × ((st.status ≢ "running") ⊎ ((st.pid ≤ℤ pos 0) ⊎ (c.os.alive st.pid w.os ≡ true)))
  get_actual_status_heals name w st clear after = by_state (state_at name w.db) refl
    where
      by_state :
          (o : Option ServiceState)
          → state_at name w.db ≡ o
          → ((get_actual_status c name w).0 ≡ st.status)
            × ((st.status ≢ "running") ⊎ ((st.pid ≤ℤ pos 0) ⊎ (c.os.alive st.pid w.os ≡ true)))
      by_state none q = ground (arith, q, after, get_actual_status-eq name w clear)
      by_state (some old) q = ground (
        arith,
        q,
        after,
        get_actual_status-eq name w clear,
        update_state-at name (record old { status = "stopped"; pid = pos 0 }) w.db name clear,
        stopped≢running,
      )
