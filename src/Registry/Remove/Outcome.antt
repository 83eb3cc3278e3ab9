-- ===== src/Registry/Remove/Outcome.antt =====
-- What `cmd_remove` leaves behind, where SQLite refuses nothing.
use frequent_cron.Base.{
  ℕ, zero, suc, ◌+◌, ◌≤◌, ◌<◌, ◌≡◌, refl, String, true, false, none, some, [], arith, ◌==◌,
  string_eq, nat_eq, if_cases, ℕ_discrete,
}
use frequent_cron.Base.Int.{pos}
use frequent_cron.Database.{Database, ServiceRecord, remove_service}
use frequent_cron.Registry.World.{Context, World, Action, say, on_db, on_os, on_platform}
use frequent_cron.Registry.Status.{get_actual_status}
use frequent_cron.Registry.Stop.{cmd_stop}
use frequent_cron.Registry.Remove.{
  remove_rotated, clean_up, remove_stopped, remove_registered, cmd_remove,
}
use frequent_cron.External.{IsRemoving}
use frequent_cron.Paths.{pid_path, log_path, rotated_path}
use frequent_cron.Database.{service_key}
use frequent_cron.Database.Table.{has}
use frequent_cron.Database.Crud.{
  service_at, state_at, get_state-eq, get_service-eq, remove_service-at,
}
use frequent_cron.Database.State.{update_state-eq}
use frequent_cron.Registry.Keeps.{IsUpdating, db-on_platform}
use frequent_cron.Registry.Keeps.Commands.{get_actual_status-Keeps, cmd_stop-Keeps}

module _ {D : Type 0} (c : Context D) where
  module _ (removing : IsRemoving c.os) where
    remove_self : (p : String) (s : c.os.State) → c.os.exists p (c.os.remove p s) ≡ false
    remove_self p s = ground (arith, removing.removed p p s)

    pub remove-gone :
        (p q : String) (s : c.os.State)
        → c.os.exists q s ≡ false
        → c.os.exists q (c.os.remove p s) ≡ false
    remove-gone p q s h = ground (arith, removing.removed p q s)

    -- A file that is gone stays gone while others are removed.
    pub remove_rotated-gone :
        (q name : String) (n i : ℕ) (w : World c)
        → c.os.exists q w.os ≡ false
        → c.os.exists q (remove_rotated c name n i w).1.os ≡ false
    unfolding remove_rotated on_os
    remove_rotated-gone q name zero i w h = h
    remove_rotated-gone q name (suc n) i w h =
        remove_rotated-gone q name n (i + 1) _ (remove-gone _ q w.os h)

    remove_rotated-each :
        (name : String) (n i k : ℕ) (w : World c)
        → i ≤ k
        → k < i + n
        → c.os.exists (rotated_path c.data_dir name (pos k)) (remove_rotated c name n i w).1.os
          ≡ false
    unfolding remove_rotated on_os
    remove_rotated-each name zero i k w lo hi = absurd (omega arith)
    remove_rotated-each name (suc n) i k w lo hi = elim (ℕ_discrete i k) [
      | yes here ↦
          remove_rotated-gone _ name n (i + 1) _
            (rw here (remove_self (rotated_path c.data_dir name (pos k)) w.os))
      | no later ↦ remove_rotated-each name n (i + 1) k _ (omega arith) (omega arith)
    ]

    -- The files of a service: its PID file, its log and the rotated logs that `remove` counts.
    pub record IsCleaned (name : String) (s : c.os.State) : Type 0 where
      pub no_pid_file : c.os.exists (pid_path c.data_dir name) s ≡ false
      pub no_log : c.os.exists (log_path c.data_dir name) s ≡ false
      pub no_rotated :
          (k : ℕ) → k < 10 → c.os.exists (rotated_path c.data_dir name (pos k)) s ≡ false

    clean_up-IsCleaned : (name : String) (w : World c) → IsCleaned name (clean_up c name w).1.os
    unfolding clean_up on_os
    clean_up-IsCleaned name w = record {
      no_pid_file =
          remove-gone _ _ _
            (remove_rotated-gone _ name 10 0 _ (remove_self (pid_path c.data_dir name) w.os));
      no_log = remove_self (log_path c.data_dir name) _;
      no_rotated =
          λ k lt. remove-gone _ _ _ (remove_rotated-each name 10 0 k _ (omega arith) (omega arith));
    }

    remove_rotated-db :
        (name : String) (n i : ℕ) (w : World c) → (remove_rotated c name n i w).1.db ≡ w.db
    unfolding remove_rotated on_os
    remove_rotated-db name zero i w = refl
    remove_rotated-db name (suc n) i w = remove_rotated-db name n (i + 1) _

    clean_up-db : (name : String) (w : World c) → (clean_up c name w).1.db ≡ w.db
    unfolding clean_up on_os
    clean_up-db name w = remove_rotated-db name 10 0 _

  -- SQLite refuses nothing, and the service is registered.
  abbrev IsThere : String → Database D → Type 0
  IsThere name db = (db.faults ≡ []) × (has service_key name db.services ≡ true)

  has_service :
      (name : String) (db : Database D) {rec : ServiceRecord D}
      → service_at name db ≡ some rec
      → has service_key name db.services ≡ true
  unfolding has
  has_service name db h = ground arith

  IsThere-IsUpdating : (name : String) → IsUpdating c (IsThere name) name
  IsThere-IsUpdating name = record {
    get_service-P = λ n db h. rw (get_service-eq n db h.0) h;
    get_state-P = λ n db h. rw (get_state-eq n db h.0) h;
    update_state-P = λ st db h. rw (update_state-eq name st db h.0) h;
  }

  module _ (removing : IsRemoving c.os) where
    -- The service has left no trace in the database or among the files.
    pub record IsGone (name : String) (w : World c) : Type 0 where
      pub no_service : service_at name w.db ≡ none
      pub no_state : state_at name w.db ≡ none
      pub cleaned : IsCleaned removing name w.os

    remove_service-gone :
        (name : String) (db : Database D)
        → IsThere name db
        → ((remove_service name db).0 ≡ true)
          × (service_at name (remove_service name db).1 ≡ none)
          × (state_at name (remove_service name db).1 ≡ none)
    remove_service-gone name db h = ground (arith, remove_service-at name db name h.0 h.1)

    remove_stopped-eq :
        (name : String) (w : World c)
        → IsThere name w.db
        → ((remove_stopped c name w).0 ≡ 0) × IsGone name (remove_stopped c name w).1
    unfolding remove_stopped on_db say
    remove_stopped-eq name w h =
        let w' : World c = (on_platform c (λ p. p.uninstall name) w).1 in
        let there : IsThere name w'.db = rw (db-on_platform c _ w) h in
        let gone = remove_service-gone name w'.db there in
        rw gone.0 (
          refl,
          record {
            no_service = rw (clean_up-db removing) gone.1;
            no_state = rw (clean_up-db removing) gone.2;
            cleaned = clean_up-IsCleaned removing name _;
          },
        )

    remove_registered-eq :
        (name : String) (w : World c)
        → IsThere name w.db
        → ((remove_registered c name w).0 ≡ 0) × IsGone name (remove_registered c name w).1
    unfolding remove_registered
    remove_registered-eq name w h =
        let (status, w') = get_actual_status c name w in
        let there =
          (get_actual_status-Keeps c (IsThere name) name (IsThere-IsUpdating name)).at w h in
        if_cases (λ (m : Action c ℕ). ((m w').0 ≡ 0) × IsGone name (m w').1) (status == "running") _
          _
          (λ _.
            remove_stopped-eq name (cmd_stop c name w').1
              ((cmd_stop-Keeps c (IsThere name) name (IsThere-IsUpdating name)).at w' there))
          (λ _. remove_stopped-eq name w' there)

    -- Where SQLite refuses nothing and a removed file is gone, `remove` of a registered service
    -- returns 0, and neither table knows the name any more; its PID file, its log and the rotated
    -- logs 0 to 9 are gone. This holds whether or not the service was running, could be stopped, or
    -- could be taken out of the platform's service manager.
    pub cmd_remove_outcome :
        (name : String) (w : World c) (rec : ServiceRecord D)
        → w.db.faults ≡ []
        → service_at name w.db ≡ some rec
        → ((cmd_remove c name w).0 ≡ 0) × IsGone name (cmd_remove c name w).1
    unfolding cmd_remove on_db
    cmd_remove_outcome name w rec clear registered =
        rw (get_service-eq name w.db clear, registered)
          (remove_registered-eq name w (clear, has_service name w.db registered))
