-- ===== src/Registry/Remove/Units.antt =====
-- `cmd_remove` with a service manager that keeps a file for each service.
use frequent_cron.Base.{ℕ, ◌≡◌, String, false, some, [], arith, ◌==◌, string_eq, nat_eq, if_cases}
use frequent_cron.External.{IsRemoving}
use frequent_cron.Database.{ServiceRecord, remove_service}
use frequent_cron.Database.Crud.{service_at, get_service-eq}
use frequent_cron.Platform.{Host}
use frequent_cron.Platform.Keeping.{IsManaging}
use frequent_cron.Registry.World.{
  Context, World, Action, PlatformService, say, complain, on_db, on_os, on_platform,
}
use frequent_cron.Registry.Status.{get_actual_status}
use frequent_cron.Registry.Stop.{cmd_stop}
use frequent_cron.Registry.Remove.{clean_up, remove_stopped, remove_registered, cmd_remove}
use frequent_cron.Registry.Remove.Outcome.{remove-gone, remove_rotated-gone}

module _ {D : Type 0} (c : Context D) (removing : IsRemoving c.os) where
  clean_up-gone :
      (q name : String) (w : World c)
      → c.os.exists q w.os ≡ false
      → c.os.exists q (clean_up c name w).1.os ≡ false
  unfolding clean_up on_os
  clean_up-gone q name w h =
      remove-gone c removing _ q _
        (remove_rotated-gone c removing q name 10 0 _ (remove-gone c removing _ q w.os h))

  -- What `remove` does after the platform's service manager.
  remove_row-gone :
      (q name : String) (w : World c)
      → c.os.exists q (on_platform c (λ p. p.uninstall name) w).1.os ≡ false
      → c.os.exists q (remove_stopped c name w).1.os ≡ false
  unfolding remove_stopped on_db say complain
  remove_row-gone q name w h =
      let (removed, w') =
        on_db c (remove_service name) (on_platform c (λ p. p.uninstall name) w).1 in
      if_cases (λ (m : Action c ℕ). c.os.exists q (m w').1.os ≡ false) removed _ _
        (λ _. clean_up-gone q name w' h) (λ _. h)

  module _ (p : PlatformService D c.os) (host : Host c.os) (file : String → String)
      (text : String → ServiceRecord D → String → String → String) (Q : String → Type 0)
      (managing : IsManaging host p file text Q) where
    remove_stopped-unit :
        (name : String) (w : World c)
        → c.platform ≡ some p
        → Q (file name)
        → c.os.exists (file name) (remove_stopped c name w).1.os ≡ false
    unfolding on_platform
    remove_stopped-unit name w here quiet =
        remove_row-gone (file name) name w
          (ground (arith, here, managing.uninstall_exists name (file name) w.os quiet))

    remove_registered-unit :
        (name : String) (w : World c)
        → c.platform ≡ some p
        → Q (file name)
        → c.os.exists (file name) (remove_registered c name w).1.os ≡ false
    unfolding remove_registered
    remove_registered-unit name w here quiet =
        let (status, w') = get_actual_status c name w in
        if_cases (λ (m : Action c ℕ). c.os.exists (file name) (m w').1.os ≡ false)
          (status == "running") _ _
          (λ _. remove_stopped-unit name (cmd_stop c name w').1 here quiet)
          (λ _. remove_stopped-unit name w' here quiet)

    -- With a service manager that keeps a file for each service, which its tools leave alone, where a
    -- removed file is gone and SQLite refuses nothing: `remove` of a registered service leaves no
    -- file of the service manager behind, whether or not the service was running or could be stopped.
    pub cmd_remove_unit :
        (name : String) (w : World c) (rec : ServiceRecord D)
        → c.platform ≡ some p
        → Q (file name)
        → w.db.faults ≡ []
        → service_at name w.db ≡ some rec
        → c.os.exists (file name) (cmd_remove c name w).1.os ≡ false
    unfolding cmd_remove on_db
    cmd_remove_unit name w rec here quiet clear registered =
        rw (get_service-eq name w.db clear, registered) (remove_registered-unit name w here quiet)
