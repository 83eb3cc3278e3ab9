-- ===== src/Registry/Install/Outcome.antt =====
-- What `cmd_install` leaves in the database, where SQLite refuses nothing.
use frequent_cron.Base.{◌≡◌, refl, String, true, false, none, some, [], arith, string_eq, nat_eq}
use frequent_cron.Config.{Config}
use frequent_cron.Database.{Database, ServiceRecord, insert_service}
use frequent_cron.Database.Validity.{IsValid}
use frequent_cron.Registry.World.{Context, World, say, complain, on_db, ask_os}
use frequent_cron.Registry.Status.{get_binary_path}
use frequent_cron.Registry.Install.{
  report_jitter, report_install, install_record, cmd_install, record_of_config,
}
use frequent_cron.Database.{service_key}
use frequent_cron.Database.Table.{has}
use frequent_cron.Database.Crud.{
  service_at, state_at, get_service-eq, insert_service-at, new_state, stamped,
}
use frequent_cron.Registry.Keeps.{db-on_platform}

module _ {D : Type 0} (c : Context D) where
  report_install-db : (config : Config D) (w : World c) → (report_install c config w).1.db ≡ w.db
  unfolding report_install report_jitter say
  report_install-db config w = ground arith

  pub get_binary_path-db : (w : World c) → (get_binary_path c w).1 ≡ w
  unfolding get_binary_path ask_os
  get_binary_path-db w = ground arith

  pub install_record-eq :
      (config : Config D) (w : World c)
      → (insert_service (record_of_config config) w.db).0 ≡ true
      → ((install_record c config w).0 ≡ 0)
        × ((install_record c config w).1.db ≡ (insert_service (record_of_config config) w.db).1)
  unfolding install_record on_db
  install_record-eq config w inserted =
      rw inserted (refl, rw (report_install-db, db-on_platform, get_binary_path-db))

  no_service :
      (name : String) (db : Database D)
      → service_at name db ≡ none
      → has service_key name db.services ≡ false
  unfolding has
  no_service name db h = ground arith

  pub inserted_facts :
      (config : Config D) (db : Database D)
      → db.faults ≡ []
      → IsValid db
      → service_at config.service_name db ≡ none
      → let after = insert_service (record_of_config config) db in
        (after.0 ≡ true)
        × (service_at config.service_name after.1 ≡ some (stamped db.now (record_of_config config)))
        × (state_at config.service_name after.1 ≡ some (new_state config.service_name))
  unfolding record_of_config
  inserted_facts config db clear valid absent =
      let facts =
        insert_service-at (record_of_config config) db config.service_name clear valid
          (no_service config.service_name db absent) in
      ground (arith, facts)

  -- What is known of a service once it is installed: its configuration, and when that was.
  abbrev pub installed : String → Config D → ServiceRecord D
  installed now config = record {
    name = config.service_name;
    command = config.command;
    frequency_ms = config.frequency;
    synchronous = config.synchronous;
    jitter_ms = config.jitter_ms;
    jitter_distribution = config.jitter_distribution;
    fire_probability = config.fire_probability;
    created_at = now;
    updated_at = now;
  }

  -- From consistent tables, and where SQLite refuses nothing, `install` under a new name returns 0,
  -- whatever the platform's service manager says, and leaves the configuration under that name,
  -- with the time of the insertion, and a state that is stopped and has no PID.
  pub cmd_install_new :
      (config : Config D) (w : World c)
      → w.db.faults ≡ []
      → IsValid w.db
      → service_at config.service_name w.db ≡ none
      → ((cmd_install c config w).0 ≡ 0)
        × (service_at config.service_name (cmd_install c config w).1.db
            ≡ some (installed w.db.now config))
        × (state_at config.service_name (cmd_install c config w).1.db
            ≡ some (new_state config.service_name))
  unfolding cmd_install on_db record_of_config
  cmd_install_new config w clear valid absent =
      let (inserted, service, state) = inserted_facts config w.db clear valid absent in
      let (code, db) = install_record-eq config w inserted in
      rw (get_service-eq config.service_name w.db clear, absent) (code, rw db service, rw db state)

  -- Where SQLite refuses nothing, `install` under a name that is taken returns 1 and changes
  -- neither the database nor the system.
  pub cmd_install_taken :
      (config : Config D) (w : World c) (rec : ServiceRecord D)
      → w.db.faults ≡ []
      → service_at config.service_name w.db ≡ some rec
      → ((cmd_install c config w).0 ≡ 1)
        × ((cmd_install c config w).1.db ≡ w.db)
        × ((cmd_install c config w).1.os ≡ w.os)
  unfolding cmd_install on_db complain
  cmd_install_taken config w rec clear taken =
      rw (get_service-eq config.service_name w.db clear, taken) (refl, refl, refl)
