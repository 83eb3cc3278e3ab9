-- ===== src/Registry/Install/Units.antt =====
-- `cmd_install` with a service manager that keeps a file for each service.
use frequent_cron.Base.{
  ◌≡◌, refl, ap, ◌∙◌, String, true, ◌&&◌, none, some, [], arith, ◌==◌, string_eq, nat_eq,
  if◌then◌else◌,
}
use frequent_cron.Paths.{pid_path}
use frequent_cron.Config.{Config}
use frequent_cron.Database.{ServiceRecord, insert_service}
use frequent_cron.Database.Validity.{IsValid}
use frequent_cron.Database.Crud.{service_at, get_service-eq}
use frequent_cron.Platform.{Host}
use frequent_cron.Platform.Keeping.{IsManaging}
use frequent_cron.Registry.World.{
  Context, World, PlatformService, PlatformReply, say, on_db, on_option, on_platform, ask_os,
}
use frequent_cron.Registry.Status.{get_binary_path}
use frequent_cron.Registry.Install.{
  report_jitter, report_install, install_record, cmd_install, record_of_config,
}
use frequent_cron.Registry.Install.Outcome.{install_record-eq, inserted_facts}

module _ {D : Type 0} (c : Context D) where
  report_install-os : (config : Config D) (w : World c) → (report_install c config w).1.os ≡ w.os
  unfolding report_install report_jitter say
  report_install-os config w = ground arith

  abbrev pub binary_path : c.os.State → String
  binary_path s = elim (c.os.self_exe s) [ none ↦ "frequent-cron" | some path ↦ path ]

  get_binary_path-eq : (w : World c) → get_binary_path c w ≡ (binary_path w.os, w)
  unfolding get_binary_path ask_os
  get_binary_path-eq w =
      elim (c.os.self_exe w.os)
        as (λ link.
          on_option c link (λ w'. ("frequent-cron", w')) (λ path w'. (path, w')) w
          ≡ (elim link [ none ↦ "frequent-cron" | some path ↦ path ], w)) [
            | none ↦ refl
            | some path ↦ refl
          ]

  module _ (p : PlatformService D c.os) (here : c.platform ≡ some p) where
    on_platform-os :
        (f : PlatformService D c.os → c.os.State → PlatformReply × c.os.State) (w : World c)
        → (on_platform c f w).1.os ≡ (f p w.os).1
    unfolding on_platform
    on_platform-os f w = rw here refl

    -- The system after a row was inserted.
    install_record-os :
        (config : Config D) (w : World c)
        → (insert_service (record_of_config config) w.db).0 ≡ true
        → (install_record c config w).1.os
          ≡ (p.install config.service_name
              (record_of_config config)
              (binary_path w.os)
              c.data_dir
              w.os).1
    unfolding install_record on_db
    install_record-os config w inserted =
        let w' : World c = record w { db = (insert_service (record_of_config config) w.db).1 } in
        rw (inserted, get_binary_path-eq w') (report_install-os config _ ∙ on_platform-os _ w')

    -- With a service manager that keeps a file for each service, from consistent tables, and where
    -- SQLite refuses nothing, `install` under a new name returns 0 and leaves in the file of that
    -- service the text for its configuration, the running program's own path and the PID file that
    -- the registry will look at, where the service manager reports success. Where it reports a
    -- failure the file is as before, and so is every other file. This is said of files that the
    -- commands of the platform's tools leave alone.
    pub cmd_install_unit :
        (host : Host c.os) (file : String → String)
        (text : String → ServiceRecord D → String → String → String) (Q : String → Type 0)
        (config : Config D) (q : String) (w : World c)
        → IsManaging host p file text Q
        → Q q
        → w.db.faults ≡ []
        → IsValid w.db
        → service_at config.service_name w.db ≡ none
        → let name = config.service_name in
          let rec = record_of_config config in
          let reply = (p.install name rec (binary_path w.os) c.data_dir w.os).0 in
          let after = cmd_install c config w in
          (after.0 ≡ 0)
          × (c.os.read q after.1.os ≡ (
              if reply.done && file name == q
              then some (host.bytes (text name rec (binary_path w.os) (pid_path c.data_dir name)))
              else c.os.read q w.os))
    unfolding cmd_install on_db
    cmd_install_unit host file text Q config q w managing quiet clear valid absent =
        let (inserted, service, state) = inserted_facts c config w.db clear valid absent in
        rw (get_service-eq config.service_name w.db clear, absent)
          (
            (install_record-eq c config w inserted).0,
            ap (c.os.read q) (install_record-os config w inserted)
                ∙ managing.install_read config.service_name (record_of_config config) _ c.data_dir q
                    w.os quiet,
          )
