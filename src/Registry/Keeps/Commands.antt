-- ===== src/Registry/Keeps/Commands.antt =====
-- Each command keeps what the methods that it calls keep.
use frequent_cron.Base.{ℕ, zero, suc, ◌+◌, ◌≡◌, String, string_eq, nat_eq}
use frequent_cron.Base.Int.{ℤ}
use frequent_cron.Config.{Config}
use frequent_cron.Database.{
  Database, ServiceRecord, ServiceState, get_state, update_state, get_service, insert_service,
  remove_service,
}
use frequent_cron.Registry.World.{Context, on_db}
use frequent_cron.Registry.Status.{
  not_found, get_binary_path, is_process_running, known_status, get_actual_status,
}
use frequent_cron.Registry.Install.{
  report_jitter, report_install, install_record, cmd_install, record_of_config,
}
use frequent_cron.Registry.Stop.{cmd_stop, stop_registered, stop_process, not_running}
use frequent_cron.Registry.Remove.{
  remove_rotated, clean_up, remove_stopped, remove_registered, cmd_remove,
}
use frequent_cron.Registry.Start.{record_start, launch, start_registered, cmd_start}
use frequent_cron.Registry.Keeps.{
  Keeps, Keeps-pure, Keeps-bind, Keeps-on_os, Keeps-on_db, IsUpdating, IsStable, keeps_rules,
}

module _ {D : Type 0} (c : Context D) (P : Database D → Type 0) (name : String)
    (updating : IsUpdating c P name) where
  open updating use {get_service-P, get_state-P, update_state-P}

  get_service-Keeps : (n : String) → Keeps c P (on_db c (get_service n))
  get_service-Keeps n = Keeps-on_db c P (get_service n) (get_service-P n)

  get_state-Keeps : (n : String) → Keeps c P (on_db c (get_state n))
  get_state-Keeps n = Keeps-on_db c P (get_state n) (get_state-P n)

  update_state-Keeps : (st : ServiceState) → Keeps c P (on_db c (update_state name st))
  update_state-Keeps st = Keeps-on_db c P (update_state name st) (update_state-P st)

  not_found-Keeps : Keeps c P (not_found c name)
  unfolding not_found
  not_found-Keeps = search keeps_rules

  is_process_running-Keeps : (pid : ℤ) → Keeps c P (is_process_running c pid)
  unfolding is_process_running
  is_process_running-Keeps pid = search keeps_rules

  known_status-Keeps : (st : ServiceState) → Keeps c P (known_status c name st)
  unfolding known_status
  known_status-Keeps st = search (keeps_rules, is_process_running-Keeps, update_state-Keeps)

  pub get_actual_status-Keeps : Keeps c P (get_actual_status c name)
  unfolding get_actual_status
  get_actual_status-Keeps = search (keeps_rules, get_state-Keeps, known_status-Keeps)

  get_binary_path-Keeps : Keeps c P (get_binary_path c)
  unfolding get_binary_path
  get_binary_path-Keeps = search keeps_rules

  not_running-Keeps : Keeps c P (not_running c name)
  unfolding not_running
  not_running-Keeps = search (keeps_rules, update_state-Keeps)

  stop_process-Keeps : (pid : ℤ) → Keeps c P (stop_process c name pid)
  unfolding stop_process
  stop_process-Keeps pid = search (keeps_rules, update_state-Keeps) depth 12

  stop_registered-Keeps : Keeps c P (stop_registered c name)
  unfolding stop_registered
  stop_registered-Keeps =
      search
        (
          keeps_rules, get_state-Keeps, is_process_running-Keeps, stop_process-Keeps,
          not_running-Keeps,
        )
        depth 9

  pub cmd_stop-Keeps : Keeps c P (cmd_stop c name)
  unfolding cmd_stop
  cmd_stop-Keeps = search (keeps_rules, get_service-Keeps, not_found-Keeps, stop_registered-Keeps)

  record_start-Keeps : Keeps c P (record_start c name)
  unfolding record_start
  record_start-Keeps = search (keeps_rules, update_state-Keeps) depth 9

  launch-Keeps : (service : ServiceRecord D) → Keeps c P (launch c name service)
  unfolding launch
  launch-Keeps service = search (keeps_rules, get_binary_path-Keeps, record_start-Keeps) depth 9

  start_registered-Keeps : (service : ServiceRecord D) → Keeps c P (start_registered c name service)
  unfolding start_registered
  start_registered-Keeps service =
      search (keeps_rules, get_actual_status-Keeps, launch-Keeps) depth 9

  pub cmd_start-Keeps : Keeps c P (cmd_start c name)
  unfolding cmd_start
  cmd_start-Keeps = search (keeps_rules, get_service-Keeps, not_found-Keeps, start_registered-Keeps)

  report_jitter-Keeps : (config : Config D) → Keeps c P (report_jitter c config)
  unfolding report_jitter
  report_jitter-Keeps config = search keeps_rules

  report_install-Keeps : (config : Config D) → Keeps c P (report_install c config)
  unfolding report_install
  report_install-Keeps config = search (keeps_rules, report_jitter-Keeps) depth 12

  module _ (stable : IsStable c P name) where
    open stable use {remove_service-P, insert_service-P}

    remove_rotated-Keeps : (n i : ℕ) → Keeps c P (remove_rotated c name n i)
    unfolding remove_rotated
    remove_rotated-Keeps zero i = Keeps-pure c P tt
    remove_rotated-Keeps (suc n) i =
        Keeps-bind c P _ _ (Keeps-on_os c P _) (λ _. remove_rotated-Keeps n (i + 1))

    clean_up-Keeps : Keeps c P (clean_up c name)
    unfolding clean_up
    clean_up-Keeps = search (keeps_rules, remove_rotated-Keeps)

    remove_service-Keeps : Keeps c P (on_db c (remove_service name))
    remove_service-Keeps = Keeps-on_db c P (remove_service name) remove_service-P

    remove_stopped-Keeps : Keeps c P (remove_stopped c name)
    unfolding remove_stopped
    remove_stopped-Keeps = search (keeps_rules, remove_service-Keeps, clean_up-Keeps) depth 9

    remove_registered-Keeps : Keeps c P (remove_registered c name)
    unfolding remove_registered
    remove_registered-Keeps =
        search (keeps_rules, get_actual_status-Keeps, cmd_stop-Keeps, remove_stopped-Keeps)

    pub cmd_remove-Keeps : Keeps c P (cmd_remove c name)
    unfolding cmd_remove
    cmd_remove-Keeps =
        search (keeps_rules, get_service-Keeps, not_found-Keeps, remove_registered-Keeps)

    insert_service-Keeps :
        (config : Config D)
        → config.service_name ≡ name
        → Keeps c P (on_db c (insert_service (record_of_config config)))
    unfolding record_of_config
    insert_service-Keeps config h =
        Keeps-on_db c P (insert_service (record_of_config config))
          (λ db k. insert_service-P _ db h k)

    install_record-Keeps :
        (config : Config D) → config.service_name ≡ name → Keeps c P (install_record c config)
    unfolding install_record
    install_record-Keeps config h =
        search (keeps_rules, insert_service-Keeps, get_binary_path-Keeps, report_install-Keeps)
          depth 9

    pub cmd_install-Keeps :
        (config : Config D) → config.service_name ≡ name → Keeps c P (cmd_install c config)
    unfolding cmd_install
    cmd_install-Keeps config h =
        search (keeps_rules, get_service-Keeps, install_record-Keeps) depth 9
