-- ===== src/Registry/System.antt =====
-- What every command keeps of the operating system's state.
pub mod Signals
pub mod Waiting
use frequent_cron.Base.{
  ℕ, zero, suc, ◌+◌, ◌≡◌, refl, String, ◌<>◌, Bool, true, false, Option, none, some, arith, ◌==◌,
  string_eq, nat_eq, if◌then◌else◌, Bool-cases, inl, inr, Option-cases,
}
use frequent_cron.Base.Int.{ℤ, pos, leb_ℤ, ◌<ℤ◌}
use mathlib.Core.Option
use frequent_cron.Config.{Config}
use frequent_cron.Database.{
  Database, ServiceRecord, ServiceState, get_state, update_state, get_service, insert_service,
  remove_service,
}
use frequent_cron.Registry.World.{
  ◌>>=◌, Context, World, Action, PlatformService, PlatformReply, pure, say, complain, on_db, on_os,
  call_os, ask_os, on_platform, on_option,
}
use frequent_cron.Registry.Status.{
  not_found, get_binary_path, is_process_running, known_status, get_actual_status,
}
use frequent_cron.Registry.Install.{
  report_jitter, report_install, install_record, cmd_install, record_of_config,
}
use frequent_cron.Registry.Stop.{not_running}
use frequent_cron.Registry.Remove.{remove_rotated, clean_up, remove_stopped}

module _ {D : Type 0} (c : Context D) (P : c.os.State → Type 0) where
  -- From a system with `P` the action leaves one with `P`.
  pub record KeepsOs {A : Type 0} (m : Action c A) : Type 0 where
    pub at : (w : World c) → P w.os → P (m w).1.os

  pub KeepsOs-pure : {A : Type 0} (a : A) → KeepsOs (pure c a)
  KeepsOs-pure a = record { at = λ w h. h }

  pub KeepsOs-bind :
      {A B : Type 0} (m : Action c A) (f : A → Action c B)
      → KeepsOs m
      → ((a : A) → KeepsOs (f a))
      → KeepsOs (m >>= f)
  KeepsOs-bind m f km kf = record { at = λ w h. (kf (m w).0).at (m w).1 (km.at w h) }

  pub KeepsOs-if :
      {A : Type 0} (b : Bool) (m n : Action c A)
      → KeepsOs m
      → KeepsOs n
      → KeepsOs (if b then m else n)
  KeepsOs-if true m n km kn = km
  KeepsOs-if false m n km kn = kn

  pub KeepsOs-on_option :
      {A B : Type 0} (o : Option A) (m : Action c B) (f : A → Action c B)
      → KeepsOs m
      → ((a : A) → KeepsOs (f a))
      → KeepsOs (on_option c o m f)
  KeepsOs-on_option none m f km kf = km
  KeepsOs-on_option (some a) m f km kf = kf a

  pub KeepsOs-say : (text : String) → KeepsOs (say c text)
  unfolding say
  KeepsOs-say text = record { at = λ w h. h }

  pub KeepsOs-complain : (text : String) → KeepsOs (complain c text)
  unfolding complain
  KeepsOs-complain text = record { at = λ w h. h }

  pub KeepsOs-on_db : {A : Type 0} (f : Database D → A × Database D) → KeepsOs (on_db c f)
  unfolding on_db
  KeepsOs-on_db f = record { at = λ w h. h }

  pub KeepsOs-ask_os : {A : Type 0} (f : c.os.State → A) → KeepsOs (ask_os c f)
  unfolding ask_os
  KeepsOs-ask_os f = record { at = λ w h. h }

  pub KeepsOs-on_os :
      (f : c.os.State → c.os.State) → ((s : c.os.State) → P s → P (f s)) → KeepsOs (on_os c f)
  unfolding on_os
  KeepsOs-on_os f keep = record { at = λ w h. keep w.os h }

  pub KeepsOs-call_os :
      {A : Type 0} (f : c.os.State → A × c.os.State)
      → ((s : c.os.State) → P s → P (f s).1)
      → KeepsOs (call_os c f)
  unfolding call_os
  KeepsOs-call_os f keep = record { at = λ w h. keep w.os h }

  pub KeepsOs-on_platform :
      (f : PlatformService D c.os → c.os.State → PlatformReply × c.os.State)
      → ((p : PlatformService D c.os) (s : c.os.State) → c.platform ≡ some p → P s → P (f p s).1)
      → KeepsOs (on_platform c f)
  unfolding on_platform
  KeepsOs-on_platform f keep = record {
    at = λ w h. elim (Option-cases c.platform) [
      | inl missing ↦ rw missing h
      | inr (p, there) ↦ rw there (keep p w.os there h)
    ];
  }

  -- The calls that the commands make keep `P`, but for the waiting; a signal is sent to a positive
  -- PID.
  pub record IsCalm : Type 0 where
    pub removing : (q : String) (s : c.os.State) → P s → P (c.os.remove q s)
    pub running : (line : String) (s : c.os.State) → P s → P (c.os.system line s).1
    pub signalling : (pid : ℤ) (s : c.os.State) → pos 0 <ℤ pid → P s → P (c.os.terminate pid s)
    pub installing :
        (p : PlatformService D c.os) (name : String) (rec : ServiceRecord D)
        (binary_path data_dir : String) (s : c.os.State)
        → c.platform ≡ some p
        → P s
        → P (p.install name rec binary_path data_dir s).1
    pub uninstalling :
        (p : PlatformService D c.os) (name : String) (s : c.os.State)
        → c.platform ≡ some p
        → P s
        → P (p.uninstall name s).1

  pub ruleset os_rules = (
    KeepsOs-pure, KeepsOs-bind, KeepsOs-if, KeepsOs-on_option, KeepsOs-say, KeepsOs-complain,
    KeepsOs-on_db, KeepsOs-ask_os, KeepsOs-on_os, KeepsOs-call_os, KeepsOs-on_platform,
  )

module _ {D : Type 0} (c : Context D) (P : c.os.State → Type 0) (calm : IsCalm c P) where
  pub not_found-KeepsOs : (name : String) → KeepsOs c P (not_found c name)
  unfolding not_found
  not_found-KeepsOs name = search os_rules

  pub is_process_running-KeepsOs : (pid : ℤ) → KeepsOs c P (is_process_running c pid)
  unfolding is_process_running
  is_process_running-KeepsOs pid = search os_rules

  known_status-KeepsOs : (name : String) (st : ServiceState) → KeepsOs c P (known_status c name st)
  unfolding known_status
  known_status-KeepsOs name st = search (os_rules, is_process_running-KeepsOs)

  pub get_actual_status-KeepsOs : (name : String) → KeepsOs c P (get_actual_status c name)
  unfolding get_actual_status
  get_actual_status-KeepsOs name = search (os_rules, known_status-KeepsOs)

  pub get_binary_path-KeepsOs : KeepsOs c P (get_binary_path c)
  unfolding get_binary_path
  get_binary_path-KeepsOs = search os_rules

  pub not_running-KeepsOs : (name : String) → KeepsOs c P (not_running c name)
  unfolding not_running
  not_running-KeepsOs name = search os_rules

  report_jitter-KeepsOs : (config : Config D) → KeepsOs c P (report_jitter c config)
  unfolding report_jitter
  report_jitter-KeepsOs config = search os_rules

  report_install-KeepsOs : (config : Config D) → KeepsOs c P (report_install c config)
  unfolding report_install
  report_install-KeepsOs config = search (os_rules, report_jitter-KeepsOs) depth 12

  install_record-KeepsOs : (config : Config D) → KeepsOs c P (install_record c config)
  unfolding install_record
  install_record-KeepsOs config =
      search (os_rules, get_binary_path-KeepsOs, report_install-KeepsOs, calm.installing) depth 10

  pub cmd_install-KeepsOs : (config : Config D) → KeepsOs c P (cmd_install c config)
  unfolding cmd_install
  cmd_install-KeepsOs config = search (os_rules, install_record-KeepsOs) depth 9

  remove_rotated-KeepsOs : (name : String) (n i : ℕ) → KeepsOs c P (remove_rotated c name n i)
  unfolding remove_rotated
  remove_rotated-KeepsOs name zero i = KeepsOs-pure c P tt
  remove_rotated-KeepsOs name (suc n) i =
      KeepsOs-bind c P _ _ (KeepsOs-on_os c P _ (calm.removing _))
        (λ _. remove_rotated-KeepsOs name n (i + 1))

  clean_up-KeepsOs : (name : String) → KeepsOs c P (clean_up c name)
  unfolding clean_up
  clean_up-KeepsOs name = search (os_rules, remove_rotated-KeepsOs, calm.removing)

  pub remove_stopped-KeepsOs : (name : String) → KeepsOs c P (remove_stopped c name)
  unfolding remove_stopped
  remove_stopped-KeepsOs name = search (os_rules, clean_up-KeepsOs, calm.uninstalling) depth 10
