-- ===== src/Platform/Scm.antt =====
-- class ScmService, the implementation on Windows, over the functions of the service control
-- manager, and the factory that chooses one of the four classes.
use frequent_cron.Base.{ℕ, String, ◌<>◌, Bool, true, false, Option, none, some, if◌then◌else◌}
use frequent_cron.Base.Int.{pos}
use frequent_cron.Base.Decimal.{to_string}
use frequent_cron.External.{Double, Os}
use frequent_cron.Database.{ServiceRecord}
use frequent_cron.Registry.World.{PlatformService}
use frequent_cron.Platform.{
  Host, Job, ◌>>=◌, ◌>>◌, pure, change, call, ask, print, print_error, run_ok, reply, option_text,
}
use frequent_cron.Platform.Systemd.{systemd_service}
use frequent_cron.Platform.Launchd.{launchd_service}
use frequent_cron.Platform.Rcd.{rcd_service}

-- The functions of <winsvc.h>; `none` is the null handle.
pub record Manager (o : Os) : Type 1 where
  pub Handle : Type 0
  -- OpenSCManagerA( nullptr, nullptr, access ), where `true` is SC_MANAGER_CREATE_SERVICE and
  -- `false` SC_MANAGER_CONNECT
  pub open_manager : Bool → o.State → Option Handle × o.State
  -- CreateServiceA with the service's name, its display name and its command line, and
  -- OpenServiceA with DELETE | SERVICE_STOP
  pub create_service : Handle → String → String → String → o.State → Option Handle × o.State
  pub open_service : Handle → String → o.State → Option Handle × o.State
  -- ControlService with SERVICE_CONTROL_STOP, and DeleteService( svc ) != 0
  pub control_stop : Handle → o.State → o.State
  pub delete_service : Handle → o.State → Bool × o.State
  pub close : Handle → o.State → o.State
  pub last_error : o.State → ℕ
  -- `/` of two paths, which writes a backslash here
  pub join : String → String → String

unfoldable pub get_service_name : String → String
get_service_name name = "frequent-cron-" <> name

unfoldable pub command_line : {D : Type 0} → Double D → ServiceRecord D → String → String → String
command_line d rec binary_path pid_file =
    "\""
    <> binary_path
    <> "\""
    <> " run"
    <> " --frequency="
    <> to_string rec.frequency_ms
    <> " --command=\""
    <> rec.command
    <> "\""
    <> " --pid-file=\""
    <> pid_file
    <> "\""
    <> option_text d rec

module _ {o : Os} where
  unfoldable pub start : String → Job o Bool
  start name = run_ok o ("sc start " <> get_service_name name)

  unfoldable pub stop : String → Job o Bool
  stop name = run_ok o ("sc stop " <> get_service_name name)

module _ {o : Os} (m : Manager o) where
  unfoldable pub report_created : String → m.Handle → Option m.Handle → Job o Bool
  report_created svc_name scm none = do
    error ← ask o m.last_error
    print_error o ("Failed to create service. Error: " <> to_string (pos error) <> "\n")
    change o (m.close scm)
    pure o false
  report_created svc_name scm (some svc) = do
    change o (m.close svc)
    change o (m.close scm)
    print o ("Windows service installed: " <> svc_name <> "\n")
    pure o true

  unfoldable pub create_with : String → String → String → Option m.Handle → Job o Bool
  create_with svc_name display_name cmd_str none = do
    print_error o "Failed to open Service Control Manager. Run as Administrator.\n"
    pure o false
  create_with svc_name display_name cmd_str (some scm) = do
    svc ← call o (m.create_service scm svc_name display_name cmd_str)
    report_created svc_name scm svc

  unfoldable pub delete_opened : String → m.Handle → Option m.Handle → Job o Bool
  delete_opened svc_name scm none = do change o (m.close scm); pure o false
  delete_opened svc_name scm (some svc) = do
    change o (m.control_stop svc)
    deleted ← call o (m.delete_service svc)
    change o (m.close svc)
    change o (m.close scm)
    if deleted
        then (do print o ("Windows service removed: " <> svc_name <> "\n"); pure o true)
        else pure o false

  unfoldable pub delete_with : String → Option m.Handle → Job o Bool
  delete_with svc_name none = pure o false
  delete_with svc_name (some scm) = do
    svc ← call o (m.open_service scm svc_name)
    delete_opened svc_name scm svc

  unfoldable pub uninstall : String → Job o Bool
  uninstall name = do scm ← call o (m.open_manager false); delete_with (get_service_name name) scm

  module _ {D : Type 0} (d : Double D) where
    unfoldable pub install : String → ServiceRecord D → String → String → Job o Bool
    install name rec binary_path data_dir = do
      scm ← call o (m.open_manager true)
      create_with (get_service_name name) ("frequent-cron: " <> name)
          (command_line d rec binary_path (m.join (m.join data_dir "pids") (name <> ".pid"))) scm

    unfoldable pub scm_service : PlatformService D o
    scm_service = record {
      install = λ name rec binary_path data_dir. reply o (install name rec binary_path data_dir);
      uninstall = λ name. reply o (uninstall name);
      start = λ name. reply o (start name);
      stop = λ name. reply o (stop name);
    }

-- The platform that the program is built for; the functions of Windows are there on Windows only.
pub data Target (o : Os) : Type 1 where
  linux apple freebsd other : Target o
  windows : Manager o → Target o

-- PlatformService::create
unfoldable pub create :
    {D : Type 0} → Double D → {o : Os} → Host o → Target o → Option (PlatformService D o)
create d host linux = some (systemd_service d host)
create d host apple = some (launchd_service d host)
create d host freebsd = some (rcd_service d host)
create d host (windows m) = some (scm_service m d)
create d host other = none
