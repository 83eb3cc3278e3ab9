-- ===== src/Platform/Systemd.antt =====
-- class SystemdService, the implementation on Linux.
use frequent_cron.Base.{String, ◌<>◌, Bool, true, false, if◌then◌else◌}
use frequent_cron.External.{Double, Os}
use frequent_cron.Paths.{◌//◌, pid_path}
use frequent_cron.Arguments.{arguments_text, unit_arguments}
use frequent_cron.Database.{ServiceRecord}
use frequent_cron.Registry.World.{PlatformService}
use frequent_cron.Platform.{
  Host, Job, ◌>>=◌, ◌>>◌, pure, change, call, ask, print, print_error, run, run_ok, reply,
  path_text, parent_path, home_of,
}

unfoldable pub get_service_name : String → String
get_service_name name = "frequent-cron-" <> name <> ".service"

unfoldable pub get_unit_path : {o : Os} → Host o → String → String
get_unit_path host name =
    if host.is_root
    then "/etc/systemd/system" // get_service_name name
    else home_of host.home host.pw_dir // ".config" // "systemd" // "user" // get_service_name name

-- The unit file: the command that it starts, then the rest.
unfoldable pub exec_start : {D : Type 0} → Double D → ServiceRecord D → String → String → String
exec_start d rec binary_path pid_file =
    "ExecStart=" <> binary_path <> " run" <> arguments_text d (unit_arguments d pid_file rec)

unfoldable pub unit_text :
    {D : Type 0} → Double D → String → ServiceRecord D → String → String → String
unit_text d name rec binary_path pid_file =
    "[Unit]\n"
    <> "Description=frequent-cron: "
    <> name
    <> "\n"
    <> "After=network.target\n\n"
    <> "[Service]\n"
    <> "Type=forking\n"
    <> exec_start d rec binary_path pid_file
    <> "\n"
    <> "PIDFile="
    <> pid_file
    <> "\n"
    <> "Restart=on-failure\n"
    <> "RestartSec=5\n\n"
    <> "[Install]\n"
    <> "WantedBy=multi-user.target\n"

module _ {o : Os} (host : Host o) where
  unfoldable pub install_unit : String → String → Job o Bool
  install_unit unit_path text = do
    change o (host.create_directories (parent_path unit_path))
    opened ← call o (host.write_file unit_path text)
    if opened
        then (do
          run o "systemctl daemon-reload 2>/dev/null"
          print o ("Systemd unit installed: " <> path_text unit_path <> "\n")
          pure o true)
        else (do
          print_error o ("Failed to write unit file: " <> path_text unit_path <> "\n")
          pure o false)

  unfoldable pub uninstall : String → Job o Bool
  uninstall name = do
    run o ("systemctl stop " <> get_service_name name <> " 2>/dev/null")
    run o ("systemctl disable " <> get_service_name name <> " 2>/dev/null")
    there ← ask o (o.exists (get_unit_path host name))
    if there
        then (do
          change o (o.remove (get_unit_path host name))
          run o "systemctl daemon-reload 2>/dev/null"
          print o ("Systemd unit removed: " <> path_text (get_unit_path host name) <> "\n")
          pure o true)
        else pure o true

unfoldable pub start : {o : Os} → String → Job o Bool
start {o} name = run_ok o ("systemctl start " <> get_service_name name)

unfoldable pub stop : {o : Os} → String → Job o Bool
stop {o} name = run_ok o ("systemctl stop " <> get_service_name name)

module _ {D : Type 0} (d : Double D) {o : Os} (host : Host o) where
  unfoldable pub install : String → ServiceRecord D → String → String → Job o Bool
  install name rec binary_path data_dir =
      install_unit host (get_unit_path host name)
        (unit_text d name rec binary_path (pid_path data_dir name))

  unfoldable pub systemd_service : PlatformService D o
  systemd_service = record {
    install = λ name rec binary_path data_dir. reply o (install name rec binary_path data_dir);
    uninstall = λ name. reply o (uninstall host name);
    start = λ name. reply o (start name);
    stop = λ name. reply o (stop name);
  }
