-- ===== src/Platform/Rcd.antt =====
-- class RcdService, the implementation on FreeBSD.
use frequent_cron.Base.{String, ◌<>◌, Bool, true, false, if◌then◌else◌}
use frequent_cron.Base.Decimal.{to_string}
use frequent_cron.External.{Double, Os}
use frequent_cron.Paths.{◌//◌, pid_path}
use frequent_cron.Database.{ServiceRecord}
use frequent_cron.Registry.World.{PlatformService}
use frequent_cron.Platform.{
  Host, Job, ◌>>=◌, ◌>>◌, pure, change, call, ask, print, print_error, run, run_ok, reply,
  path_text, parent_path, option_text,
}

unfoldable pub get_service_name : String → String
get_service_name name = "frequent_cron_" <> name

unfoldable pub get_script_path : String → String
get_script_path name = "/usr/local/etc/rc.d" // get_service_name name

-- The script.
unfoldable pub script_text :
    {D : Type 0} → Double D → String → ServiceRecord D → String → String → String
script_text d name rec binary_path pid_file =
    "#!/bin/sh\n"
    <> "#\n"
    <> "# PROVIDE: "
    <> get_service_name name
    <> "\n"
    <> "# REQUIRE: DAEMON\n"
    <> "# KEYWORD: shutdown\n"
    <> "\n"
    <> ". /etc/rc.subr\n"
    <> "\n"
    <> "name=\""
    <> get_service_name name
    <> "\"\n"
    <> "rcvar=\""
    <> get_service_name name
    <> "_enable\"\n"
    <> "pidfile=\""
    <> pid_file
    <> "\"\n"
    <> "command=\""
    <> binary_path
    <> "\"\n"
    <> "command_args=\"run"
    <> " --frequency="
    <> to_string rec.frequency_ms
    <> " --command='"
    <> rec.command
    <> "'"
    <> " --pid-file="
    <> pid_file
    <> option_text d rec
    <> "\"\n"
    <> "\n"
    <> "load_rc_config $name\n"
    <> "run_rc_command \"$1\"\n"

module _ {o : Os} (host : Host o) where
  unfoldable pub install_script : String → String → String → Job o Bool
  install_script script_path svc_name text = do
    change o (host.create_directories (parent_path script_path))
    opened ← call o (host.write_file script_path text)
    if opened
        then (do
          change o (host.add_exec script_path)
          run o ("sysrc " <> svc_name <> "_enable=YES 2>/dev/null")
          print o ("rc.d script installed: " <> path_text script_path <> "\n")
          pure o true)
        else (do
          print_error o ("Failed to write rc.d script: " <> path_text script_path <> "\n")
          pure o false)

  unfoldable pub start : String → Job o Bool
  start name = run_ok o ("service " <> get_service_name name <> " start")

  unfoldable pub stop : String → Job o Bool
  stop name = do run o ("service " <> get_service_name name <> " stop 2>/dev/null"); pure o true

  unfoldable pub uninstall : String → Job o Bool
  uninstall name = do
    stop name
    run o ("sysrc -x " <> get_service_name name <> "_enable 2>/dev/null")
    there ← ask o (o.exists (get_script_path name))
    if there
        then (do
          change o (o.remove (get_script_path name))
          print o ("rc.d script removed: " <> path_text (get_script_path name) <> "\n")
          pure o true)
        else pure o true

module _ {D : Type 0} (d : Double D) {o : Os} (host : Host o) where
  unfoldable pub install : String → ServiceRecord D → String → String → Job o Bool
  install name rec binary_path data_dir =
      install_script host (get_script_path name) (get_service_name name)
        (script_text d name rec binary_path (pid_path data_dir name))

  unfoldable pub rcd_service : PlatformService D o
  rcd_service = record {
    install = λ name rec binary_path data_dir. reply o (install name rec binary_path data_dir);
    uninstall = λ name. reply o (uninstall host name);
    start = λ name. reply o (start host name);
    stop = λ name. reply o (stop host name);
  }
