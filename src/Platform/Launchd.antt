-- ===== src/Platform/Launchd.antt =====
-- class LaunchdService, the implementation on macOS.
use frequent_cron.Base.{String, ◌<>◌, Bool, true, false, if◌then◌else◌}
use frequent_cron.Base.Int.{ltb_ℤ, pos}
use frequent_cron.Base.Decimal.{to_string}
use frequent_cron.External.{Double, Os}
use frequent_cron.Paths.{◌//◌, pid_path}
use frequent_cron.Database.{ServiceRecord}
use frequent_cron.Registry.World.{PlatformService}
use frequent_cron.Platform.{
  Host, Job, ◌>>=◌, ◌>>◌, pure, change, call, ask, print, print_error, run, run_ok, reply,
  path_text, parent_path, home_of,
}

unfoldable pub get_label : String → String
get_label name = "com.frequent-cron." <> name

unfoldable pub get_plist_path : {o : Os} → Host o → String → String
get_plist_path host name =
    if host.is_root
    then "/Library/LaunchDaemons" // (get_label name <> ".plist")
    else home_of host.home host.pw_dir
      // "Library"
      // "LaunchAgents"
      // (get_label name <> ".plist")

abbrev argument : String → String
argument text = "        <string>" <> text <> "</string>\n"

-- The arguments that are left out where they have the default.
unfoldable pub option_arguments : {D : Type 0} → Double D → ServiceRecord D → String
option_arguments d rec =
    (if rec.synchronous then "" else argument "--synchronous=false")
    <> (if ltb_ℤ (pos 0) rec.jitter_ms
        then argument ("--jitter=" <> to_string rec.jitter_ms)
          <> argument ("--jitter-distribution=" <> rec.jitter_distribution)
        else "")
    <> (if d.lt rec.fire_probability d.one
        then argument ("--fire-probability=" <> d.print rec.fire_probability)
        else "")

-- The property list.
unfoldable pub plist_text :
    {D : Type 0} → Double D → String → ServiceRecord D → String → String → String
plist_text d name rec binary_path pid_file =
    "<?xml version=\"1.0\" encoding=\"UTF-8\"?>\n"
    <> "<!DOCTYPE plist PUBLIC \"-//Apple//DTD PLIST 1.0//EN\" \"http://www.apple.com/DTDs/PropertyList-1.0.dtd\">\n"
    <> "<plist version=\"1.0\">\n"
    <> "<dict>\n"
    <> "    <key>Label</key>\n"
    <> "    <string>"
    <> get_label name
    <> "</string>\n"
    <> "    <key>ProgramArguments</key>\n"
    <> "    <array>\n"
    <> argument binary_path
    <> argument "run"
    <> argument ("--frequency=" <> to_string rec.frequency_ms)
    <> argument ("--command=" <> rec.command)
    <> argument ("--pid-file=" <> pid_file)
    <> option_arguments d rec
    <> "    </array>\n"
    <> "    <key>RunAtLoad</key>\n"
    <> "    <true/>\n"
    <> "    <key>KeepAlive</key>\n"
    <> "    <true/>\n"
    <> "</dict>\n"
    <> "</plist>\n"

module _ {o : Os} (host : Host o) where
  unfoldable pub start : String → Job o Bool
  start name = run_ok o ("launchctl load \"" <> get_plist_path host name <> "\"")

  unfoldable pub stop : String → Job o Bool
  stop name = do
    run o ("launchctl unload \"" <> get_plist_path host name <> "\" 2>/dev/null")
    pure o true

  unfoldable pub install_plist : String → String → Job o Bool
  install_plist plist_path text = do
    change o (host.create_directories (parent_path plist_path))
    opened ← call o (host.write_file plist_path text)
    if opened
        then (do print o ("Launchd plist installed: " <> path_text plist_path <> "\n"); pure o true)
        else (do
          print_error o ("Failed to write plist: " <> path_text plist_path <> "\n")
          pure o false)

  unfoldable pub uninstall : String → Job o Bool
  uninstall name = do
    stop name
    there ← ask o (o.exists (get_plist_path host name))
    if there
        then (do
          change o (o.remove (get_plist_path host name))
          print o ("Launchd plist removed: " <> path_text (get_plist_path host name) <> "\n")
          pure o true)
        else pure o true

module _ {D : Type 0} (d : Double D) {o : Os} (host : Host o) where
  unfoldable pub install : String → ServiceRecord D → String → String → Job o Bool
  install name rec binary_path data_dir =
      install_plist host (get_plist_path host name)
        (plist_text d name rec binary_path (pid_path data_dir name))

  unfoldable pub launchd_service : PlatformService D o
  launchd_service = record {
    install = λ name rec binary_path data_dir. reply o (install name rec binary_path data_dir);
    uninstall = λ name. reply o (uninstall host name);
    start = λ name. reply o (start host name);
    stop = λ name. reply o (stop host name);
  }
