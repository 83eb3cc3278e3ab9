-- ===== src/Tests/Platforms.antt =====
-- The program on a small Linux system: its service manager, its daemon, its files and its database.
use frequent_cron.Base.{
  ℕ, ◌≡◌, ◌↔◌, refl, String, true, false, ◌&&◌, none, some, [], arith, ◌==◌, string_eq, nat_eq,
  if◌then◌else◌, ltb, string_discrete, ℕ_discrete,
}
use frequent_cron.Base.Int.{pos}
use text.Mathlib.TextEquality.{eq_iff}
use frequent_cron.PidFile.{codes, pid_file_content}
use frequent_cron.Paths.{pid_path, is_absolute, ends_slash, ◌//◌}
use frequent_cron.Database.Table.{find}
use frequent_cron.Registry.World.{Context, World}
use frequent_cron.Registry.Remove.{cmd_remove}
use frequent_cron.Registry.Remove.Units.{cmd_remove_unit}
use frequent_cron.Registry.Install.{cmd_install, record_of_config}
use frequent_cron.Registry.Install.Units.{cmd_install_unit}
use frequent_cron.Platform.{Host}
use frequent_cron.Platform.Keeping.{IsWriting, IsQuiet, IsManaging}
use frequent_cron.Platform.Systemd.{get_unit_path, get_service_name}
use frequent_cron.Platform.Scm.{linux, create}
use frequent_cron.Daemon.{
  Process, Answers, another, null_device, in_child, goes_on, daemonize, resolve,
}
use frequent_cron.Daemon.Effects.{IsDaemonOf, daemonize-IsDaemonOf}
use frequent_cron.Daemon.Defaults.{stated_dir, daemonize-chosen_dir}
use frequent_cron.DataDir.{Environment, unix}
use frequent_cron.Main.{chosen_dir}
use frequent_cron.Main.PidFiles.{write_pid_file, pid_from_file-write_pid_file}
use frequent_cron.Registry.Stop.{pid_from_file}
use frequent_cron.Main.Setup.{make_registry, Directories, IsReady, make_registry-IsReady}
use frequent_cron.Database.Schema.{Session}
use frequent_cron.Platform.Create.{
  on_linux, target, service_of, service_file, service_text, LeftAlone, create-IsManaging,
}
use frequent_cron.Tests.{
  permille, counting, has_file, Machine, machine, machine-IsRemoving, context, idle, empty_db,
  web_record, db_with, running_with,
}
use frequent_cron.Tests.Services.{empty_db-IsValid, registered, config}

-- A system whose user is root; a file can always be written.
abbrev pub host : Host machine
host = record {
  is_root = true;
  home = none;
  pw_dir = none;
  bytes = codes;
  create_directories = λ p s. record s { dirs = λ q. if p == q then true else s.dirs q };
  add_exec = λ p s. s;
  write_file =
      λ p text s. (true, record s { files = λ q. if p == q then some (codes text) else s.files q });
}

host-IsWriting : IsWriting host
host-IsWriting = record {
  written = λ p q text s. ground arith;
  exists_written = λ p q text s. ground arith;
  directories = λ p q s. refl;
  permissions = λ p q s. refl;
}

abbrev unit : String
unit = service_file host on_linux "web"

unit_name : unit ≡ "/etc/systemd/system/frequent-cron-web.service"
unfolding get_unit_path get_service_name ◌//◌ is_absolute ends_slash string_discrete ℕ_discrete
unit_name = refl

apart : (unit == "/data/pids/web.pid") ≡ false
apart =
    rw unit_name
      (ground (arith, eq_iff "/etc/systemd/system/frequent-cron-web.service" "/data/pids/web.pid"))

unit-IsQuiet : IsQuiet machine "systemctl " unit
unit-IsQuiet = record {
  same_exists = λ rest s. ground (arith, apart);
  same_read = λ rest s. ground (arith, apart);
}

create-IsManaging_example :
    (create permille host (target on_linux) ≡ some (service_of permille host on_linux))
    × IsManaging host
        (service_of permille host on_linux)
        (service_file host on_linux)
        (service_text permille on_linux)
        (LeftAlone machine on_linux)
create-IsManaging_example =
    create-IsManaging permille host machine-IsRemoving host-IsWriting on_linux

abbrev on_systemd : Context ℕ
on_systemd = record context { platform = some (service_of permille host on_linux) }

abbrev running_web : World on_systemd
running_web = record { os = idle; db = db_with (running_with (pos 42)); out = ""; err = "" }

abbrev fresh : World on_systemd
fresh = record { os = idle; db = empty_db; out = ""; err = "" }

on_systemd-IsManaging :
    IsManaging host
      (service_of permille host on_linux)
      (service_file host on_linux)
      (service_text permille on_linux)
      (LeftAlone machine on_linux)
on_systemd-IsManaging =
    (create-IsManaging permille host machine-IsRemoving host-IsWriting on_linux).1

cmd_remove_unit_example : has_file unit (cmd_remove on_systemd "web" running_web).1.os ≡ false
cmd_remove_unit_example =
    cmd_remove_unit on_systemd machine-IsRemoving (service_of permille host on_linux) host
      (service_file host on_linux) (service_text permille on_linux) (LeftAlone machine on_linux)
      on_systemd-IsManaging "web" running_web web_record refl unit-IsQuiet refl
      (registered (pos 42))

cmd_install_unit_example :
    let rec = record_of_config config in
    let reply =
      ((service_of permille host on_linux).install "web" rec "/usr/bin/frequent-cron" "/data"
        idle).0 in
    let after = cmd_install on_systemd config fresh in
    (after.0 ≡ 0)
    × (after.1.os.files unit ≡ (
        if reply.done && unit == unit
        then some (
            codes (
              service_text permille on_linux "web" rec "/usr/bin/frequent-cron"
                (pid_path "/data" "web")))
        else none))
unfolding find
cmd_install_unit_example =
    cmd_install_unit on_systemd (service_of permille host on_linux) refl host
      (service_file host on_linux) (service_text permille on_linux) (LeftAlone machine on_linux)
      config unit fresh on_systemd-IsManaging unit-IsQuiet refl empty_db-IsValid refl

-- The daemon of a shell whose three standard streams are open, and of one that has closed its input.
abbrev shell : Process
shell = record {
  fds = λ n. if ltb n 3 then some (another n) else none;
  cwd = "/home/me";
  leads_session = false;
}

abbrev forked : Answers
forked = record { fork = in_child; session_made = true; root_entered = true; null_opened = some 3 }

daemonize-IsDaemonOf_example :
    (q : Process) × (daemonize forked shell ≡ goes_on q) × IsDaemonOf shell q
daemonize-IsDaemonOf_example = daemonize-IsDaemonOf forked 3 shell refl refl refl refl refl

abbrev daemon : Process
daemon = record {
  fds = λ n. if ltb n 3 then some null_device else none;
  cwd = "/";
  leads_session = true;
}

daemon-IsDaemonOf : IsDaemonOf shell daemon
daemon-IsDaemonOf = record {
  in_root = refl;
  leads = refl;
  streams = λ n lt. ground arith;
  others = λ n gt. ground arith;
}

shell_bare : ends_slash shell.cwd ≡ false
unfolding ends_slash ℕ_discrete
shell_bare = refl

web_relative : is_absolute "web" ≡ false
unfolding is_absolute ℕ_discrete
web_relative = refl

-- A user whose XDG_DATA_HOME is a relative path, and a command line that names no data directory.
abbrev xdg_environment : Environment
xdg_environment = record {
  build = unix;
  is_root = false;
  xdg_data_home = some "share";
  home = some "/home/me";
  pw_dir = none;
}

daemonize-chosen_dir_example :
    let unset = record config { data_dir = "" } in
    let path = pid_path (chosen_dir permille counting xdg_environment unset) "web" in
    (resolve daemon path ≡ resolve shell path)
    ↔ (is_absolute (stated_dir xdg_environment unset) ≡ true)
daemonize-chosen_dir_example =
    daemonize-chosen_dir permille counting xdg_environment (record config { data_dir = "" }) shell
      daemon "web" daemon-IsDaemonOf (ground (arith, eq_iff "/home/me" "")) shell_bare web_relative

host_created : (p : String) (s : Machine) → (host.create_directories p s).dirs p ≡ true
host_created p s = ground arith

host_kept :
    (p q : String) (s : Machine) → s.dirs q ≡ true → (host.create_directories p s).dirs q ≡ true
host_kept p q s h = ground arith

-- The files of the system that are directories.
abbrev host_directories : Directories host
host_directories = record {
  is_directory = λ p s. s.dirs p;
  created = host_created;
  kept = host_kept;
}

-- A new database.
abbrev pub new_file : Session ℕ
new_file = record {
  tables = λ n. none;
  journal_mode = "delete";
  foreign_keys = false;
  answers = [];
}

abbrev pub root_environment : Environment
root_environment = record {
  build = unix;
  is_root = true;
  xdg_data_home = none;
  home = none;
  pw_dir = none;
}

make_registry-IsReady_example :
    let dir = chosen_dir permille counting root_environment config in
    let (making, after) =
      make_registry permille counting host linux
        (λ p s. (none, new_file))
        root_environment
        config
        idle in
    IsReady permille counting host linux (λ p s. (none, new_file)) dir making
    × (after.dirs dir ≡ true)
    × (after.dirs (dir // "logs") ≡ true)
    × (after.dirs (dir // "pids") ≡ true)
make_registry-IsReady_example =
    make_registry-IsReady permille counting host linux (λ p s. (none, new_file)) host_directories
      root_environment config idle

pid_from_file-write_pid_file_example :
    pid_from_file context "web" (write_pid_file host (pid_path "/data" "web") (pos 4711) idle).1
    ≡ pos 4711
unfolding write_pid_file pid_file_content
pid_from_file-write_pid_file_example =
    pid_from_file-write_pid_file context host "web" 4711 idle host-IsWriting (omega arith) refl refl
