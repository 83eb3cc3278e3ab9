-- ===== src/Main/Setup.antt =====
-- What src/main.cc does before a command: the lines that `cmd_run` prints and the log manager that it
-- makes, and `make_registry`; with `ensure_exists` of src/data_dir.cc and the constructors of class
-- LogManager (src/log_manager.cc) and class ServiceRegistry.
use frequent_cron.Base.Int.{ℤ}
use frequent_cron.Base.{
  ℕ, ◌≡◌, refl, sym, ap, ◌∙◌, ◌==◌, string_eq, nat_eq, none, some, arith, if_cases, String, ◌<>◌,
  Bool, true, Option, if◌then◌else◌,
}
use frequent_cron.Base.Decimal.{to_string}
use frequent_cron.External.{Double, Random, Os}
use frequent_cron.Paths.{◌//◌}
use frequent_cron.Config.{Config}
use frequent_cron.LogManager.{LogManager}
use frequent_cron.Database.Schema.{Session, Opening, ready, threw, open_database}
use frequent_cron.Database.Schema.Safety.{OnReady, IsOpen, open_database-IsOpen}
use frequent_cron.Registry.World.{PlatformService}
use frequent_cron.Platform.{Host}
use frequent_cron.Platform.Scm.{Target, create}
use frequent_cron.DataDir.{Environment}
use frequent_cron.Main.{chosen_dir, bytes_of_mb, run_log}

-- What `cmd_run` prints to std::cout before it becomes a daemon.
unfoldable pub announcement : {D : Type 0} → Config D → String
announcement config =
    "Frequency was set to "
    <> to_string config.frequency
    <> ".\n"
    <> "Command was set to "
    <> config.command
    <> ".\n"
    <> (if config.synchronous
        then "Synchronous was set to true.\n"
        else "Synchronous was set to false.\n")
    <> (if config.has_pid_file then "PID File was set to " <> config.pid_filename <> ".\n" else "")

-- data_dir::ensure_exists
unfoldable pub ensure_exists : {o : Os} → Host o → String → o.State → o.State
ensure_exists host dir s =
    host.create_directories (dir // "pids")
      (host.create_directories (dir // "logs") (host.create_directories dir s))

-- The constructor of class LogManager
unfoldable pub log_manager : {o : Os} → Host o → String → ℕ → ℤ → o.State → LogManager × o.State
log_manager host dir max_size max_files s = (
  record { log_dir = dir; max_file_size = max_size; max_files = max_files },
  host.create_directories dir s,
)

-- The log manager that `cmd_run` makes, if it makes one, and the system after it.
unfoldable pub start_log :
    {D : Type 0} {o : Os}
    → Double D
    → (r : Random D) → Host o
    → Environment
    → Config D
    → o.State
    → Option LogManager × o.State
start_log d r host env config s =
    if config.service_name == ""
    then (none, s)
    else let dir = chosen_dir d r env config in
      let log_dir = dir // "logs" in
      let (lm, s') =
        log_manager host log_dir (bytes_of_mb config.log_max_size_mb) config.log_max_files
          (host.create_directories log_dir (ensure_exists host dir s)) in
      (some lm, s')

-- The members of class ServiceRegistry.
pub record Registry (D : Type 0) (o : Os) : Type 0 where
  pub data_dir : String
  pub db : Session D
  pub platform : Option (PlatformService D o)

-- A registry, or the error that its constructor lets through.
pub data Making (D : Type 0) (o : Os) : Type 0 where
  made : Registry D o → Making D o
  failed : String → Making D o

module _ {D : Type 0} (d : Double D) (r : Random D) {o : Os} (host : Host o) (target : Target o)
    (sqlite3_open : String → o.State → Option String × Session D) where
  with_db : String → Opening D → Making D o
  with_db dir (ready db) =
      made (record { data_dir = dir; db = db; platform = create d host target })
  with_db dir (threw message) = failed message

  -- The constructor. `sqlite3_open` gives the message of a failure, and what the file holds.
  unfoldable pub service_registry : String → o.State → Making D o
  unfolding with_db
  service_registry dir s =
      let (failure, session) = sqlite3_open (dir // "frequent-cron.db") s in
      with_db dir (open_database d failure session)

  unfoldable pub make_registry : Environment → Config D → o.State → Making D o × o.State
  make_registry env config s =
      let dir = chosen_dir d r env config in
      let s' = ensure_exists host dir s in (service_registry dir s', s')

-- Which paths are directories; a directory that was created is there, and stays there.
pub record Directories {o : Os} (host : Host o) : Type 0 where
  pub is_directory : String → o.State → Bool
  pub created : (p : String) (s : o.State) → is_directory p (host.create_directories p s) ≡ true
  pub kept :
      (p q : String) (s : o.State)
      → is_directory q s ≡ true
      → is_directory q (host.create_directories p s) ≡ true

module _ {D : Type 0} (d : Double D) (r : Random D) {o : Os} (host : Host o) (target : Target o)
    (sqlite3_open : String → o.State → Option String × Session D) where
  -- What is promised of a registry that was made.
  abbrev pub IsReady : String → Making D o → Type 0
  IsReady dir (made registry) =
      (registry.data_dir ≡ dir) × (registry.platform ≡ create d host target) × IsOpen registry.db
  IsReady dir (failed message) = Unit

  with_db-IsReady :
      (dir : String) (opening : Opening D)
      → OnReady IsOpen opening
      → IsReady dir (with_db d r host target sqlite3_open dir opening)
  unfolding with_db
  with_db-IsReady dir (ready db) h = (refl, refl, h)
  with_db-IsReady dir (threw message) h = tt

  -- Whatever SQLite answers, where a directory that was created stays there: `make_registry` has made
  -- the data directory with its directories for logs and PID files, and either lets an error through
  -- or gives a registry of that data directory, with the service manager of the platform and a
  -- database that has both tables and enforces foreign keys.
  pub make_registry-IsReady :
      (directories : Directories host) (env : Environment) (config : Config D) (s : o.State)
      → let dir = chosen_dir d r env config in
        let (making, after) = make_registry d r host target sqlite3_open env config s in
        IsReady dir making
        × (directories.is_directory dir after ≡ true)
        × (directories.is_directory (dir // "logs") after ≡ true)
        × (directories.is_directory (dir // "pids") after ≡ true)
  unfolding make_registry service_registry ensure_exists
  make_registry-IsReady directories env config s =
      let dir = chosen_dir d r env config in
      let at_dir = directories.created dir s in
      (
        with_db-IsReady dir _ (open_database-IsOpen d _ _),
        directories.kept _ _ _ (directories.kept _ _ _ at_dir),
        directories.kept _ _ _ (directories.created (dir // "logs") _),
        directories.created (dir // "pids") _,
      )

-- The directory of a log manager, if there is one.
abbrev log_dir_of : String → Option LogManager → String
log_dir_of otherwise none = otherwise
log_dir_of otherwise (some lm) = lm.log_dir

module _ {D : Type 0} (d : Double D) (r : Random D) {o : Os} (host : Host o) where
  -- The log manager is the one of `run_log`, and the directory of its logs is there.
  pub start_log-run_log :
      (directories : Directories host) (env : Environment) (config : Config D) (s : o.State)
      → let (log, after) = start_log d r host env config s in
        (log ≡ run_log d r env config)
        × ((lm : LogManager) → log ≡ some lm → directories.is_directory lm.log_dir after ≡ true)
  unfolding start_log log_manager run_log
  start_log-run_log directories env config s =
      let dir = chosen_dir d r env config in
      let log_dir = dir // "logs" in
      let before = host.create_directories log_dir (ensure_exists host dir s) in
      let (lm, after) =
        log_manager host log_dir (bytes_of_mb config.log_max_size_mb) config.log_max_files before in
      if_cases
        (λ (made : Option LogManager × o.State).
          (made.0 ≡ run_log d r env config)
          × ((lm : LogManager)
              → made.0 ≡ some lm
              → directories.is_directory lm.log_dir made.1 ≡ true))
        (config.service_name == "") (none, s) (some lm, after)
        (λ unmanaged. (simp unmanaged refl, λ lm h. absurd (ground (arith, h))))
        (λ managed. (
          simp managed refl,
          λ lm h.
              ap (λ p. directories.is_directory p after) (ap (log_dir_of "") (sym h))
              ∙ directories.created log_dir before,
        ))
