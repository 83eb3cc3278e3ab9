-- ===== src/Lib.antt =====
-- frequent-cron: a daemon that runs a shell command every so many milliseconds, and the commands
-- that install, start, stop and remove such services.
--
-- The parts of the program and how they interact. `main` (src/main.cc) parses the command line and
-- either becomes a daemon that runs one command or hands a subcommand to the registry. Running it is
-- the `Executor` (src/executor.cc): a timer that is armed again after each tick, that draws whether to
-- fire and how long to wait, and that runs the command in the process itself or in a child. It takes
-- the output from `run_process` (src/process.cc) and hands it to the `LogManager`
-- (src/log_manager.cc), which appends it to a log and rotates the log by size. The `ServiceRegistry`
-- (src/service_registry.cc) keeps the services and their states in the `Database` (src/database.cc),
-- launches the program again as a daemon, finds it by the PID file that the daemon writes
-- (src/pid_file.cc), and tells the platform's service manager (include/platform_service.h).
--
-- Which file models which part:
--   Base: what the other modules share. The native natural numbers, integers with a 32-bit `int`,
--     Boolean tests, lists, and decimal numerals.
--   External: `double`, the generators of <random> and the operating system, as parameters, with what
--     is relied on of them.
--   Process: run_process, with `fgets` into a buffer of 4096 bytes.
--   Executor: the members of class Executor as a record, its methods as functions. The event loop is
--     a list of events; what the handlers do to the world is a trace of actions.
--   Daemon: src/daemonize.cc, a process's descriptors, session and working directory through fork,
--     setsid, chdir and dup2. Daemon/Defaults puts it together with the choice of a data directory.
--   DataDir: get_default of src/data_dir.cc; its ensure_exists is in Main/Setup.
--   Database: the two SQLite tables as lists of rows, each method as a function that may meet a
--     refused statement. Database/Schema has the constructor: the tables of a new file, and the
--     columns that an old one is given.
--   PidFile, Paths: the PID file's content and its reading, and the names of a service's files.
--   LogManager: the log directory as a function from paths, with write, rotation and read_log.
--   Config: include/config.h and the described options; Config/Parser is src/config.cc, the parser
--     of the command line, over the parser of options of Boost as a parameter.
--   Arguments: the options that `start` writes onto the shell's command line, and a unit file has.
--     How they are split and stored is a parameter of what is shown of them.
--   Registry: the commands and the status check, as actions on a world of system, database and
--     output. Registry/Commands has whole histories of them, Registry/System what they do to the
--     system: whom they signal and how long they wait.
--   Platform: src/platform_service.cc. A method is an action on the system and the output streams;
--     Platform/Systemd, Launchd, Rcd and Scm are the four classes, Platform/Scm also has the factory.
--     Platform/Keeping has what the registry relies on of a class that keeps a file for each service,
--     and Platform/Create shows it of three of them.
--   Main: cmd_run of src/main.cc. Main/Dispatch is main itself, and Main/Setup make_registry and the
--     log manager of a run. What the statements on the tables see of the file that was opened, which
--     Database/Schema has as cells, is a parameter of main. Main/Launch and Main/Units put the parts
--     together: what the lines of `start` and of systemd launch, against the record of the service.
--     Main/Logging is the way of the command's output from the timer to the log.
--   Tests: concrete instances of the parameters, and examples.
--
-- Bounds and fuel. An `int` keeps its wrap-around (`to_int32`). The reader of a pipe has one round
-- more than the stream has bytes, and each round takes at least one. The waits for a PID file and for
-- a process to end have the 10 and 20 rounds of the source, and the removal of rotated logs its 10.
-- The rotation has the rounds of its `for` loop.
--
-- The POSIX build is modelled, on Linux where that differs, except in Platform, which has all four
-- platforms, and in DataDir, which has all three builds. Not modelled: the Windows branches of the
-- other parts, which call another system, and exceptions of std::filesystem, which a command lets
-- through: a directory that is to be created is taken to be created.
pub mod Base
pub mod External
pub mod Process
pub mod Daemon
pub mod Executor
pub mod DataDir
pub mod Database
pub mod PidFile
pub mod Paths
pub mod Config
pub mod LogManager
pub mod Arguments
pub mod Registry
pub mod Platform
pub mod Main
pub mod Tests
