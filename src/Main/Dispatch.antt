-- ===== src/Main/Dispatch.antt =====
-- `main`: from a command line to the command that it runs, and what the process ends with.
pub mod Install
pub mod Remove
use frequent_cron.Base.{ℕ, String, ◌<>◌, Bool, Option, List, string_eq, nat_eq}
use frequent_cron.Process.{Bytes}
use frequent_cron.External.{Double, Random, Os}
use frequent_cron.Config.{
  Subcommand, Config, ParseResult, ok, help, parse_error, ParseOutput, ProgramOptions,
}
use frequent_cron.Config.Parser.{parse_args}
use frequent_cron.DataDir.{Environment}
use frequent_cron.Database.{Database}
use frequent_cron.Database.Schema.{Session}
use frequent_cron.Platform.{Host}
use frequent_cron.Platform.Scm.{Target}
use frequent_cron.Registry.World.{Context, World, Action}
use frequent_cron.Registry.Install.{cmd_install}
use frequent_cron.Registry.Remove.{cmd_remove}
use frequent_cron.Registry.Start.{cmd_start}
use frequent_cron.Registry.Stop.{cmd_stop}
use frequent_cron.Registry.Report.{cmd_status, cmd_list, cmd_logs}
use frequent_cron.Main.{Run, cmd_run}
use frequent_cron.Main.Setup.{announcement, Registry, Making, made, failed, make_registry}

-- What the methods of a registry work with.
abbrev pub context_of : {D : Type 0} {o : Os} → Double D → Registry D o → Context D
context_of {o = o} d registry = record {
  double = d;
  os = o;
  platform = registry.platform;
  data_dir = registry.data_dir;
}

-- What the process ends with: an exit code beside what it printed, to the output and for errors; what
-- it announced, and what `cmd_run` comes to; the text of a std::runtime_error that nobody catches; or
-- the exit code of a command of the registry, and what the command left.
pub data Ending {D : Type 0} (d : Double D) (o : Os) (G : Type 0) : Type 0 where
  said : ℕ → String → String → Ending d o G
  ran : String → Run D G → Ending d o G
  aborted : String → Ending d o G
  commanded : (registry : Registry D o) → ℕ × World (context_of d registry) → Ending d o G

-- `rows` is what the statements of class Database see of the tables of an open file, and `decode` the
-- text that the bytes of a log are. `daemonized` and `written` are the results of `daemonize` and
-- `write_pid_file`.
module _ {D : Type 0} (d : Double D) (r : Random D) {o : Os} (host : Host o) (target : Target o)
    (sqlite3_open : String → o.State → Option String × Session D) (rows : Session D → Database D)
    (decode : Bytes → String) (env : Environment) (daemonized written : Bool) (seed : r.State) where
  -- auto registry = make_registry( config ); return registry.…;
  with_registry : Making D o × o.State → ((c : Context D) → Action c ℕ) → Ending d o r.State
  with_registry (made registry, s) command = commanded registry (
      command (context_of d registry)
        (record { os = s; db = rows registry.db; out = ""; err = "" }))
  with_registry (failed message, s) command = aborted message

  unfoldable pub dispatch_on : Subcommand → Config D → o.State → Ending d o r.State
  unfolding with_registry
  dispatch_on Subcommand.run config s =
      ran (announcement config) (cmd_run d r env daemonized written config seed)
  dispatch_on Subcommand.legacy config s =
      ran (announcement config) (cmd_run d r env daemonized written config seed)
  dispatch_on Subcommand.install config s =
      with_registry (make_registry d r host target sqlite3_open env config s)
        (λ c. cmd_install c config)
  dispatch_on Subcommand.remove config s =
      with_registry (make_registry d r host target sqlite3_open env config s)
        (λ c. cmd_remove c config.service_name)
  dispatch_on Subcommand.start config s =
      with_registry (make_registry d r host target sqlite3_open env config s)
        (λ c. cmd_start c config.service_name)
  dispatch_on Subcommand.stop config s =
      with_registry (make_registry d r host target sqlite3_open env config s)
        (λ c. cmd_stop c config.service_name)
  dispatch_on Subcommand.status config s =
      with_registry (make_registry d r host target sqlite3_open env config s)
        (λ c. cmd_status c config.service_name)
  dispatch_on Subcommand.list config s =
      with_registry (make_registry d r host target sqlite3_open env config s) (λ c. cmd_list c)
  dispatch_on Subcommand.logs config s =
      with_registry (make_registry d r host target sqlite3_open env config s)
        (λ c. cmd_logs c decode config.service_name)

  unfoldable pub dispatch : ParseResult → ParseOutput D → o.State → Ending d o r.State
  dispatch help output s = said 0 (output.message <> "\n") ""
  dispatch parse_error output s = said 1 "" (output.message <> "\n")
  dispatch ok output s = dispatch_on output.config.subcommand output.config s

  unfoldable pub main : ProgramOptions D → List String → o.State → Ending d o r.State
  main po args s = let output = parse_args d po args in dispatch output.result output s
