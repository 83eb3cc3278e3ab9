-- ===== src/Tests/CommandLine.antt =====
-- Command lines.
use frequent_cron.Base.{
  [], ℕ, String, ◌≡◌, refl, true, false, none, some, List, ◌∷◌, string_eq, nat_eq, ℕ_discrete,
  string_discrete,
}
use frequent_cron.Base.Int.{pos}
use frequent_cron.Process.{exited}
use frequent_cron.Config.{Subcommand, Config, ok, parse_error, subcommand_map, lookup}
use frequent_cron.Config.Parser.{
  is_option, try_parse, name_only, parse_name_subcommand, with_name, parse_subcommand, parse_args,
}
use frequent_cron.Executor.{Event, completed, success, parent, run}
use frequent_cron.LogManager.{LogManager}
use frequent_cron.Config.Naming.{parse_args-missing_name}
use frequent_cron.DataDir.{Environment, unix}
use frequent_cron.Tests.{permille}
use frequent_cron.Tests.Shell.{read_options, reading}

abbrev events : List Event
events =
    completed (record {
      error = success;
      pipe = some (record { stream = b'o' ∷ []; status = exited 0 });
      fork_result = parent;
    })
    ∷ []

abbrev launched_args : List String
launched_args =
    "--frequency=1000" ∷ "--command=curl localhost" ∷ "--pid-file=/data/pids/web.pid"
    ∷ "--service-name=web" ∷ "--data-dir=/data" ∷ "--jitter=50" ∷ "--jitter-distribution=uniform"
    ∷ []

abbrev environment : Environment
environment = record {
  build = unix;
  is_root = false;
  xdg_data_home = some "/xdg";
  home = none;
  pw_dir = none;
}

-- A unit file names neither the service nor the data directory.
abbrev unit_args : List String
unit_args =
    "--frequency=1000" ∷ "--command=curl localhost" ∷ "--pid-file=/data/pids/web.pid"
    ∷ "--jitter=50" ∷ "--jitter-distribution=uniform" ∷ []

-- A synchronous service that fires at every wait.
abbrev managed : Config ℕ
managed = record {
  subcommand = Subcommand.run;
  service_name = "web";
  frequency = pos 1000;
  command = "date";
  pid_filename = "";
  synchronous = true;
  has_pid_file = false;
  data_dir = "/data";
  log_max_size_mb = pos 10;
  log_max_files = pos 5;
  jitter_ms = pos 50;
  jitter_distribution = "uniform";
  fire_probability = 1000;
}

stop_is_known : lookup "stop" subcommand_map ≡ some Subcommand.stop
unfolding lookup string_discrete ℕ_discrete
stop_is_known = refl

stop_accepted : (parse_args permille reading ("stop" ∷ "web" ∷ [])).result ≡ ok
unfolding parse_args lookup parse_subcommand with_name parse_name_subcommand name_only try_parse
    is_option read_options string_discrete ℕ_discrete
stop_accepted = refl

parse_args-missing_name_example :
    (parse_args permille reading ("stop" ∷ "--help" ∷ [])).result ≡ parse_error
unfolding is_option ℕ_discrete
parse_args-missing_name_example =
    parse_args-missing_name permille reading "stop" "--help" [] Subcommand.stop refl stop_is_known
      refl refl
