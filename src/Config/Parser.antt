-- ===== src/Config/Parser.antt =====
-- src/config.cc: the parser of the command line, over the described options of the parent module.
use Prim.Native.Char.{code}
use frequent_cron.Base.{
  String, ◌<>◌, Bool, true, false, ◌||◌, Option, none, some, List, [], ◌∷◌, ◌⊎◌, inl, inr, ◌==◌,
  string_eq, nat_eq, if◌then◌else◌,
}
use frequent_cron.Base.Int.{ℤ, pos}
use frequent_cron.External.{Double}
use frequent_cron.Config.{
  Subcommand, run, install, remove, start, stop, status, list, logs, legacy, Config, ok, help,
  parse_error, ParseOutput, lookup, subcommand_map, make_run_options, make_install_options,
  make_name_only_options, VariablesMap, ProgramOptions,
}

-- The value if there is one, and what was there before if not.
unfoldable pub override {ℓ} : {A : Type ℓ} → Option A → A → A
override none old = old
override (some value) old = value

unfoldable pub is_true : String → Bool
is_true val = val == "true" || val == "True" || val == "TRUE" || val == "1"

-- A given value that does not mean true sets the flag to false; one that does leaves it.
unfoldable pub override_synchronous : Option String → Bool → Bool
override_synchronous none old = old
override_synchronous (some val) old = if is_true val then old else false

-- first_arg[0] == '-'
unfoldable pub is_option : String → Bool
is_option String.[] = false
is_option (String.◌∷◌ c s) = code c == b'-'

module _ {D : Type 0} (d : Double D) (po : ProgramOptions D) where
  unfoldable pub default_config : Config D
  default_config = record {
    subcommand = legacy;
    service_name = "";
    frequency = pos 0;
    command = "";
    pid_filename = "";
    synchronous = true;
    has_pid_file = false;
    data_dir = "";
    log_max_size_mb = pos 10;
    log_max_files = pos 5;
    jitter_ms = pos 0;
    jitter_distribution = "uniform";
    fire_probability = d.one;
  }

  unfoldable pub parse_common_options : VariablesMap D → Config D → Config D
  parse_common_options vm config = record config {
    data_dir = override vm.data_dir config.data_dir;
    synchronous = override_synchronous vm.synchronous config.synchronous;
    jitter_ms = override vm.jitter config.jitter_ms;
    jitter_distribution = override vm.jitter_distribution config.jitter_distribution;
    fire_probability = override vm.fire_probability config.fire_probability;
  }

  abbrev pub failure : String → Config D → ParseOutput D
  failure message config = record { result = parse_error; config = config; message = message }

  abbrev pub usage : String → Config D → ParseOutput D
  usage message config = record { result = help; config = config; message = message }

  abbrev pub accept : Config D → ParseOutput D
  accept config = record { result = ok; config = config; message = "" }

  -- The `try` block: an exception of the parser becomes an error.
  unfoldable pub try_parse :
      String ⊎ VariablesMap D → Config D → (VariablesMap D → ParseOutput D) → ParseOutput D
  try_parse (inl message) config done = failure message config
  try_parse (inr vm) config done = done vm

  -- The two checks, and what is done with the values.
  unfoldable pub require :
      Option ℤ → Option String → Config D → (ℤ → String → ParseOutput D) → ParseOutput D
  require none command config done = failure "Frequency was not set." config
  require (some frequency) none config done = failure "Command was not set." config
  require (some frequency) (some command) config done = done frequency command

  -- The body of `try` in `parse_run_args`, once the values are stored.
  unfoldable pub run_config : VariablesMap D → Config D → ℤ → String → Config D
  run_config vm config frequency command = parse_common_options vm (record config {
    frequency = frequency;
    command = command;
    pid_filename = override vm.pid_file config.pid_filename;
    has_pid_file = elim vm.pid_file [ none ↦ config.has_pid_file | some file ↦ true ];
    service_name = override vm.service_name config.service_name;
  })

  unfoldable pub run_values : VariablesMap D → Config D → ParseOutput D
  run_values vm config =
      if vm.help
      then usage
          ("Usage: frequent-cron run --frequency=<ms> --command=<cmd>\n\n"
            <> po.describe make_run_options)
          config
      else require vm.frequency vm.command config
          (λ frequency command. accept (run_config vm config frequency command))

  unfoldable pub parse_run_args : List String → Subcommand → ParseOutput D
  parse_run_args args subcommand =
      let config = record default_config { subcommand = subcommand } in
      try_parse (po.parse make_run_options args) config (λ vm. run_values vm config)

  unfoldable pub install_values : VariablesMap D → Config D → ParseOutput D
  install_values vm config =
      if vm.help
      then usage
          ("Usage: frequent-cron install <name> --frequency=<ms> --command=<cmd>\n\n"
            <> po.describe make_install_options)
          config
      else require vm.frequency vm.command config (λ frequency command.
        accept
          (parse_common_options vm (record config { frequency = frequency; command = command })))

  unfoldable pub parse_install_args : List String → String → ParseOutput D
  parse_install_args args name =
      let config = record default_config { subcommand = install; service_name = name } in
      try_parse (po.parse make_install_options args) config (λ vm. install_values vm config)

  -- The `try` block that `parse_name_subcommand` and `list` have in common.
  unfoldable pub name_only : List String → String → Config D → ParseOutput D
  name_only args help_text config =
      try_parse (po.parse make_name_only_options args) config
        (λ vm. if vm.help then usage help_text config else accept (parse_common_options vm config))

  unfoldable pub parse_name_subcommand : List String → Subcommand → String → ParseOutput D
  parse_name_subcommand args subcommand name =
      name_only args (po.describe make_name_only_options)
        (record default_config { subcommand = subcommand; service_name = name })

  abbrev pub command_list : String
  command_list =
      "Commands:\n" <> "  run       Run a command at the specified frequency\n"
      <> "  install   Register a named service\n" <> "  remove    Unregister a named service\n"
      <> "  start     Start a registered service\n" <> "  stop      Stop a running service\n"
      <> "  status    Show status of services\n" <> "  list      List all registered services\n"
      <> "  logs      Show logs for a service\n"

  abbrev pub short_usage : String
  short_usage =
      "Usage: frequent-cron <command> [options]\n\n" <> command_list
      <> "\nRun 'frequent-cron <command> --help' for more information.\n"

  abbrev pub long_usage : String
  long_usage =
      "Usage: frequent-cron <command> [options]\n\n"
      <> "A daemon that runs shell commands at millisecond intervals (sub-second cron).\n\n"
      <> command_list <> "\nRun 'frequent-cron <command> --help' for command-specific options.\n"

  -- A subcommand whose first argument is a name.
  unfoldable pub with_name :
      String → List String → (String → List String → ParseOutput D) → ParseOutput D
  with_name message [] go = failure message default_config
  with_name message (name ∷ rest) go =
      if is_option name then failure message default_config else go name rest

  unfoldable pub parse_status : List String → ParseOutput D
  parse_status [] = parse_name_subcommand [] status ""
  parse_status (name ∷ rest) =
      if is_option name
      then parse_name_subcommand (name ∷ rest) status ""
      else parse_name_subcommand rest status name

  -- The switch; `legacy` stands for its default, which no word of the map reaches.
  unfoldable pub parse_subcommand : Subcommand → String → List String → ParseOutput D
  parse_subcommand run word args = parse_run_args args run
  parse_subcommand install word args =
      with_name "Usage: frequent-cron install <name> --frequency=<ms> --command=<cmd>" args
        (λ name rest. parse_install_args rest name)
  parse_subcommand remove word args =
      with_name ("Usage: frequent-cron " <> word <> " <name>") args
        (λ name rest. parse_name_subcommand rest remove name)
  parse_subcommand start word args =
      with_name ("Usage: frequent-cron " <> word <> " <name>") args
        (λ name rest. parse_name_subcommand rest start name)
  parse_subcommand stop word args =
      with_name ("Usage: frequent-cron " <> word <> " <name>") args
        (λ name rest. parse_name_subcommand rest stop name)
  parse_subcommand logs word args =
      with_name ("Usage: frequent-cron " <> word <> " <name>") args
        (λ name rest. parse_name_subcommand rest logs name)
  parse_subcommand status word args = parse_status args
  parse_subcommand list word args =
      name_only args "Usage: frequent-cron list\n" (record default_config { subcommand = list })
  parse_subcommand legacy word args = failure "Unknown command." default_config

  -- The arguments behind the program's own name.
  unfoldable pub parse_args : List String → ParseOutput D
  parse_args [] = failure short_usage default_config
  parse_args (word ∷ args) =
      if word == "--help" || word == "-h"
      then usage long_usage default_config
      else if is_option word
      then parse_run_args (word ∷ args) legacy
      else elim (lookup word subcommand_map) [
        | none ↦ failure ("Unknown command: " <> word) default_config
        | some subcommand ↦ parse_subcommand subcommand word args
      ]
