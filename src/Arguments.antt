-- ===== src/Arguments.antt =====
-- The options of the run mode that the program writes onto a command line: `cmd_start` of
-- src/service_registry.cc for the shell, and src/platform_service.cc into a unit file.
pub mod Stored
use frequent_cron.Base.{[], String, ◌<>◌, false, none, some, List, ◌∷◌, ◌++◌, if◌then◌else◌}
use frequent_cron.Base.Int.{ℤ, pos, ltb_ℤ}
use frequent_cron.Base.Decimal.{to_string}
use frequent_cron.External.{Double}
use frequent_cron.Config.{VariablesMap}
use frequent_cron.Database.{ServiceRecord}

pub data Argument (D : Type 0) : Type 0 where
  frequency_is jitter_is : ℤ → Argument D
  command_is pid_file_is service_name_is data_dir_is jitter_distribution_is : String → Argument D
  not_synchronous : Argument D
  fire_probability_is : D → Argument D

abbrev pub quoted : String → String
quoted s = "\"" <> s <> "\""

module _ {D : Type 0} (d : Double D) where
  unfoldable pub argument_text : Argument D → String
  argument_text (frequency_is n) = " --frequency=" <> to_string n
  argument_text (jitter_is n) = " --jitter=" <> to_string n
  argument_text (command_is s) = " --command=" <> quoted s
  argument_text (pid_file_is s) = " --pid-file=" <> quoted s
  argument_text (service_name_is s) = " --service-name=" <> s
  argument_text (data_dir_is s) = " --data-dir=" <> quoted s
  argument_text (jitter_distribution_is s) = " --jitter-distribution=" <> s
  argument_text not_synchronous = " --synchronous=false"
  argument_text (fire_probability_is p) = " --fire-probability=" <> d.print p

  unfoldable pub arguments_text : List (Argument D) → String
  arguments_text [] = ""
  arguments_text (a ∷ rest) = argument_text a <> arguments_text rest

  -- The options that are passed on only where they differ from the default.
  unfoldable pub optional_arguments : ServiceRecord D → List (Argument D)
  optional_arguments service =
      (if service.synchronous then [] else not_synchronous ∷ [])
      ++ ((if ltb_ℤ (pos 0) service.jitter_ms
            then jitter_is service.jitter_ms
              ∷ jitter_distribution_is service.jitter_distribution
              ∷ []
            else [])
          ++ (if d.lt service.fire_probability d.one
              then fire_probability_is service.fire_probability ∷ []
              else []))

  -- What `start` passes to the shell, and what goes into a unit file.
  unfoldable pub launch_arguments : String → String → String → ServiceRecord D → List (Argument D)
  launch_arguments name data_dir pid_file service =
      frequency_is service.frequency_ms
      ∷ command_is service.command
      ∷ pid_file_is pid_file
      ∷ service_name_is name
      ∷ data_dir_is data_dir
      ∷ optional_arguments service

  unfoldable pub unit_arguments : String → ServiceRecord D → List (Argument D)
  unit_arguments pid_file service =
      frequency_is service.frequency_ms
      ∷ command_is service.command
      ∷ pid_file_is pid_file
      ∷ optional_arguments service

module _ {D : Type 0} where
  -- What `po::variables_map` holds once an option has been stored, and once they all have.
  unfoldable pub stored : Argument D → VariablesMap D → VariablesMap D
  stored (frequency_is n) vm = record vm { frequency = some n }
  stored (jitter_is n) vm = record vm { jitter = some n }
  stored (command_is s) vm = record vm { command = some s }
  stored (pid_file_is s) vm = record vm { pid_file = some s }
  stored (service_name_is s) vm = record vm { service_name = some s }
  stored (data_dir_is s) vm = record vm { data_dir = some s }
  stored (jitter_distribution_is s) vm = record vm { jitter_distribution = some s }
  stored not_synchronous vm = record vm { synchronous = some "false" }
  stored (fire_probability_is p) vm = record vm { fire_probability = some p }

  abbrev pub no_values : VariablesMap D
  no_values = record {
    help = false;
    frequency = none;
    command = none;
    pid_file = none;
    synchronous = none;
    data_dir = none;
    jitter = none;
    jitter_distribution = none;
    fire_probability = none;
    service_name = none;
  }

  unfoldable pub values_of : List (Argument D) → VariablesMap D
  values_of [] = no_values
  values_of (a ∷ rest) = stored a (values_of rest)

-- The arguments behind the program's own name.
unfoldable pub behind : List String → List String
behind [] = []
behind (program ∷ args) = args
