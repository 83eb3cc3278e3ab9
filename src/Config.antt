-- ===== src/Config.antt =====
-- include/config.h and src/config.cc: the command line and what it is parsed into.
--
-- Boost.Program_options is outside. `ProgramOptions` is `po::store( po::parse_command_line( … ) )`: from
-- the described options and the arguments behind the program's name, either the message of the
-- exception or the values, each of the type that its description declares.
pub mod Parser
pub mod Parsing
pub mod Naming
use Prim.Native.String
use frequent_cron.Base.{
  String, Bool, Option, none, some, List, [], ◌∷◌, ◌⊎◌, ◌==◌, string_eq, nat_eq, if◌then◌else◌,
}
use frequent_cron.Base.Int.{ℤ}

pub data Subcommand : Type 0 where
  run install remove start stop status list logs legacy : Subcommand

pub record Config (D : Type 0) : Type 0 where
  pub subcommand : Subcommand
  pub service_name : String
  pub frequency : ℤ
  pub command : String
  pub pid_filename : String
  pub synchronous : Bool
  pub has_pid_file : Bool
  pub data_dir : String
  pub log_max_size_mb : ℤ
  pub log_max_files : ℤ
  pub jitter_ms : ℤ
  pub jitter_distribution : String
  pub fire_probability : D

pub data ParseResult : Type 0 where
  ok help parse_error : ParseResult

pub record ParseOutput (D : Type 0) : Type 0 where
  pub result : ParseResult
  pub config : Config D
  pub message : String

abbrev pub subcommand_map : List (String × Subcommand)
subcommand_map =
    ("run", run)
    ∷ ("install", install)
    ∷ ("remove", remove)
    ∷ ("start", start)
    ∷ ("stop", stop)
    ∷ ("status", status)
    ∷ ("list", list)
    ∷ ("logs", logs)
    ∷ []

-- subcommand_map.find
unfoldable pub lookup : String → List (String × Subcommand) → Option Subcommand
lookup word [] = none
lookup word ((name, subcommand) ∷ rest) = if name == word then some subcommand else lookup word rest

-- How an option takes its value.
pub data ValueType : Type 0 where
  no_value int_value text_value implicit_true double_value : ValueType

abbrev pub make_run_options : List (String × ValueType)
make_run_options =
    ("help", no_value)
    ∷ ("frequency", int_value)
    ∷ ("command", text_value)
    ∷ ("pid-file", text_value)
    ∷ ("synchronous", implicit_true)
    ∷ ("data-dir", text_value)
    ∷ ("jitter", int_value)
    ∷ ("jitter-distribution", text_value)
    ∷ ("fire-probability", double_value)
    ∷ ("service-name", text_value)
    ∷ []

abbrev pub make_install_options : List (String × ValueType)
make_install_options =
    ("help", no_value)
    ∷ ("frequency", int_value)
    ∷ ("command", text_value)
    ∷ ("synchronous", implicit_true)
    ∷ ("data-dir", text_value)
    ∷ ("jitter", int_value)
    ∷ ("jitter-distribution", text_value)
    ∷ ("fire-probability", double_value)
    ∷ []

abbrev pub make_name_only_options : List (String × ValueType)
make_name_only_options = ("help", no_value) ∷ ("data-dir", text_value) ∷ []

-- `po::variables_map`: what it holds for each option of the program.
pub record VariablesMap (D : Type 0) : Type 0 where
  pub help : Bool
  pub frequency : Option ℤ
  pub command : Option String
  pub pid_file : Option String
  pub synchronous : Option String
  pub data_dir : Option String
  pub jitter : Option ℤ
  pub jitter_distribution : Option String
  pub fire_probability : Option D
  pub service_name : Option String

pub record ProgramOptions (D : Type 0) : Type 0 where
  pub parse : List (String × ValueType) → List String → String ⊎ VariablesMap D
  -- `<<` of a description
  pub describe : List (String × ValueType) → String
