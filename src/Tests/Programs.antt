-- ===== src/Tests/Programs.antt =====
-- The program called with `install` and `remove` on a small Linux system whose user is root.
use frequent_cron.Base.{
  ℕ, ◌≡◌, inr, refl, String, true, false, none, some, List, [], ◌∷◌, nat_eq, string_eq,
  string_discrete, ℕ_discrete,
}
use frequent_cron.Base.Int.{pos}
use frequent_cron.Config.{VariablesMap, make_install_options, make_name_only_options}
use frequent_cron.Config.Parser.{is_option}
use frequent_cron.Arguments.{stored, no_values}
use frequent_cron.Database.Table.{find}
use frequent_cron.Database.Crud.{service_at, state_at, new_state}
use frequent_cron.Database.Schema.{
  create_table, open_database, ensure_schema, exec, sqlite3_exec, migrate, try_add_column,
  add_column, has_column, services_columns,
}
use frequent_cron.Platform.Scm.{linux}
use frequent_cron.Registry.World.{World}
use frequent_cron.Registry.Remove.Outcome.{IsGone}
use frequent_cron.Main.Setup.{
  Registry, Making, made, failed, make_registry, service_registry, ensure_exists,
}
use frequent_cron.Main.Dispatch.{context_of, commanded, main}
use frequent_cron.Main.Dispatch.Install.{ordered, install_config, main-install}
use frequent_cron.Main.Dispatch.Remove.{remove_config, main-remove}
use frequent_cron.Tests.{
  permille, counting, Machine, machine, machine-IsRemoving, idle, empty_db, web_record, db_with,
  running_with,
}
use frequent_cron.Tests.Services.{empty_db-IsValid, registered}
use frequent_cron.Tests.Platforms.{host, new_file, root_environment}
use frequent_cron.Tests.Shell.{cut, number, recognised, read_options, reading}

abbrev ordered_values : VariablesMap ℕ
ordered_values = record no_values {
  frequency = some (pos 1000);
  command = some "date";
  data_dir = some "/data";
}

abbrev install_args : List String
install_args = "--frequency=1000" ∷ "--command=date" ∷ "--data-dir=/data" ∷ []

install_read : reading.parse make_install_options install_args ≡ inr ordered_values
unfolding read_options recognised cut number stored ℕ_discrete
install_read = refl

web_plain : is_option "web" ≡ false
unfolding is_option ℕ_discrete
web_plain = refl

abbrev registry_or : Registry ℕ machine → Making ℕ machine → Registry ℕ machine
registry_or otherwise (made registry) = registry
registry_or otherwise (failed message) = otherwise

abbrev nothing : Registry ℕ machine
nothing = record { data_dir = ""; db = new_file; platform = none }

abbrev making : Making ℕ machine × Machine
making =
    make_registry permille counting host linux (λ p s. (none, new_file)) root_environment
      (install_config permille reading "web" (pos 1000) "date" ordered_values) idle

abbrev registry : Registry ℕ machine
registry = registry_or nothing making.0

install_made : making ≡ (made registry, making.1)
unfolding make_registry service_registry open_database ensure_schema exec sqlite3_exec create_table
    migrate try_add_column add_column ensure_exists has_column services_columns string_discrete
    ℕ_discrete
install_made = refl

main-install_example :
    (w : World (context_of permille registry)) × (main permille counting host linux
        (λ p s. (none, new_file))
        (λ session. empty_db)
        (λ bytes. "")
        root_environment
        true
        true
        0
        reading
        ("install" ∷ "web" ∷ install_args)
        idle
      ≡ commanded registry (0, w))
    × (service_at "web" w.db
        ≡ some (ordered permille "day 2" "web" (pos 1000) "date" ordered_values))
    × (state_at "web" w.db ≡ some (new_state "web"))
unfolding find
main-install_example =
    main-install permille counting host linux (λ p s. (none, new_file)) (λ session. empty_db)
      (λ bytes. "") root_environment true true 0 reading "web" install_args (pos 1000) "date"
      ordered_values idle making.1 registry web_plain install_read refl refl refl install_made refl
      empty_db-IsValid refl

-- A file whose statements see one service, which process 42 runs.
abbrev remove_values : VariablesMap ℕ
remove_values = record no_values { data_dir = some "/data" }

remove_read : reading.parse make_name_only_options ("--data-dir=/data" ∷ []) ≡ inr remove_values
unfolding read_options recognised cut number stored ℕ_discrete
remove_read = refl

abbrev making_again : Making ℕ machine × Machine
making_again =
    make_registry permille counting host linux (λ p s. (none, new_file)) root_environment
      (remove_config permille reading "web" remove_values) idle

abbrev known_registry : Registry ℕ machine
known_registry = registry_or nothing making_again.0

remove_made : making_again ≡ (made known_registry, making_again.1)
unfolding make_registry service_registry open_database ensure_schema exec sqlite3_exec create_table
    migrate try_add_column add_column ensure_exists has_column services_columns string_discrete
    ℕ_discrete
remove_made = refl

main-remove_example :
    (w : World (context_of permille known_registry)) × (main permille counting host linux
        (λ p s. (none, new_file))
        (λ session. db_with (running_with (pos 42)))
        (λ bytes. "")
        root_environment
        true
        true
        0
        reading
        ("remove" ∷ "web" ∷ "--data-dir=/data" ∷ [])
        idle
      ≡ commanded known_registry (0, w))
    × IsGone (context_of permille known_registry) machine-IsRemoving "web" w
main-remove_example =
    main-remove permille counting host linux (λ p s. (none, new_file))
      (λ session. db_with (running_with (pos 42))) (λ bytes. "") root_environment true true 0
      reading machine-IsRemoving "web" ("--data-dir=/data" ∷ []) remove_values idle making_again.1
      known_registry web_record web_plain remove_read refl remove_made refl (registered (pos 42))
