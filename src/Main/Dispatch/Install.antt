-- ===== src/Main/Dispatch/Install.antt =====
-- The program called with `install`, from its arguments to the row that it leaves.
use frequent_cron.Base.{
  ◌≡◌, inr, refl, ap, ◌∙◌, String, Bool, false, true, Option, none, some, List, [], ◌∷◌, arith,
  string_eq, nat_eq, string_discrete, ℕ_discrete,
}
use frequent_cron.Base.Int.{ℤ, pos}
use frequent_cron.Process.{Bytes}
use frequent_cron.External.{Double, Random, Os}
use frequent_cron.Config.{
  Subcommand, Config, VariablesMap, ProgramOptions, make_install_options, subcommand_map, lookup,
}
use frequent_cron.Config.Parser.{
  override, override_synchronous, is_option, default_config, parse_common_options, try_parse,
  require, install_values, parse_install_args, with_name, parse_subcommand, parse_args, accept,
}
use frequent_cron.Config.Parsing.{parse_args-known}
use frequent_cron.DataDir.{Environment}
use frequent_cron.Database.{Database, ServiceRecord}
use frequent_cron.Database.Validity.{IsValid}
use frequent_cron.Database.Crud.{service_at, state_at, new_state}
use frequent_cron.Database.Schema.{Session}
use frequent_cron.Platform.{Host}
use frequent_cron.Platform.Scm.{Target}
use frequent_cron.Registry.World.{World}
use frequent_cron.Registry.Install.{cmd_install}
use frequent_cron.Registry.Install.Outcome.{cmd_install_new}
use frequent_cron.Main.Setup.{Registry, made, make_registry}
use frequent_cron.Main.Dispatch.{context_of, commanded, with_registry, dispatch_on, dispatch, main}

install_known : lookup "install" subcommand_map ≡ some Subcommand.install
unfolding lookup string_discrete ℕ_discrete
install_known = refl

module _ {D : Type 0} (d : Double D) where
  -- What the arguments ask for; an option that is not given has its default.
  abbrev pub ordered : String → String → ℤ → String → VariablesMap D → ServiceRecord D
  ordered now name frequency command vm = record {
    name = name;
    command = command;
    frequency_ms = frequency;
    synchronous = override_synchronous vm.synchronous true;
    jitter_ms = override vm.jitter (pos 0);
    jitter_distribution = override vm.jitter_distribution "uniform";
    fire_probability = override vm.fire_probability d.one;
    created_at = now;
    updated_at = now;
  }

  module _ (po : ProgramOptions D) where
    abbrev pub install_config : String → ℤ → String → VariablesMap D → Config D
    install_config name frequency command vm =
        parse_common_options d po vm (record (default_config d po) {
          subcommand = Subcommand.install;
          service_name = name;
          frequency = frequency;
          command = command;
        })

    install_parsed :
        (name : String) (args : List String) (frequency : ℤ) (command : String)
        (vm : VariablesMap D)
        → is_option name ≡ false
        → po.parse make_install_options args ≡ inr vm
        → vm.help ≡ false
        → vm.frequency ≡ some frequency
        → vm.command ≡ some command
        → parse_args d po ("install" ∷ name ∷ args)
          ≡ accept d po (install_config name frequency command vm)
    unfolding parse_subcommand with_name parse_install_args install_values require is_option
        try_parse
    install_parsed name args frequency command vm plain parsed unhelped timed told =
        parse_args-known d po "install" (name ∷ args) Subcommand.install (ground arith)
          install_known
        ∙ rw (plain, parsed, unhelped, timed, told) refl

module _ {D : Type 0} (d : Double D) (r : Random D) {o : Os} (host : Host o) (target : Target o)
    (sqlite3_open : String → o.State → Option String × Session D) (rows : Session D → Database D)
    (decode : Bytes → String) (env : Environment) (daemonized written : Bool) (seed : r.State)
    (po : ProgramOptions D) where
  -- Where the parser of options reads the arguments behind `install` and a name, a frequency and a
  -- command among them, the registry can be made, and its database is consistent, has no service of
  -- that name, and refuses nothing: the program ends with exit code 0, the service is stored with
  -- what the arguments say, and with the defaults for what they leave out, and it is stopped.
  pub main-install :
      (name : String) (args : List String) (frequency : ℤ) (command : String) (vm : VariablesMap D)
      (s s' : o.State) (registry : Registry D o)
      → is_option name ≡ false
      → po.parse make_install_options args ≡ inr vm
      → vm.help ≡ false
      → vm.frequency ≡ some frequency
      → vm.command ≡ some command
      → make_registry d r host target sqlite3_open env
          (install_config d po name frequency command vm)
          s
        ≡ (made registry, s')
      → (rows registry.db).faults ≡ []
      → IsValid (rows registry.db)
      → service_at name (rows registry.db) ≡ none
      → (w : World (context_of d registry)) × (main d r host target sqlite3_open rows decode env
            daemonized written seed po
            ("install" ∷ name ∷ args)
            s
          ≡ commanded registry (0, w))
        × (service_at name w.db ≡ some (ordered d (rows registry.db).now name frequency command vm))
        × (state_at name w.db ≡ some (new_state name))
  unfolding main dispatch dispatch_on with_registry parse_common_options default_config
  main-install name args frequency command vm s s' registry plain parsed unhelped timed told making
        clear valid absent =
      let config = install_config d po name frequency command vm in
      let w : World (context_of d registry) = record {
        os = s';
        db = rows registry.db;
        out = "";
        err = "";
      } in
      let (code, service, state) =
        cmd_install_new (context_of d registry) config w clear valid absent in
      let after = (cmd_install (context_of d registry) config w).1 in
      (
        after,
        rw
            (
              install_parsed d po name args frequency command vm plain parsed unhelped timed told,
              making,
            )
            (ap (λ k. commanded registry (k, after)) code),
        service,
        state,
      )
