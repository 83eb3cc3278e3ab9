-- ===== src/Main/Dispatch/Remove.antt =====
-- The program called with `remove`, from its arguments to what it leaves.
use frequent_cron.Base.{
  ◌≡◌, inr, refl, ap, ◌∙◌, String, Bool, false, Option, some, List, [], ◌∷◌, arith, string_eq,
  nat_eq, string_discrete, ℕ_discrete,
}
use frequent_cron.Process.{Bytes}
use frequent_cron.External.{Double, Random, Os, IsRemoving}
use frequent_cron.Config.{
  Subcommand, Config, VariablesMap, ProgramOptions, make_name_only_options, subcommand_map, lookup,
}
use frequent_cron.Config.Parser.{
  is_option, default_config, parse_common_options, try_parse, name_only, parse_name_subcommand,
  with_name, parse_subcommand, parse_args, accept,
}
use frequent_cron.Config.Parsing.{parse_args-known}
use frequent_cron.DataDir.{Environment}
use frequent_cron.Database.{Database, ServiceRecord}
use frequent_cron.Database.Crud.{service_at}
use frequent_cron.Database.Schema.{Session}
use frequent_cron.Platform.{Host}
use frequent_cron.Platform.Scm.{Target}
use frequent_cron.Registry.World.{World}
use frequent_cron.Registry.Remove.{cmd_remove}
use frequent_cron.Registry.Remove.Outcome.{IsGone, cmd_remove_outcome}
use frequent_cron.Main.Setup.{Registry, made, make_registry}
use frequent_cron.Main.Dispatch.{context_of, commanded, with_registry, dispatch_on, dispatch, main}

remove_known : lookup "remove" subcommand_map ≡ some Subcommand.remove
unfolding lookup string_discrete ℕ_discrete
remove_known = refl

module _ {D : Type 0} (d : Double D) (po : ProgramOptions D) where
  abbrev pub remove_config : String → VariablesMap D → Config D
  remove_config name vm =
      parse_common_options d po vm
        (record (default_config d po) { subcommand = Subcommand.remove; service_name = name })

  remove_parsed :
      (name : String) (args : List String) (vm : VariablesMap D)
      → is_option name ≡ false
      → po.parse make_name_only_options args ≡ inr vm
      → vm.help ≡ false
      → parse_args d po ("remove" ∷ name ∷ args) ≡ accept d po (remove_config name vm)
  unfolding parse_subcommand with_name parse_name_subcommand name_only is_option try_parse
  remove_parsed name args vm plain parsed unhelped =
      parse_args-known d po "remove" (name ∷ args) Subcommand.remove (ground arith) remove_known
      ∙ rw (plain, parsed, unhelped) refl

module _ {D : Type 0} (d : Double D) (r : Random D) {o : Os} (host : Host o) (target : Target o)
    (sqlite3_open : String → o.State → Option String × Session D) (rows : Session D → Database D)
    (decode : Bytes → String) (env : Environment) (daemonized written : Bool) (seed : r.State)
    (po : ProgramOptions D) (removing : IsRemoving o) where
  -- Where the parser of options accepts the arguments behind `remove` and a name, the registry can be
  -- made, its database knows the name and refuses nothing, and a removed file is gone: the program
  -- ends with exit code 0, neither table knows the name any more, and the PID file, the log and the
  -- rotated logs 0 to 9 of the service are gone from the data directory of the registry.
  pub main-remove :
      (name : String) (args : List String) (vm : VariablesMap D) (s s' : o.State)
      (registry : Registry D o) (rec : ServiceRecord D)
      → is_option name ≡ false
      → po.parse make_name_only_options args ≡ inr vm
      → vm.help ≡ false
      → make_registry d r host target sqlite3_open env (remove_config d po name vm) s
        ≡ (made registry, s')
      → (rows registry.db).faults ≡ []
      → service_at name (rows registry.db) ≡ some rec
      → (w : World (context_of d registry)) × (main d r host target sqlite3_open rows decode env
            daemonized written seed po
            ("remove" ∷ name ∷ args)
            s
          ≡ commanded registry (0, w))
        × IsGone (context_of d registry) removing name w
  unfolding main dispatch dispatch_on with_registry parse_common_options default_config
  main-remove name args vm s s' registry rec plain parsed unhelped making clear registered =
      let w : World (context_of d registry) = record {
        os = s';
        db = rows registry.db;
        out = "";
        err = "";
      } in
      let (code, gone) =
        cmd_remove_outcome (context_of d registry) removing name w rec clear registered in
      let after = (cmd_remove (context_of d registry) name w).1 in
      (
        after,
        rw (remove_parsed d po name args vm plain parsed unhelped, making)
            (ap (λ k. commanded registry (k, after)) code),
        gone,
      )
