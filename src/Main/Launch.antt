-- ===== src/Main/Launch.antt =====
-- What `start` launches, against the record of the service.
use frequent_cron.Base.{
  ◌*◌, ◌≡◌, ◌≢◌, inr, refl, ap, ◌∙◌, String, Bool, true, false, none, some, List, ◌∷◌, arith,
  string_eq, nat_eq, if◌then◌else◌, ℕ_discrete, string_discrete,
}
use frequent_cron.Base.Int.{pos}
use frequent_cron.Config.{Subcommand, Config, ProgramOptions, make_run_options, lookup}
use frequent_cron.Config.Parser.{
  override, override_synchronous, is_true, is_option, default_config, parse_common_options,
  try_parse, require, run_config, run_values, parse_run_args, parse_subcommand, parse_args, accept,
}
use frequent_cron.Config.Parsing.{parse_args-known}
use frequent_cron.Database.{ServiceRecord}
use frequent_cron.DataDir.{Environment}
use frequent_cron.Main.{run_log, chosen_dir, bytes_of_mb}
use frequent_cron.LogManager.{LogManager}
use frequent_cron.Arguments.Stored.{launch_values}
use frequent_cron.Paths.{◌//◌, log_file, log_path}
use frequent_cron.External.{Double, Random}
use frequent_cron.Executor.{Executor, make_executor, set_output_callback, run}

pub flag_read : (b : Bool) → override_synchronous (if b then none else some "false") true ≡ b
unfolding override_synchronous is_true string_discrete ℕ_discrete
flag_read true = refl
flag_read false = refl

pub option_read {ℓ} :
    {A : Type ℓ} (b : Bool) (x y : A)
    → override (if b then some x else none) y ≡ (if b then x else y)
unfolding override
option_read true x y = refl
option_read false x y = refl

module _ {D : Type 0} (d : Double D) (r : Random D) where
  -- The executor that the record describes, with its output captured.
  abbrev pub recorded : ServiceRecord D → r.State → Executor D r.State
  recorded rec seed = set_output_callback d r (
      make_executor d r rec.command rec.frequency_ms rec.synchronous rec.jitter_ms
        rec.jitter_distribution rec.fire_probability seed)

  module _ (po : ProgramOptions D) where
    abbrev launched_config : String → String → String → ServiceRecord D → Config D
    launched_config name data_dir pid_file rec =
        run_config d po (launch_values d name data_dir pid_file rec)
          (record (default_config d po) { subcommand = Subcommand.run }) rec.frequency_ms
          rec.command

    launched-parsed :
        (args : List String) (name data_dir pid_file : String) (rec : ServiceRecord D)
        → po.parse make_run_options args ≡ inr (launch_values d name data_dir pid_file rec)
        → parse_args d po ("run" ∷ args) ≡ accept d po (launched_config name data_dir pid_file rec)
    unfolding parse_subcommand parse_run_args run_values require is_option lookup try_parse
    launched-parsed args name data_dir pid_file rec parsed =
        parse_args-known d po "run" args Subcommand.run (ground arith) (ground arith)
        ∙ ap (λ o. try_parse d po o config (λ vm. run_values d po vm config)) parsed
      where
        config : Config D
        config = record (default_config d po) { subcommand = Subcommand.run }

    -- Where the options of the launch are read back as the values that were written, and neither the
    -- name nor the data directory is empty, the launched program keeps the log of the service where
    -- the registry looks for it, below the registry's data directory whatever the environment says,
    -- in files of 10 MiB, with 5 rotated ones.
    pub launched-log :
        (args : List String) (name data_dir pid_file : String) (rec : ServiceRecord D)
        (env : Environment)
        → po.parse make_run_options args ≡ inr (launch_values d name data_dir pid_file rec)
        → name ≢ ""
        → data_dir ≢ ""
        → (manager : LogManager) × (run_log d r env (parse_args d po ("run" ∷ args)).config
            ≡ some manager)
          × (log_file manager.log_dir name ≡ log_path data_dir name)
          × (manager.max_file_size ≡ 10 * 1024 * 1024)
          × (manager.max_files ≡ pos 5)
    unfolding run_log chosen_dir run_config parse_common_options default_config override bytes_of_mb
    launched-log args name data_dir pid_file rec env parsed named placed =
        let output = launched-parsed args name data_dir pid_file rec parsed in
        let manager : LogManager = record {
          log_dir = data_dir // "logs";
          max_file_size = 10485760;
          max_files = pos 5;
        } in
        (manager, rw output (ground arith), refl, refl, refl)
