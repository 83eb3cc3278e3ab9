-- ===== src/Main/Units.antt =====
-- What systemd starts, against the record of the service: the options that class SystemdService of
-- src/platform_service.cc writes.
use frequent_cron.Base.{[], ◌≡◌, String, false, List, ◌∷◌, string_eq, nat_eq}
use frequent_cron.Config.{Subcommand, Config, ProgramOptions}
use frequent_cron.Config.Parser.{default_config, run_config}
use frequent_cron.Database.{ServiceRecord}
use frequent_cron.Arguments.Stored.{unit_values}
use frequent_cron.External.{Double, Random}
use frequent_cron.Executor.{Executor, Action, output, make_executor, run}

-- No output was handed on.
abbrev pub NoOutput : List Action → Type 0
NoOutput [] = Unit
NoOutput (output out ∷ t) = ⊥
NoOutput (_ ∷ t) = NoOutput t

module _ {D : Type 0} (d : Double D) (r : Random D) where
  abbrev Silent : Executor D r.State → Type 0
  Silent e = (e.output_callback ≡ false) × NoOutput e.trace

  -- The executor that the record describes, whose output nobody takes.
  abbrev pub uncaptured : ServiceRecord D → r.State → Executor D r.State
  uncaptured rec seed =
      make_executor d r rec.command rec.frequency_ms rec.synchronous rec.jitter_ms
        rec.jitter_distribution rec.fire_probability seed

  module _ (po : ProgramOptions D) where
    abbrev unit_config : String → ServiceRecord D → Config D
    unit_config pid_file rec =
        run_config d po (unit_values d pid_file rec)
          (record (default_config d po) { subcommand = Subcommand.run }) rec.frequency_ms
          rec.command
