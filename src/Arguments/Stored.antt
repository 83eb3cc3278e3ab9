-- ===== src/Arguments/Stored.antt =====
-- The values that are stored for the options of a launch and of a unit file.
use frequent_cron.Base.{
  [], ◌≡◌, refl, ap, String, Bool, true, false, none, some, ◌∷◌, ◌++◌, if◌then◌else◌,
}
use frequent_cron.Base.Int.{pos, ltb_ℤ}
use frequent_cron.External.{Double}
use frequent_cron.Config.{VariablesMap}
use frequent_cron.Database.{ServiceRecord}
use frequent_cron.Arguments.{
  frequency_is, jitter_is, command_is, pid_file_is, service_name_is, data_dir_is,
  jitter_distribution_is, not_synchronous, fire_probability_is, optional_arguments,
  launch_arguments, unit_arguments, stored, no_values, values_of,
}

module _ {D : Type 0} (d : Double D) where
  -- An option is left out where the record has a value that is taken to be the default.
  abbrev optional_values : Bool → Bool → Bool → ServiceRecord D → VariablesMap D
  optional_values flag jitters sometimes rec = record no_values {
    synchronous = if flag then none else some "false";
    jitter = if jitters then some rec.jitter_ms else none;
    jitter_distribution = if jitters then some rec.jitter_distribution else none;
    fire_probability = if sometimes then some rec.fire_probability else none;
  }

  abbrev pub launch_values : String → String → String → ServiceRecord D → VariablesMap D
  launch_values name data_dir pid_file rec =
      let vm =
        optional_values rec.synchronous (ltb_ℤ (pos 0) rec.jitter_ms)
          (d.lt rec.fire_probability d.one) rec in
      record vm {
        frequency = some rec.frequency_ms;
        command = some rec.command;
        pid_file = some pid_file;
        service_name = some name;
        data_dir = some data_dir;
      }

  abbrev pub unit_values : String → ServiceRecord D → VariablesMap D
  unit_values pid_file rec = record (launch_values "" "" pid_file rec) {
    data_dir = none;
    service_name = none;
  }

  read_optional :
      (flag jitters sometimes : Bool) (rec : ServiceRecord D)
      → values_of (
          (if flag then [] else not_synchronous ∷ [])
          ++ ((if jitters
                then jitter_is rec.jitter_ms ∷ jitter_distribution_is rec.jitter_distribution ∷ []
                else [])
              ++ (if sometimes then fire_probability_is rec.fire_probability ∷ [] else [])))
        ≡ optional_values flag jitters sometimes rec
  unfolding values_of stored
  read_optional true true true rec = refl
  read_optional true true false rec = refl
  read_optional true false true rec = refl
  read_optional true false false rec = refl
  read_optional false true true rec = refl
  read_optional false true false rec = refl
  read_optional false false true rec = refl
  read_optional false false false rec = refl

  pub values_of-launch_arguments :
      (name data_dir pid_file : String) (rec : ServiceRecord D)
      → values_of (launch_arguments d name data_dir pid_file rec)
        ≡ launch_values name data_dir pid_file rec
  unfolding values_of stored launch_arguments optional_arguments
  values_of-launch_arguments name data_dir pid_file rec =
      ap
        (λ (vm : VariablesMap D). stored (frequency_is rec.frequency_ms) (
          stored (command_is rec.command) (
            stored (pid_file_is pid_file)
              (stored (service_name_is name) (stored (data_dir_is data_dir) vm)))))
        (read_optional rec.synchronous (ltb_ℤ (pos 0) rec.jitter_ms)
          (d.lt rec.fire_probability d.one) rec)

  pub values_of-unit_arguments :
      (pid_file : String) (rec : ServiceRecord D)
      → values_of (unit_arguments d pid_file rec) ≡ unit_values pid_file rec
  unfolding values_of stored unit_arguments optional_arguments
  values_of-unit_arguments pid_file rec =
      ap
        (λ (vm : VariablesMap D).
          stored (frequency_is rec.frequency_ms)
            (stored (command_is rec.command) (stored (pid_file_is pid_file) vm)))
        (read_optional rec.synchronous (ltb_ℤ (pos 0) rec.jitter_ms)
          (d.lt rec.fire_probability d.one) rec)
