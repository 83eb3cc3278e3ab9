-- ===== src/Registry/Install.antt =====
-- `cmd_install`.
pub mod Outcome
pub mod Units
use frequent_cron.Base.{ℕ, String, ◌<>◌, Bool, true, false, if◌then◌else◌}
use frequent_cron.Base.Int.{pos, ltb_ℤ}
use frequent_cron.Base.Decimal.{to_string}
use frequent_cron.Config.{Config}
use frequent_cron.Database.{ServiceRecord, get_service, insert_service}
use frequent_cron.Registry.World.{
  ◌>>=◌, ◌>>◌, Context, Action, pure, say, complain, on_db, on_platform, on_option,
}
use frequent_cron.Registry.Status.{get_binary_path}

-- The record that a configuration asks for; the times are left to the database.
unfoldable pub record_of_config : {D : Type 0} → Config D → ServiceRecord D
record_of_config config = record {
  name = config.service_name;
  command = config.command;
  frequency_ms = config.frequency;
  synchronous = config.synchronous;
  jitter_ms = config.jitter_ms;
  jitter_distribution = config.jitter_distribution;
  fire_probability = config.fire_probability;
  created_at = "";
  updated_at = "";
}

abbrev pub true_or_false : Bool → String
true_or_false b = if b then "true" else "false"

module _ {D : Type 0} (c : Context D) where
  unfoldable pub report_jitter : Config D → Action c (Unit {0})
  report_jitter config =
      if ltb_ℤ (pos 0) config.jitter_ms
      then say c (
          "  jitter:      +-"
          <> to_string config.jitter_ms
          <> "ms ("
          <> config.jitter_distribution
          <> ")\n")
      else pure c tt

  -- What is printed once the service is installed.
  unfoldable pub report_install : Config D → Action c (Unit {0})
  report_install config = do
    say c ("Service '" <> config.service_name <> "' installed.\n")
    say c ("  command:     " <> config.command <> "\n")
    say c ("  frequency:   " <> to_string config.frequency <> "ms\n")
    say c ("  synchronous: " <> true_or_false config.synchronous <> "\n")
    report_jitter config
    if c.double.lt config.fire_probability c.double.one
        then say c ("  probability: " <> c.double.print config.fire_probability <> "\n")
        else pure c tt

  unfoldable pub install_record : Config D → Action c ℕ
  install_record config = do
    inserted ← on_db c (insert_service (record_of_config config))
    if inserted
        then (do
          bin_path ← get_binary_path c
          on_platform c
              (λ p. p.install config.service_name (record_of_config config) bin_path c.data_dir)
          report_install config
          pure c 0)
        else (do
          complain c ("Failed to install service '" <> config.service_name <> "'.\n")
          pure c 1)

  unfoldable pub cmd_install : Config D → Action c ℕ
  cmd_install config = do
    existing ← on_db c (get_service config.service_name)
    on_option c existing (install_record config) λ rec. do
      complain c ("Service '" <> config.service_name <> "' already exists. Use 'remove' first.\n")
      pure c 1
