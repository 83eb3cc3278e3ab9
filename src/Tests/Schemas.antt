-- ===== src/Tests/Schemas.antt =====
-- An old database, which knows neither jitter nor probabilities.
use frequent_cron.Base.{
  ℕ, ◌≡◌, refl, String, true, false, none, some, [], ◌∷◌, arith, ◌==◌, string_eq, nat_eq,
  if◌then◌else◌, string_discrete, ℕ_discrete,
}
use frequent_cron.Base.Int.{pos}
use package.text.Mathlib.TextEquality.{eq_iff}
use frequent_cron.Database.Schema.{
  Column, Table, Session, text, integer, no_default, no_key, ready, has_column, state_columns,
  open_database,
}
use frequent_cron.Database.Schema.Rows.{lookup, Fit}
use frequent_cron.Database.Schema.Migration.{Upgraded, defaults}
use frequent_cron.Database.Schema.Reading.{AllStand, AllHold, open_database-Holds}
use frequent_cron.Database.{ServiceRow}
use frequent_cron.Tests.{permille}

abbrev old_column : String → Column ℕ
old_column n = record {
  name = n;
  column_type = "TEXT";
  not_null = true;
  default = no_default;
  key = no_key;
}

abbrev old_table : Table ℕ
old_table = record {
  columns =
      old_column "name"
      ∷ old_column "command"
      ∷ old_column "frequency_ms"
      ∷ old_column "synchronous"
      ∷ old_column "created_at"
      ∷ old_column "updated_at"
      ∷ [];
  rows =
      (("name", text "web")
        ∷ ("command", text "date")
        ∷ ("frequency_ms", integer (pos 1000))
        ∷ ("synchronous", integer (pos 1))
        ∷ ("created_at", text "day 1")
        ∷ ("updated_at", text "day 1")
        ∷ [])
      ∷ [];
}

-- What the row stands for.
abbrev upgraded_row : ServiceRow ℕ
upgraded_row = record {
  name = "web";
  command = "date";
  frequency_ms = pos 1000;
  synchronous = pos 1;
  jitter_ms = pos 0;
  jitter_distribution = "uniform";
  fire_probability = 1000;
  created_at = "day 1";
  updated_at = "day 1";
}

abbrev no_states : Table ℕ
no_states = record { columns = state_columns; rows = [] }

abbrev old_file : Session ℕ
old_file = record {
  tables = λ n.
      if n == "services"
      then some old_table
      else if n == "service_state"
      then some no_states
      else none;
  journal_mode = "delete";
  foreign_keys = false;
  answers = [];
}

old_table-Fit : Fit old_table.columns old_table.rows
unfolding lookup has_column
old_table-Fit = (λ n. ground arith, tt)

services_found : old_file.tables "services" ≡ some old_table
services_found = ground arith

states_found : old_file.tables "service_state" ≡ some no_states
states_found = ground (arith, eq_iff "service_state" "services")

old_table-AllStand : AllStand permille old_table.rows (upgraded_row ∷ [])
unfolding lookup string_discrete ℕ_discrete
old_table-AllStand = (
  record {
    name_cell = refl;
    command_cell = refl;
    frequency_ms_cell = refl;
    synchronous_cell = refl;
    jitter_ms_cell = refl;
    jitter_distribution_cell = refl;
    fire_probability_cell = refl;
    created_at_cell = refl;
    updated_at_cell = refl;
  },
  tt,
)

open_database-Holds_example :
    (s : Session ℕ) × (open_database permille none old_file ≡ ready s)
    × (up : Upgraded (defaults permille) old_table.rows (some no_states) s) × AllHold permille
        up.table.rows
        (upgraded_row ∷ [])
open_database-Holds_example =
    open_database-Holds permille old_file old_table no_states (upgraded_row ∷ []) refl
      services_found states_found old_table-Fit old_table-AllStand
