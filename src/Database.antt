-- ===== src/Database.antt =====
-- src/database.cc and include/database.h: the two SQLite tables and the statements on them.
--
-- A statement is modelled by what its SQL says of the tables, which `PRAGMA foreign_keys=ON` makes
-- one: `service_state.name` refers to `services.name`, and a deletion cascades. `faults` says which
-- of the coming statements SQLite will refuse to prepare or fail to step; the list is consumed from
-- the front, and a statement beyond its end succeeds. `now` is what `datetime('now')` gives.
pub mod Table
pub mod Sorting
pub mod Validity
pub mod Crud
pub mod State
pub mod Failure
pub mod Listing
pub mod Catalog
pub mod Refinement
pub mod Schema
use frequent_cron.Base.{
  zero, String, Bool, true, false, Option, none, some, List, [], ◌∷◌, ◌==◌, string_eq, nat_eq,
  if◌then◌else◌,
}
use frequent_cron.Base.Int.{ℤ, pos}
use mathlib.Core.Option
use frequent_cron.Database.Table.{find, has, without, modify, add}

-- ServiceRecord of include/database.h
pub record ServiceRecord (D : Type 0) : Type 0 where
  pub name : String
  pub command : String
  pub frequency_ms : ℤ
  pub synchronous : Bool
  pub jitter_ms : ℤ
  pub jitter_distribution : String
  pub fire_probability : D
  pub created_at : String
  pub updated_at : String

-- ServiceState of include/database.h
pub record ServiceState : Type 0 where
  pub name : String
  pub status : String
  pub pid : ℤ
  pub last_started_at : String
  pub last_stopped_at : String
  pub execution_count : ℤ

abbrev pub initial_state : ServiceState
initial_state = record {
  name = "";
  status = "";
  pid = pos 0;
  last_started_at = "";
  last_stopped_at = "";
  execution_count = pos 0;
}

-- A row of `services`. The columns are NOT NULL; `synchronous` is an INTEGER.
pub record ServiceRow (D : Type 0) : Type 0 where
  pub name : String
  pub command : String
  pub frequency_ms : ℤ
  pub synchronous : ℤ
  pub jitter_ms : ℤ
  pub jitter_distribution : String
  pub fire_probability : D
  pub created_at : String
  pub updated_at : String

-- A row of `service_state`; `none` is NULL.
pub record StateRow : Type 0 where
  pub name : String
  pub status : String
  pub pid : Option ℤ
  pub last_started_at : Option String
  pub last_stopped_at : Option String
  pub execution_count : ℤ

pub data Fault : Type 0 where
  prepare_error step_error no_fault : Fault

pub record Database (D : Type 0) : Type 0 where
  pub services : List (ServiceRow D)
  pub states : List StateRow
  pub now : String
  pub faults : List Fault

-- bind_int( synchronous ? 1 : 0 ), and column_int != 0
unfoldable pub int_of_bool : Bool → ℤ
int_of_bool b = if b then pos 1 else pos 0

unfoldable pub bool_of_int : ℤ → Bool
bool_of_int (pos zero) = false
bool_of_int _ = true

-- The columns that `INSERT INTO service_state (name)` leaves to their defaults.
abbrev pub default_state : String → StateRow
default_state n = record {
  name = n;
  status = "stopped";
  pid = none;
  last_started_at = none;
  last_stopped_at = none;
  execution_count = pos 0;
}

-- COALESCE(?, column), where an empty text is bound as NULL
unfoldable pub coalesce : String → Option String → Option String
coalesce text column = if text == "" then column else some text

-- A text column that may be NULL, as the program reads it.
unfoldable pub text_or_empty : Option String → String
text_or_empty none = ""
text_or_empty (some s) = s

-- sqlite3_column_int of a column that may be NULL
unfoldable pub int_or_zero : Option ℤ → ℤ
int_or_zero none = pos 0
int_or_zero (some n) = n

-- The SET clause of `update_state`.
unfoldable pub set_state : ServiceState → StateRow → StateRow
unfolding coalesce
set_state st row = record row {
  status = st.status;
  pid = some st.pid;
  last_started_at = coalesce st.last_started_at row.last_started_at;
  last_stopped_at = coalesce st.last_stopped_at row.last_stopped_at;
  execution_count = st.execution_count;
}

unfoldable pub state_of_row : StateRow → ServiceState
unfolding text_or_empty int_or_zero
state_of_row row = record {
  name = row.name;
  status = row.status;
  pid = int_or_zero row.pid;
  last_started_at = text_or_empty row.last_started_at;
  last_stopped_at = text_or_empty row.last_stopped_at;
  execution_count = row.execution_count;
}

abbrev pub state_key : StateRow → String
state_key row = row.name

module _ {D : Type 0} where
  abbrev pub service_key : ServiceRow D → String
  service_key row = row.name

  -- One prepared statement, from the faults that are to come: `failed` is what the method returns
  -- where SQLite refuses it.
  unfoldable pub with_faults {ℓ} :
      {A : Type ℓ} → A → (Database D → A × Database D) → List Fault → Database D → A × Database D
  with_faults failed body [] db = body db
  with_faults failed body (prepare_error ∷ fs) db = (failed, record db { faults = fs })
  with_faults failed body (step_error ∷ fs) db = (failed, record db { faults = fs })
  with_faults failed body (no_fault ∷ fs) db = body (record db { faults = fs })

  unfoldable pub statement {ℓ} :
      {A : Type ℓ} → A → (Database D → A × Database D) → Database D → A × Database D
  unfolding with_faults
  statement failed body db = with_faults failed body db.faults db

  -- The row that the INSERT writes; the times are the columns' defaults.
  unfoldable pub row_of_record : String → ServiceRecord D → ServiceRow D
  unfolding int_of_bool
  row_of_record now rec = record {
    name = rec.name;
    command = rec.command;
    frequency_ms = rec.frequency_ms;
    synchronous = int_of_bool rec.synchronous;
    jitter_ms = rec.jitter_ms;
    jitter_distribution = rec.jitter_distribution;
    fire_probability = rec.fire_probability;
    created_at = now;
    updated_at = now;
  }

  unfoldable pub record_of_row : ServiceRow D → ServiceRecord D
  unfolding bool_of_int
  record_of_row row = record {
    name = row.name;
    command = row.command;
    frequency_ms = row.frequency_ms;
    synchronous = bool_of_int row.synchronous;
    jitter_ms = row.jitter_ms;
    jitter_distribution = row.jitter_distribution;
    fire_probability = row.fire_probability;
    created_at = row.created_at;
    updated_at = row.updated_at;
  }

  -- The second statement of `insert_service`: its failure is ignored, and so is a row that exists.
  unfoldable pub insert_state : String → Database D → Unit {0} × Database D
  insert_state n = statement tt (λ db.
      if has state_key n db.states
      then (tt, db)
      else (tt, record db { states = add state_key (default_state n) db.states }))

  -- The INSERT into `services`: the primary key is the constraint that can fail.
  unfoldable pub insert_row : ServiceRecord D → Database D → Bool × Database D
  insert_row rec db = if has service_key rec.name db.services then (false, db) else (
    true,
    (insert_state rec.name
        (record db { services = add service_key (row_of_record db.now rec) db.services })).1,
  )

  unfoldable pub insert_service : ServiceRecord D → Database D → Bool × Database D
  insert_service rec = statement false (insert_row rec)

  -- DELETE FROM services, with ON DELETE CASCADE; sqlite3_changes counts the rows of `services`.
  unfoldable pub delete_row : String → Database D → Bool × Database D
  delete_row n db =
      if has service_key n db.services
      then (
        true,
        record db {
          services = without service_key n db.services;
          states = without state_key n db.states;
        },
      )
      else (false, db)

  unfoldable pub remove_service : String → Database D → Bool × Database D
  remove_service n = statement false (delete_row n)

  unfoldable pub get_service : String → Database D → Option (ServiceRecord D) × Database D
  get_service n =
      statement none (λ db. (Option.map record_of_row (find service_key n db.services), db))

  -- The SET clause of `update_service`.
  unfoldable pub set_service : String → ServiceRecord D → ServiceRow D → ServiceRow D
  unfolding int_of_bool
  set_service now rec row = record row {
    command = rec.command;
    frequency_ms = rec.frequency_ms;
    synchronous = int_of_bool rec.synchronous;
    jitter_ms = rec.jitter_ms;
    jitter_distribution = rec.jitter_distribution;
    fire_probability = rec.fire_probability;
    updated_at = now;
  }

  unfoldable pub update_row : ServiceRecord D → Database D → Bool × Database D
  update_row rec db =
      if has service_key rec.name db.services
      then (
        true,
        record db { services = modify service_key rec.name (set_service db.now rec) db.services },
      )
      else (false, db)

  unfoldable pub update_service : ServiceRecord D → Database D → Bool × Database D
  update_service rec = statement false (update_row rec)

  -- An UPDATE of no row is done as well: the result does not tell whether the name is there.
  unfoldable pub update_state : String → ServiceState → Database D → Bool × Database D
  update_state n st =
      statement false
        (λ db. (true, record db { states = modify state_key n (set_state st) db.states }))

  unfoldable pub get_state : String → Database D → Option ServiceState × Database D
  get_state n = statement none (λ db. (Option.map state_of_row (find state_key n db.states), db))
