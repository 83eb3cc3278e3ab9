-- ===== src/Database/Schema.antt =====
-- The constructor of class Database and `ensure_schema`: the tables that the program makes in a new
-- file, and the columns that it adds to the tables of an old one.
--
-- A file is its tables; a row is a list of cells, each under the name of its column. `answers` says
-- which of the coming statements SQLite refuses; a statement beyond its end is accepted.
pub mod Rows
pub mod Migration
pub mod Safety
pub mod Reading
pub mod Reopening
use frequent_cron.Base.{
  String, ◌<>◌, Bool, true, false, ◌||◌, Option, none, some, List, [], ◌∷◌, ◌++◌, ◌==◌, string_eq,
  nat_eq, if◌then◌else◌,
}
use frequent_cron.Base.Int.{ℤ, pos}
use frequent_cron.External.{Double}

pub data Value (D : Type 0) : Type 0 where
  null : Value D
  integer : ℤ → Value D
  text : String → Value D
  real : D → Value D

-- DEFAULT, with a constant or with (datetime('now'))
pub data Default (D : Type 0) : Type 0 where
  no_default current_time : Default D
  constant : Value D → Default D

-- PRIMARY KEY, and PRIMARY KEY REFERENCES table(name) ON DELETE CASCADE
pub data Key : Type 0 where
  no_key primary_key : Key
  primary_key_references : String → Key

pub record Column (D : Type 0) : Type 0 where
  pub name : String
  pub column_type : String
  pub not_null : Bool
  pub default : Default D
  pub key : Key

abbrev pub Row : Type 0 → Type 0
Row D = List (String × Value D)

pub record Table (D : Type 0) : Type 0 where
  pub columns : List (Column D)
  pub rows : List (Row D)

pub data Answer : Type 0 where
  accepted : Answer
  -- with the message that sqlite3_exec gives, if it gives one
  refused : Option String → Answer

pub record Session (D : Type 0) : Type 0 where
  pub tables : String → Option (Table D)
  pub journal_mode : String
  pub foreign_keys : Bool
  pub answers : List Answer

-- What a statement comes to: the session after it, or an error's message beside it.
pub data Executed (D : Type 0) : Type 0 where
  done : Session D → Executed D
  error : Option String → Session D → Executed D

-- What the constructor comes to: a session, or the text of a std::runtime_error.
pub data Opening (D : Type 0) : Type 0 where
  ready : Session D → Opening D
  threw : String → Opening D

-- err ? err : "unknown"
abbrev message_text : Option String → String
message_text none = "unknown"
message_text (some err) = err

module _ {D : Type 0} where
  unfoldable pub has_column : String → List (Column D) → Bool
  has_column n [] = false
  has_column n (c ∷ cs) = c.name == n || has_column n cs

  -- What a row that is there already has in a new column. SQLite refuses a time as the default of
  -- such a column, and NOT NULL without a default.
  unfoldable pub added_value : Column D → Option (Value D)
  added_value c = elim c.default [
    | no_default ↦ if c.not_null then none else some null
    | current_time ↦ none
    | constant v ↦ some v
  ]

  unfoldable pub extend_rows : String → Value D → List (Row D) → List (Row D)
  extend_rows n v [] = []
  extend_rows n v (row ∷ rows) = (row ++ ((n, v) ∷ [])) ∷ extend_rows n v rows

  abbrev pub put_table : String → Table D → Session D → Session D
  put_table n t s = record s { tables = λ m. if n == m then some t else s.tables m }

  extended : String → Column D → Table D → Session D → Option (Value D) → Executed D
  extended n c t s none = error (some "Cannot add a column") s
  extended n c t s (some v) = done (
      put_table n (record { columns = t.columns ++ (c ∷ []); rows = extend_rows c.name v t.rows })
        s)

  extended_table : String → Column D → Session D → Option (Table D) → Executed D
  extended_table n c s none = error (some ("no such table: " <> n)) s
  extended_table n c s (some t) =
      if has_column c.name t.columns
      then error (some ("duplicate column name: " <> c.name)) s
      else extended n c t s (added_value c)

  -- ALTER TABLE n ADD COLUMN c
  unfoldable pub add_column : String → Column D → Session D → Executed D
  unfolding extended extended_table
  add_column n c s = extended_table n c s (s.tables n)

  -- CREATE TABLE IF NOT EXISTS n ( columns )
  unfoldable pub create_table : String → List (Column D) → Session D → Executed D
  create_table n columns s = elim (s.tables n) [
    | none ↦ done (put_table n (record { columns = columns; rows = [] }) s)
    | some t ↦ done s
  ]

  -- sqlite3_exec
  abbrev answered : (Session D → Executed D) → Session D → List Answer → Executed D
  answered statement s [] = statement s
  answered statement s (accepted ∷ rest) = statement (record s { answers = rest })
  answered statement s (refused message ∷ rest) = error message (record s { answers = rest })

  unfoldable pub sqlite3_exec : (Session D → Executed D) → Session D → Executed D
  sqlite3_exec statement s = answered statement s s.answers

  -- Database::exec
  abbrev checked : Executed D → Opening D
  checked (done s) = ready s
  checked (error message s) = threw ("SQL error: " <> message_text message)

  unfoldable pub exec : (Session D → Executed D) → Session D → Opening D
  exec statement s = checked (sqlite3_exec statement s)

  -- try_add_column, which drops an error
  abbrev after : Executed D → Session D
  after (done s) = s
  after (error message s) = s

  unfoldable pub try_add_column : Column D → Session D → Session D
  try_add_column c s = after (sqlite3_exec (add_column "services" c) s)

  abbrev then_open : Opening D → (Session D → Opening D) → Opening D
  then_open (ready s) f = f s
  then_open (threw message) f = threw message

  abbrev column : String → String → Bool → Default D → Column D
  column n column_type not_null default = record {
    name = n;
    column_type = column_type;
    not_null = not_null;
    default = default;
    key = no_key;
  }

  abbrev key_column : String → String → Key → Column D
  key_column n column_type key = record {
    name = n;
    column_type = column_type;
    not_null = false;
    default = no_default;
    key = key;
  }

  -- The columns of `service_state`.
  unfoldable pub state_columns : List (Column D)
  state_columns =
      key_column "name" "TEXT" (primary_key_references "services")
      ∷ column "status" "TEXT" true (constant (text "stopped"))
      ∷ column "pid" "INTEGER" false no_default
      ∷ column "last_started_at" "TEXT" false no_default
      ∷ column "last_stopped_at" "TEXT" false no_default
      ∷ column "execution_count" "INTEGER" true (constant (integer (pos 0)))
      ∷ []

  module _ (d : Double D) where
    -- The columns that old databases lack.
    abbrev pub jitter_ms_column : Column D
    jitter_ms_column = column "jitter_ms" "INTEGER" true (constant (integer (pos 0)))

    abbrev pub jitter_distribution_column : Column D
    jitter_distribution_column =
        column "jitter_distribution" "TEXT" true (constant (text "uniform"))

    abbrev pub fire_probability_column : Column D
    fire_probability_column = column "fire_probability" "REAL" true (constant (real d.one))

    -- The columns of `services`.
    unfoldable pub services_columns : List (Column D)
    services_columns =
        key_column "name" "TEXT" primary_key
        ∷ column "command" "TEXT" true no_default
        ∷ column "frequency_ms" "INTEGER" true no_default
        ∷ column "synchronous" "INTEGER" true (constant (integer (pos 1)))
        ∷ jitter_ms_column
        ∷ jitter_distribution_column
        ∷ fire_probability_column
        ∷ column "created_at" "TEXT" true current_time
        ∷ column "updated_at" "TEXT" true current_time
        ∷ []

    unfoldable pub migrate : Session D → Session D
    migrate s =
        try_add_column fire_probability_column
          (try_add_column jitter_distribution_column (try_add_column jitter_ms_column s))

    unfoldable pub ensure_schema : Session D → Opening D
    ensure_schema s =
        then_open (exec (create_table "services" services_columns) s)
          λ s'. exec (create_table "service_state" state_columns) (migrate s')

    -- The constructor, with the message of a sqlite3_open that failed.
    unfoldable pub open_database : Option String → Session D → Opening D
    open_database (some message) s = threw ("Failed to open database: " <> message)
    open_database none s = then_open (exec (λ s. done (record s { journal_mode = "WAL" })) s) λ s'.
        then_open (exec (λ s. done (record s { foreign_keys = true })) s') λ s''. ensure_schema s''
