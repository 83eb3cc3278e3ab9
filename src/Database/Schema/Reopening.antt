-- ===== src/Database/Schema/Reopening.antt =====
-- What a second run of the constructor does to the tables that a first one has left.
use frequent_cron.Base.{
  ◌≡◌, String, Bool, true, false, Option, none, some, List, [], string_eq, nat_eq,
}
use frequent_cron.External.{Double}
use frequent_cron.Database.Schema.{Column, Table, Session, has_column}
use frequent_cron.Database.Schema.Safety.{has_table}

module _ {D : Type 0} where
  -- Whether the table of services is there, with a column of that name.
  unfoldable has_field : String → (String → Option (Table D)) → Bool
  has_field n tables = elim (tables "services") [ none ↦ false | some t ↦ has_column n t.columns ]

  -- A session without a refusal to come, whose table of services has all columns of `old`, and one of
  -- the name `c`.
  record Grown (old : List (Column D)) (c : String) (s : Session D) : Type 0 where
    quiet : s.answers ≡ []
    table : Table D
    found : s.tables "services" ≡ some table
    added : has_column c table.columns ≡ true
    keeps : (n : String) → has_column n old ≡ true → has_column n table.columns ≡ true

  -- Nothing is left to make: both tables are there, and the three columns.
  abbrev IsCurrent : (String → Option (Table D)) → Type 0
  IsCurrent tables =
      (services : Table D) × (tables "services" ≡ some services)
      × (has_column "jitter_ms" services.columns ≡ true)
      × (has_column "jitter_distribution" services.columns ≡ true)
      × (has_column "fire_probability" services.columns ≡ true)

  abbrev HasServices : Session D → Type 0
  HasServices s = (s.answers ≡ []) × (t : Table D) × (s.tables "services" ≡ some t)

module _ {D : Type 0} (d : Double D) where
  -- What the first run leaves.
  abbrev IsMade : Session D → Type 0
  IsMade s = (IsCurrent s.tables) × (has_table "service_state" s ≡ true)

  -- The session has the tables `tables`.
  abbrev Has : (String → Option (Table D)) → Session D → Type 0
  Has tables s = s.tables ≡ tables
