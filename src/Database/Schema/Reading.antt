-- ===== src/Database/Schema/Reading.antt =====
-- The rows of the file as the rows that the methods of class Database work on.
use frequent_cron.Base.{
  ◌≡◌, ap, ◌∙◌, String, none, some, List, [], ◌∷◌, string_eq, nat_eq, string_discrete,
}
use frequent_cron.Base.Int.{pos}
use frequent_cron.External.{Double}
use frequent_cron.Database.{ServiceRow}
use frequent_cron.Database.Schema.{integer, text, real, Row, Table, Session, ready, open_database}
use frequent_cron.Database.Schema.Rows.{lookup, kept, Fit, Adds}
use frequent_cron.Database.Schema.Migration.{Upgraded, defaults, open_database-Upgraded}

module _ {D : Type 0} (d : Double D) where
  -- The cells of a row are the fields of `r`.
  pub record Holds (row : Row D) (r : ServiceRow D) : Type 0 where
    pub name_cell : lookup "name" row ≡ some (text r.name)
    pub command_cell : lookup "command" row ≡ some (text r.command)
    pub frequency_ms_cell : lookup "frequency_ms" row ≡ some (integer r.frequency_ms)
    pub synchronous_cell : lookup "synchronous" row ≡ some (integer r.synchronous)
    pub jitter_ms_cell : lookup "jitter_ms" row ≡ some (integer r.jitter_ms)
    pub jitter_distribution_cell :
        lookup "jitter_distribution" row ≡ some (text r.jitter_distribution)
    pub fire_probability_cell : lookup "fire_probability" row ≡ some (real r.fire_probability)
    pub created_at_cell : lookup "created_at" row ≡ some (text r.created_at)
    pub updated_at_cell : lookup "updated_at" row ≡ some (text r.updated_at)

  -- So they are, but that the cells of the three newer columns may be missing, where `r` has the
  -- defaults.
  pub record Stands (row : Row D) (r : ServiceRow D) : Type 0 where
    pub name_cell : lookup "name" row ≡ some (text r.name)
    pub command_cell : lookup "command" row ≡ some (text r.command)
    pub frequency_ms_cell : lookup "frequency_ms" row ≡ some (integer r.frequency_ms)
    pub synchronous_cell : lookup "synchronous" row ≡ some (integer r.synchronous)
    pub jitter_ms_cell :
        kept (lookup "jitter_ms" row) (some (integer (pos 0))) ≡ some (integer r.jitter_ms)
    pub jitter_distribution_cell :
        kept (lookup "jitter_distribution" row) (some (text "uniform"))
        ≡ some (text r.jitter_distribution)
    pub fire_probability_cell :
        kept (lookup "fire_probability" row) (some (real d.one)) ≡ some (real r.fire_probability)
    pub created_at_cell : lookup "created_at" row ≡ some (text r.created_at)
    pub updated_at_cell : lookup "updated_at" row ≡ some (text r.updated_at)

  abbrev pub AllHold : List (Row D) → List (ServiceRow D) → Type 0
  AllHold [] [] = Unit
  AllHold [] (r ∷ rs) = ⊥
  AllHold (row ∷ rows) [] = ⊥
  AllHold (row ∷ rows) (r ∷ rs) = Holds row r × AllHold rows rs

  abbrev pub AllStand : List (Row D) → List (ServiceRow D) → Type 0
  AllStand [] [] = Unit
  AllStand [] (r ∷ rs) = ⊥
  AllStand (row ∷ rows) [] = ⊥
  AllStand (row ∷ rows) (r ∷ rs) = Stands row r × AllStand rows rs

  upgraded-Holds :
      (row row' : Row D) (r : ServiceRow D)
      → ((n : String) → lookup n row' ≡ kept (lookup n row) (defaults d n))
      → Stands row r
      → Holds row' r
  unfolding string_discrete
  upgraded-Holds row row' r added h = record {
    name_cell = added "name" ∙ ap (λ v. kept v (defaults d "name")) h.name_cell;
    command_cell = added "command" ∙ ap (λ v. kept v (defaults d "command")) h.command_cell;
    frequency_ms_cell =
        added "frequency_ms" ∙ ap (λ v. kept v (defaults d "frequency_ms")) h.frequency_ms_cell;
    synchronous_cell =
        added "synchronous" ∙ ap (λ v. kept v (defaults d "synchronous")) h.synchronous_cell;
    created_at_cell =
        added "created_at" ∙ ap (λ v. kept v (defaults d "created_at")) h.created_at_cell;
    updated_at_cell =
        added "updated_at" ∙ ap (λ v. kept v (defaults d "updated_at")) h.updated_at_cell;
    jitter_ms_cell = added "jitter_ms" ∙ h.jitter_ms_cell;
    jitter_distribution_cell = added "jitter_distribution" ∙ h.jitter_distribution_cell;
    fire_probability_cell = added "fire_probability" ∙ h.fire_probability_cell;
  }

  upgraded-AllHold :
      (rows rows' : List (Row D)) (rs : List (ServiceRow D))
      → Adds (defaults d) rows rows'
      → AllStand rows rs
      → AllHold rows' rs
  upgraded-AllHold [] [] [] added h = tt
  upgraded-AllHold (row ∷ rows) (row' ∷ rows') (r ∷ rs) added h =
      (upgraded-Holds row row' r added.0 h.0, upgraded-AllHold rows rows' rs added.1 h.1)
  upgraded-AllHold [] [] (r ∷ rs) added h = absurd h
  upgraded-AllHold [] (row' ∷ rows') rs added h = absurd added
  upgraded-AllHold (row ∷ rows) [] rs added h = absurd added
  upgraded-AllHold (row ∷ rows) (row' ∷ rows') [] added h = absurd h

  -- Where SQLite refuses no statement, the constructor opens a file that has services, whether or not
  -- it knows jitter, its distribution and the probability: no row is lost, and each is afterwards the
  -- row that the methods work on, with the cells that it had, and the defaults where it had none.
  -- Foreign keys are enforced, and a table of states that was there stays as it was.
  pub open_database-Holds :
      (s : Session D) (t states : Table D) (rs : List (ServiceRow D))
      → s.answers ≡ []
      → s.tables "services" ≡ some t
      → s.tables "service_state" ≡ some states
      → Fit t.columns t.rows
      → AllStand t.rows rs
      → (s' : Session D) × (open_database d none s ≡ ready s')
        × (up : Upgraded (defaults d) t.rows (some states) s') × AllHold up.table.rows rs
  open_database-Holds s t states rs quiet found kept_states fit h =
      let (s', opened, up) = open_database-Upgraded d s t states quiet found kept_states fit in
      (s', opened, up, upgraded-AllHold t.rows up.table.rows rs up.adds h)
