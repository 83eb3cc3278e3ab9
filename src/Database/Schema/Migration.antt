-- ===== src/Database/Schema/Migration.antt =====
-- What the migration makes of the rows that are there already.
use frequent_cron.Base.{
  ◌≡◌, refl, String, true, Option, none, some, List, [], ◌∷◌, ◌++◌, arith, string_eq, nat_eq,
  if◌then◌else◌, if_cases,
}
use frequent_cron.Base.Int.{pos}
use frequent_cron.External.{Double}
use package.text.Mathlib.TextEquality.{eq_iff}
use frequent_cron.Database.Schema.{
  Value, integer, text, real, Column, Row, Table, Session, has_column, added_value, extend_rows,
  put_table, add_column, extended, extended_table, sqlite3_exec, try_add_column, jitter_ms_column,
  jitter_distribution_column, fire_probability_column, migrate, ready, Executed, done,
  services_columns, state_columns, create_table, exec, ensure_schema, open_database,
}
use frequent_cron.Database.Schema.Rows.{
  kept, only, Fit, Adds, Adds-trans, already_there, extend_rows-Adds, extend_rows-Fit,
}

module _ {D : Type 0} where
  -- The table `services` of a session, against the rows that it had at first: none was lost, and `f`
  -- says which cells are new.
  pub record Upgraded (f : String → Option (Value D)) (rows : List (Row D))
      (states : Option (Table D)) (s : Session D) : Type 0 where
    pub quiet : s.answers ≡ []
    pub keys : s.foreign_keys ≡ true
    pub state_table : s.tables "service_state" ≡ states
    pub table : Table D
    pub found : s.tables "services" ≡ some table
    pub adds : Adds f rows table.rows
    pub fits : Fit table.columns table.rows

  pub try_add_column-eq :
      (c : Column D) (s : Session D) (v : Value D) (t : Table D)
      → s.answers ≡ []
      → s.tables "services" ≡ some t
      → added_value c ≡ some v
      → try_add_column c s ≡ (
          if has_column c.name t.columns
          then s
          else put_table "services"
              (record { columns = t.columns ++ (c ∷ []); rows = extend_rows c.name v t.rows })
              s)
  unfolding try_add_column sqlite3_exec add_column extended extended_table
  try_add_column-eq c s v t quiet found value = ground (arith, quiet, found, value)

  try_add_column-Upgraded :
      (c : Column D) (v : Value D) (f : String → Option (Value D)) (rows : List (Row D))
      (states : Option (Table D)) (s : Session D)
      → added_value c ≡ some v
      → Upgraded f rows states s
      → Upgraded (λ n. kept (f n) (only c.name v n)) rows states (try_add_column c s)
  try_add_column-Upgraded c v f rows states s value old =
      let t = old.table in
      let longer : Table D = record {
        columns = t.columns ++ (c ∷ []);
        rows = extend_rows c.name v t.rows;
      } in
      rw (try_add_column-eq c s v t old.quiet old.found value) (
        if_cases (Upgraded (λ n. kept (f n) (only c.name v n)) rows states)
          (has_column c.name t.columns) s (put_table "services" longer s)
          (λ there. record {
            quiet = old.quiet;
            keys = old.keys;
            state_table = old.state_table;
            table = t;
            found = old.found;
            adds =
                Adds-trans f (only c.name v) rows t.rows t.rows old.adds
                  (already_there c v t.columns t.rows there old.fits);
            fits = old.fits;
          })
          (λ missing. record {
            quiet = old.quiet;
            keys = old.keys;
            state_table = ground (arith, old.state_table, eq_iff "services" "service_state");
            table = longer;
            found = ground arith;
            adds =
                Adds-trans f (only c.name v) rows t.rows longer.rows old.adds
                  (extend_rows-Adds c.name v t.rows);
            fits = extend_rows-Fit c v t.columns t.rows old.fits;
          }))

  pub exec_quiet :
      (statement : Session D → Executed D) (s s' : Session D)
      → s.answers ≡ []
      → statement s ≡ done s'
      → exec statement s ≡ ready s'
  unfolding exec sqlite3_exec
  exec_quiet statement s s' quiet h = simp (quiet, h) refl

  pub create_table-there :
      (n : String) (columns : List (Column D)) (s : Session D) (t : Table D)
      → s.tables n ≡ some t
      → create_table n columns s ≡ done s
  unfolding create_table
  create_table-there n columns s t there = rw (create_table, there) refl

  -- Nothing is new yet.
  nothing_new : (rows : List (Row D)) → Adds (λ n. none) rows rows
  nothing_new [] = tt
  nothing_new (row ∷ rows) = (λ n. ground arith, nothing_new rows)

module _ {D : Type 0} (d : Double D) where
  -- What an old row is given: the defaults of the three columns.
  abbrev pub defaults : String → Option (Value D)
  defaults n =
      kept
        (kept (only "jitter_ms" (integer (pos 0)) n)
          (only "jitter_distribution" (text "uniform") n))
        (only "fire_probability" (real d.one) n)

  migrate-Upgraded :
      (rows : List (Row D)) (states : Option (Table D)) (s : Session D)
      → Upgraded (λ n. none) rows states s
      → Upgraded defaults rows states (migrate d s)
  unfolding migrate added_value
  migrate-Upgraded rows states s old =
      try_add_column-Upgraded (fire_probability_column d) (real d.one) _ rows states _ refl (
        try_add_column-Upgraded (jitter_distribution_column d) (text "uniform") _ rows states _ refl
          (try_add_column-Upgraded (jitter_ms_column d) (integer (pos 0)) _ rows states s refl old))

  -- Where SQLite refuses no statement, the constructor opens a file that has services, with foreign
  -- keys enforced: no row of `services` is lost, and each has the cells that it had, and the defaults
  -- of the columns for jitter, its distribution and the probability where it had none. A table of
  -- states that was there stays as it was.
  pub open_database-Upgraded :
      (s : Session D) (t : Table D) (states : Table D)
      → s.answers ≡ []
      → s.tables "services" ≡ some t
      → s.tables "service_state" ≡ some states
      → Fit t.columns t.rows
      → (s' : Session D) × (open_database d none s ≡ ready s')
        × Upgraded defaults t.rows (some states) s'
  unfolding open_database ensure_schema
  open_database-Upgraded s t states quiet found kept_states fit =
      let opened : Session D = record s { journal_mode = "WAL"; foreign_keys = true } in
      let up = migrate-Upgraded t.rows (some states) opened (record {
        quiet = quiet;
        keys = refl;
        state_table = kept_states;
        table = t;
        found = found;
        adds = nothing_new t.rows;
        fits = fit;
      }) in
      let journal =
        exec_quiet (λ s. done (record s { journal_mode = "WAL" })) s
          (record s { journal_mode = "WAL" }) quiet refl in
      let keys =
        exec_quiet (λ s. done (record s { foreign_keys = true }))
          (record s { journal_mode = "WAL" }) opened quiet refl in
      let services =
        exec_quiet (create_table "services" (services_columns d)) opened opened quiet
          (create_table-there "services" (services_columns d) opened t found) in
      let made =
        exec_quiet (create_table "service_state" state_columns) (migrate d opened)
          (migrate d opened) up.quiet
          (create_table-there "service_state" state_columns (migrate d opened) states
            up.state_table) in
      (migrate d opened, rw (journal, keys, services) made, up)
