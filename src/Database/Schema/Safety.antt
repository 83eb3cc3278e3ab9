-- ===== src/Database/Schema/Safety.antt =====
-- What the constructor promises whatever SQLite answers.
use frequent_cron.Base.{
  ◌≡◌, refl, String, Bool, true, false, Option, none, some, List, [], ◌∷◌, arith, string_eq, nat_eq,
  inl, inr, Option-cases, if_cases,
}
use frequent_cron.External.{Double}
use frequent_cron.Database.Schema.{
  Column, Table, Value, Answer, accepted, refused, Session, Executed, done, error, Opening, ready,
  threw, has_column, added_value, put_table, add_column, extended, extended_table, sqlite3_exec,
  answered, try_add_column, after, checked, then_open, migrate, create_table, exec, ensure_schema,
  services_columns, state_columns, open_database,
}

module _ {D : Type 0} where
  unfoldable pub has_table : String → Session D → Bool
  has_table n s = elim (s.tables n) [ none ↦ false | some t ↦ true ]

  -- What holds of the session of an opening that did not throw.
  abbrev pub OnReady : (Session D → Type 0) → Opening D → Type 0
  OnReady P (ready s) = P s
  OnReady P (threw message) = Unit

  -- What holds of the session that a statement leaves.
  abbrev pub OnDone : (Session D → Type 0) → Executed D → Type 0
  OnDone P (done s) = P s
  OnDone P (error message s) = Unit

  pub then_open-OnReady :
      (P Q : Session D → Type 0) (o : Opening D) (f : Session D → Opening D)
      → OnReady P o
      → ((s : Session D) → P s → OnReady Q (f s))
      → OnReady Q (then_open o f)
  then_open-OnReady P Q (ready s) f h k = k s h
  then_open-OnReady P Q (threw message) f h k = tt

  -- `P` does not look at the answers, and the statement leads from `P` to `Q`.
  pub exec_leads :
      (P Q : Session D → Type 0) (statement : Session D → Executed D) (s : Session D)
      → ((s : Session D) (rest : List Answer) → P s → P (record s { answers = rest }))
      → ((s : Session D) → P s → OnDone Q (statement s))
      → P s
      → OnReady Q (exec statement s)
  unfolding exec sqlite3_exec
  exec_leads P Q statement s stable leads h = go s.answers
    where
      on_checked : (e : Executed D) → OnDone Q e → OnReady Q (checked e)
      on_checked (done s') k = k
      on_checked (error message s') k = tt

      go : (answers : List Answer) → OnReady Q (checked (answered statement s answers))
      go [] = on_checked (statement s) (leads s h)
      go (accepted ∷ rest) = on_checked (statement _) (leads _ (stable s rest h))
      go (refused message ∷ rest) = tt

  -- Foreign keys are enforced.
  abbrev Keyed : Session D → Type 0
  Keyed s = s.foreign_keys ≡ true

  -- The table of services is there too, and that of the states.
  abbrev HasServices : Session D → Type 0
  HasServices s = (s.foreign_keys ≡ true) × (has_table "services" s ≡ true)

  abbrev pub IsOpen : Session D → Type 0
  IsOpen s =
      (s.foreign_keys ≡ true)
      × (has_table "services" s ≡ true)
      × (has_table "service_state" s ≡ true)

  has_table-put_table :
      (n m : String) (t : Table D) (s : Session D)
      → has_table m s ≡ true
      → has_table m (put_table n t s) ≡ true
  unfolding has_table
  has_table-put_table n m t s h = ground arith

  pub has_table_put :
      (n : String) (t : Table D) (s : Session D) → has_table n (put_table n t s) ≡ true
  unfolding has_table
  has_table_put n t s = ground arith

  pub create_table-leads :
      (Q : Session D → Type 0) (n : String) (columns : List (Column D)) (s : Session D)
      → (has_table n s ≡ true → Q s)
      → ((t : Table D) → Q (put_table n t s))
      → OnDone Q (create_table n columns s)
  unfolding has_table create_table
  create_table-leads Q n columns s there made = elim (Option-cases (s.tables n)) [
    | inl none_yet ↦ rw (create_table, none_yet) (made _)
    | inr (t, found) ↦ rw (create_table, found) (there (ground (arith, found)))
  ]

  create_services :
      (columns : List (Column D)) (s : Session D)
      → Keyed s
      → OnDone HasServices (create_table "services" columns s)
  create_services columns s h =
      create_table-leads HasServices "services" columns s (λ there. (h, there))
        (λ t. (h, has_table_put "services" t s))

  create_states :
      (columns : List (Column D)) (s : Session D)
      → HasServices s
      → OnDone IsOpen (create_table "service_state" columns s)
  create_states columns s h =
      create_table-leads IsOpen "service_state" columns s (λ there. (h.0, h.1, there))
        λ t. (
          h.0,
          has_table-put_table "service_state" "services" t s h.1,
          has_table_put "service_state" t s,
        )

  -- An added column leaves the table there; so does one that is refused.
  try_add_column-HasServices :
      (c : Column D) (s : Session D) → HasServices s → HasServices (try_add_column c s)
  unfolding try_add_column sqlite3_exec add_column has_table
  try_add_column-HasServices c s h = go s.answers
    where
      on_value :
          (s : Session D) (t : Table D) (o : Option (Value D))
          → HasServices s
          → HasServices (after (extended "services" c t s o))
      on_value s t none k = k
      on_value s t (some v) k = (k.0, has_table_put "services" _ s)

      on_table :
          (s : Session D) (o : Option (Table D))
          → HasServices s
          → HasServices (after (extended_table "services" c s o))
      on_table s none k = k
      on_table s (some t) k =
          if_cases (λ e. HasServices (after e)) (has_column c.name t.columns) _ _ (λ _. k)
            (λ _. on_value s t (added_value c) k)

      go :
          (answers : List Answer)
          → HasServices (after (answered (add_column "services" c) s answers))
      go [] = on_table s (s.tables "services") h
      go (accepted ∷ rest) = on_table (record s { answers = rest }) (s.tables "services") h
      go (refused message ∷ rest) = h

module _ {D : Type 0} (d : Double D) where
  ensure_schema-IsOpen : (s : Session D) → Keyed s → OnReady IsOpen (ensure_schema d s)
  unfolding ensure_schema migrate has_table
  ensure_schema-IsOpen s h =
      then_open-OnReady HasServices IsOpen _ _
        (exec_leads Keyed HasServices _ s (λ s' rest k. k) (create_services (services_columns d)) h)
        λ s' k.
          exec_leads HasServices IsOpen _ _ (λ s'' rest k'. k') (create_states state_columns)
            (try_add_column-HasServices _ _
              (try_add_column-HasServices _ _ (try_add_column-HasServices _ _ k)))

  -- Whatever the file holds and whatever SQLite answers, the constructor throws, or leaves a
  -- connection that enforces foreign keys, with both tables there.
  pub open_database-IsOpen :
      (failed : Option String) (s : Session D) → OnReady IsOpen (open_database d failed s)
  unfolding open_database
  open_database-IsOpen (some message) s = tt
  open_database-IsOpen none s =
      then_open-OnReady (λ s. Unit) IsOpen _ _
        (exec_leads (λ s. Unit) (λ s. Unit) _ s (λ s' rest k. tt) (λ s' k. tt) tt)
        λ s' k.
          then_open-OnReady Keyed IsOpen _ _
            (exec_leads (λ s. Unit) Keyed _ s' (λ s'' rest k. tt) (λ s'' k. refl) tt)
            λ s'' k. ensure_schema-IsOpen s'' k
