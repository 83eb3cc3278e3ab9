-- ===== src/Database/State.antt =====
-- What `update_state` and `update_service` write, where SQLite refuses no statement.
use frequent_cron.Base.{
  ◌≡◌, refl, String, true, false, Option, none, some, [], arith, ◌==◌, string_eq, nat_eq,
  if◌then◌else◌,
}
use mathlib.Core.Option
use frequent_cron.Database.Table.{find, modify, find-modify}
use frequent_cron.Database.{
  ServiceState, StateRow, Database, set_state, state_of_row, state_key, update_state,
}
use frequent_cron.Database.{coalesce, text_or_empty}
use frequent_cron.Database.Crud.{statement_ok, state_at}

-- What an update makes of a state: a time that is empty in `st` keeps the value it had.
abbrev pub merged : ServiceState → ServiceState → ServiceState
merged st old = record st {
  name = old.name;
  last_started_at = if st.last_started_at == "" then old.last_started_at else st.last_started_at;
  last_stopped_at = if st.last_stopped_at == "" then old.last_stopped_at else st.last_stopped_at;
}

text_or_empty-coalesce :
    (text : String) (column : Option String)
    → text_or_empty (coalesce text column) ≡ (if text == "" then text_or_empty column else text)
unfolding text_or_empty coalesce
text_or_empty-coalesce text column = ground arith

state_of_row-set_state :
    (st : ServiceState) (row : StateRow)
    → state_of_row (set_state st row) ≡ merged st (state_of_row row)
unfolding state_of_row set_state
state_of_row-set_state st row = cc (
  text_or_empty-coalesce st.last_started_at row.last_started_at,
  text_or_empty-coalesce st.last_stopped_at row.last_stopped_at,
)

pub name-set_state : (st : ServiceState) (row : StateRow) → (set_state st row).name ≡ row.name
unfolding set_state
name-set_state st row = refl

module _ {D : Type 0} where
  pub update_state-eq :
      (n : String) (st : ServiceState) (db : Database D)
      → db.faults ≡ []
      → update_state n st db
        ≡ (true, record db { states = modify state_key n (set_state st) db.states })
  unfolding update_state
  update_state-eq n st db clear = statement_ok false _ db clear

  -- Where SQLite refuses nothing, `update_state` reports success for every name. It changes the
  -- state of that name alone, if it has one: status, pid and count are replaced, and a time is,
  -- unless it is given empty. Where the name has no state, nothing is written.
  pub update_state-at :
      (n : String) (st : ServiceState) (db : Database D) (m : String)
      → db.faults ≡ []
      → ((update_state n st db).0 ≡ true)
        × ((update_state n st db).1.services ≡ db.services)
        × (state_at m (update_state n st db).1
            ≡ (if n == m then Option.map (merged st) (state_at m db) else state_at m db))
  update_state-at n st db m clear = rw (update_state-eq n st db clear) (refl, refl, at m)
    where
      at :
          (m : String)
          → Option.map state_of_row (find state_key m (modify state_key n (set_state st) db.states))
            ≡ (if n == m then Option.map (merged st) (state_at m db) else state_at m db)
      at m =
          rw (find-modify state_key (set_state st) (name-set_state st))
            (by_row (find state_key m db.states))
        where
          by_row :
              (o : Option StateRow)
              → Option.map state_of_row
                  (if n == m then elim o [ some r ↦ some (set_state st r) | none ↦ none ] else o)
                ≡ (if n == m
                    then Option.map (merged st) (Option.map state_of_row o)
                    else Option.map state_of_row o)
          by_row none = ground arith
          by_row (some row) = ground (arith, state_of_row-set_state st row)
