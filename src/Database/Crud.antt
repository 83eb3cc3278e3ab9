-- ===== src/Database/Crud.antt =====
-- What the methods return, and what they write, where SQLite refuses no statement.
use frequent_cron.Base.{
  ◌≡◌, refl, ap, ◌∙◌, String, Bool, true, false, Option, none, some, [], arith, ◌==◌, string_eq,
  nat_eq, if◌then◌else◌,
}
use frequent_cron.Base.Int.{pos}
use mathlib.Core.Option
use frequent_cron.Database.Table.{
  find, has, none_of_has, has_of_none, has-add, without, add, find-add, find-without, without-add,
}
use frequent_cron.Database.{
  ServiceRecord, ServiceState, Database, default_state, state_of_row, record_of_row, row_of_record,
  state_key, service_key, with_faults, statement, insert_state, insert_row, insert_service,
  delete_row, remove_service, get_service, get_state,
}
use frequent_cron.Database.Validity.{IsValid}

-- The state that a service has when it is installed.
abbrev pub new_state : String → ServiceState
new_state n = record {
  name = n;
  status = "stopped";
  pid = pos 0;
  last_started_at = "";
  last_stopped_at = "";
  execution_count = pos 0;
}

module _ {D : Type 0} where
  -- With no fault to come a statement is its body.
  pub statement_ok {ℓ} :
      {A : Type ℓ} (failed : A) (body : Database D → A × Database D) (db : Database D)
      → db.faults ≡ []
      → statement failed body db ≡ body db
  unfolding statement with_faults
  statement_ok failed body db h = rw h

  -- What `get_service` and `get_state` return with no fault to come.
  abbrev pub service_at : String → Database D → Option (ServiceRecord D)
  service_at n db = Option.map record_of_row (find service_key n db.services)

  abbrev pub state_at : String → Database D → Option ServiceState
  state_at n db = Option.map state_of_row (find state_key n db.states)

  abbrev pub stamped : String → ServiceRecord D → ServiceRecord D
  stamped now rec = record rec { created_at = now; updated_at = now }

  record_of_row-row_of_record :
      (now : String) (rec : ServiceRecord D)
      → record_of_row (row_of_record now rec) ≡ stamped now rec
  unfolding record_of_row row_of_record
  record_of_row-row_of_record now rec = by_flag rec.synchronous
    where
      by_flag :
          (b : Bool)
          → record_of_row (row_of_record now (record rec { synchronous = b }))
            ≡ stamped now (record rec { synchronous = b })
      by_flag true = refl
      by_flag false = refl

  abbrev inserted : ServiceRecord D → Database D → Database D
  inserted rec db = record db {
    services = add service_key (row_of_record db.now rec) db.services;
    states = add state_key (default_state rec.name) db.states;
  }

  insert_state-eq :
      (n : String) (db : Database D)
      → db.faults ≡ []
      → has state_key n db.states ≡ false
      → insert_state n db ≡ (tt, record db { states = add state_key (default_state n) db.states })
  unfolding insert_state
  insert_state-eq n db clear absent = statement_ok tt _ db clear ∙ simp absent

  pub insert_service-eq :
      (rec : ServiceRecord D) (db : Database D)
      → db.faults ≡ []
      → has service_key rec.name db.services ≡ false
      → has state_key rec.name db.states ≡ false
      → insert_service rec db ≡ (true, inserted rec db)
  unfolding insert_service insert_row
  insert_service-eq rec db clear absent stateless =
      statement_ok false (insert_row rec) db clear
      ∙ simp absent (
          ap (λ (x : Unit {0} × Database D). (true, x.1))
            (insert_state-eq rec.name _ clear stateless))

  pub insert_service_taken :
      (rec : ServiceRecord D) (db : Database D)
      → db.faults ≡ []
      → has service_key rec.name db.services ≡ true
      → insert_service rec db ≡ (false, db)
  unfolding insert_service insert_row
  insert_service_taken rec db clear taken =
      statement_ok false (insert_row rec) db clear ∙ simp taken

  pub stateless :
      (n : String) (db : Database D)
      → IsValid db
      → has service_key n db.services ≡ false
      → has state_key n db.states ≡ false
  stateless n db v absent =
      has_of_none state_key n db.states
        (v.foreign_key n (none_of_has service_key n db.services absent))

  -- Where SQLite refuses nothing, and from consistent tables, inserting a record under a new name
  -- succeeds, and afterwards that name has the record, with the time of the insertion twice, and a
  -- stopped state; every other name has what it had.
  pub insert_service-at :
      (rec : ServiceRecord D) (db : Database D) (m : String)
      → db.faults ≡ []
      → IsValid db
      → has service_key rec.name db.services ≡ false
      → ((insert_service rec db).0 ≡ true)
        × (service_at m (insert_service rec db).1
            ≡ (if rec.name == m then some (stamped db.now rec) else service_at m db))
        × (state_at m (insert_service rec db).1
            ≡ (if rec.name == m then some (new_state m) else state_at m db))
  unfolding row_of_record state_of_row
  insert_service-at rec db m clear v absent =
      let none_yet = none_of_has service_key rec.name db.services absent in
      rw (insert_service-eq rec db clear absent (stateless rec.name db v absent)) (
        refl,
        ground (
          arith,
          find-add service_key m (row_of_record db.now rec) db.services,
          record_of_row-row_of_record db.now rec,
          none_yet,
        ),
        ground (
          arith,
          find-add state_key m (default_state rec.name) db.states,
          v.foreign_key rec.name none_yet,
        ),
      )

  pub remove_service-eq :
      (n : String) (db : Database D)
      → db.faults ≡ []
      → has service_key n db.services ≡ true
      → remove_service n db ≡ (
        true,
        record db {
          services = without service_key n db.services;
          states = without state_key n db.states;
        },
      )
  unfolding remove_service delete_row
  remove_service-eq n db clear there = statement_ok false (delete_row n) db clear ∙ simp there

  pub remove_service_absent :
      (n : String) (db : Database D)
      → db.faults ≡ []
      → has service_key n db.services ≡ false
      → remove_service n db ≡ (false, db)
  unfolding remove_service delete_row
  remove_service_absent n db clear absent = statement_ok false (delete_row n) db clear ∙ simp absent

  without_row :
      (rec : ServiceRecord D) (db : Database D)
      → find service_key rec.name db.services ≡ none
      → without service_key rec.name (add service_key (row_of_record db.now rec) db.services)
        ≡ db.services
  unfolding row_of_record
  without_row rec db h = without-add service_key (row_of_record db.now rec) db.services h

  -- Where SQLite refuses nothing, and from consistent tables, removing a new name right after
  -- inserting it gives back the tables as they were, and reports the removal.
  pub remove_service-insert_service :
      (rec : ServiceRecord D) (db : Database D)
      → db.faults ≡ []
      → IsValid db
      → has service_key rec.name db.services ≡ false
      → remove_service rec.name (insert_service rec db).1 ≡ (true, db)
  remove_service-insert_service rec db clear v absent =
      let none_yet = none_of_has service_key rec.name db.services absent in
      rw (insert_service-eq rec db clear absent (stateless rec.name db v absent)) (
        remove_service-eq rec.name (inserted rec db) clear
          (unfold row_of_record in rw has-add (ground arith))
        ∙ cc (
          without_row rec db none_yet,
          without-add state_key (default_state rec.name) db.states
              (v.foreign_key rec.name none_yet),
        ))

  -- Where SQLite refuses nothing, removing a registered name succeeds, and afterwards it has
  -- neither a record nor a state; every other name has what it had.
  pub remove_service-at :
      (n : String) (db : Database D) (m : String)
      → db.faults ≡ []
      → has service_key n db.services ≡ true
      → ((remove_service n db).0 ≡ true)
        × (service_at m (remove_service n db).1 ≡ (if n == m then none else service_at m db))
        × (state_at m (remove_service n db).1 ≡ (if n == m then none else state_at m db))
  remove_service-at n db m clear there = rw (remove_service-eq n db clear there) (
    refl,
    ground (arith, find-without service_key n m db.services),
    ground (arith, find-without state_key n m db.states),
  )

  pub get_service-eq :
      (n : String) (db : Database D) → db.faults ≡ [] → get_service n db ≡ (service_at n db, db)
  unfolding get_service
  get_service-eq n db clear = statement_ok none _ db clear

  pub get_state-eq :
      (n : String) (db : Database D) → db.faults ≡ [] → get_state n db ≡ (state_at n db, db)
  unfolding get_state
  get_state-eq n db clear = statement_ok none _ db clear
