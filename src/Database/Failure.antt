-- ===== src/Database/Failure.antt =====
-- What the methods do where SQLite refuses a statement.
use frequent_cron.Base.{
  ◌≡◌, ◌≢◌, refl, ap, ◌∙◌, String, true, false, none, List, [], ◌∷◌, arith, string_eq, nat_eq,
}
use frequent_cron.Database.Table.{has, none_of_has, has-add, add}
use frequent_cron.Database.{
  ServiceRecord, ServiceState, Fault, prepare_error, step_error, no_fault, Database, row_of_record,
  service_key, with_faults, statement, insert_state, insert_row, insert_service, remove_service,
  get_service, update_service, update_state, get_state,
}
use frequent_cron.Database.Validity.{IsValid}
use frequent_cron.Database.Crud.{state_at}

module _ {D : Type 0} where
  statement_refused {ℓ} :
      {A : Type ℓ} (failed : A) (body : Database D → A × Database D) (f : Fault) (fs : List Fault)
      (db : Database D)
      → f ≢ no_fault
      → db.faults ≡ f ∷ fs
      → statement failed body db ≡ (failed, record db { faults = fs })
  unfolding statement with_faults
  statement_refused failed body prepare_error fs db bad h = rw h
  statement_refused failed body step_error fs db bad h = rw h
  statement_refused failed body no_fault fs db bad h = absurd (bad refl)

  -- A method whose statement SQLite refuses, to prepare or to step, reports the failure and writes
  -- nothing: `false` from those that write, nothing found from those that read.
  pub refused_calls :
      (f : Fault) (fs : List Fault) (db : Database D)
      → f ≢ no_fault
      → db.faults ≡ f ∷ fs
      → (rec : ServiceRecord D) (n : String) (st : ServiceState)
      → (insert_service rec db ≡ (false, record db { faults = fs }))
        × (remove_service n db ≡ (false, record db { faults = fs }))
        × (update_service rec db ≡ (false, record db { faults = fs }))
        × (update_state n st db ≡ (false, record db { faults = fs }))
        × (get_service n db ≡ (none, record db { faults = fs }))
        × (get_state n db ≡ (none, record db { faults = fs }))
  unfolding insert_service remove_service update_service update_state get_service get_state
  refused_calls f fs db bad h rec n st = (
    statement_refused _ _ f fs db bad h,
    statement_refused _ _ f fs db bad h,
    statement_refused _ _ f fs db bad h,
    statement_refused _ _ f fs db bad h,
    statement_refused _ _ f fs db bad h,
    statement_refused _ _ f fs db bad h,
  )

  statement_accepted {ℓ} :
      {A : Type ℓ} (failed : A) (body : Database D → A × Database D) (fs : List Fault)
      (db : Database D)
      → db.faults ≡ no_fault ∷ fs
      → statement failed body db ≡ body (record db { faults = fs })
  unfolding statement with_faults
  statement_accepted failed body fs db h = rw h

  insert_state-refused :
      (n : String) (f : Fault) (db : Database D)
      → f ≢ no_fault
      → db.faults ≡ f ∷ []
      → insert_state n db ≡ (tt, record db { faults = [] })
  unfolding insert_state
  insert_state-refused n f db bad h = statement_refused tt _ f [] db bad h

  insert_service-refused :
      (f : Fault) (db : Database D) (rec : ServiceRecord D)
      → f ≢ no_fault
      → db.faults ≡ no_fault ∷ f ∷ []
      → has service_key rec.name db.services ≡ false
      → insert_service rec db ≡ (
        true,
        record db {
          services = add service_key (row_of_record db.now rec) db.services;
          faults = [];
        },
      )
  unfolding insert_service insert_row
  insert_service-refused f db rec bad h absent =
      statement_accepted false (insert_row rec) (f ∷ []) db h
      ∙ simp absent (
          ap (λ (x : Unit {0} × Database D). (true, x.1))
            (insert_state-refused rec.name f _ bad refl))

  -- From consistent tables, and under a new name, where only the second statement of
  -- `insert_service` is refused, the method reports success, the service is registered, and it has
  -- no state.
  pub insert_service_halfway :
      (f : Fault) (db : Database D) (rec : ServiceRecord D)
      → f ≢ no_fault
      → db.faults ≡ no_fault ∷ f ∷ []
      → IsValid db
      → has service_key rec.name db.services ≡ false
      → ((insert_service rec db).0 ≡ true)
        × (has service_key rec.name (insert_service rec db).1.services ≡ true)
        × (state_at rec.name (insert_service rec db).1 ≡ none)
  insert_service_halfway f db rec bad h v absent =
      let none_yet = none_of_has service_key rec.name db.services absent in
      rw (insert_service-refused f db rec bad h absent) (
        refl,
        unfold row_of_record in rw has-add (ground arith),
        rw (v.foreign_key rec.name none_yet),
      )
