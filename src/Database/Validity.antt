-- ===== src/Database/Validity.antt =====
-- The tables stay consistent, whichever statements SQLite refuses.
use frequent_cron.Base.{
  ◌≡◌, refl, String, Bool, true, false, none, List, [], ◌∷◌, arith, string_eq, nat_eq, if_cases,
}
use frequent_cron.Database.Table.{
  find, has, none_of_has, some_of_has, has-add, modify, add, IsUnique, find-add, find-without,
  find-modify, find-modify-none, without-IsUnique, add-IsUnique, modify-IsUnique,
}
use frequent_cron.Database.Sorting.{list_services}
use frequent_cron.Database.{
  ServiceRecord, ServiceState, ServiceRow, Fault, prepare_error, step_error, no_fault, Database,
  default_state, set_state, row_of_record, state_key, service_key, with_faults, statement,
  insert_state, insert_row, insert_service, delete_row, remove_service, get_service, set_service,
  update_row, update_service, update_state, get_state,
}

-- The methods of `Database`, as a client may call them.
pub data Call (D : Type 0) : Type 0 where
  insert_call update_call : ServiceRecord D → Call D
  remove_call get_call state_call : String → Call D
  update_state_call : String → ServiceState → Call D
  list_call : Call D

module _ {D : Type 0} where
  -- No name is registered twice, and every state belongs to a registered service.
  pub record IsValid (db : Database D) : Type 0 where
    pub unique_services : IsUnique service_key db.services
    pub unique_states : IsUnique state_key db.states
    pub foreign_key :
        (n : String) → find service_key n db.services ≡ none → find state_key n db.states ≡ none

  -- What holds whatever `faults` holds, and is kept by the body of a statement, is kept by it.
  module _ {ℓ} {A : Type ℓ} (P : Database D → Type 0) (failed : A)
      (body : Database D → A × Database D)
      (ignores : (db : Database D) (fs : List Fault) → P db → P (record db { faults = fs }))
      (keep : (db : Database D) → P db → P (body db).1) where
    with_faults_inv :
        (fs : List Fault) (db : Database D) → P db → P (with_faults failed body fs db).1
    unfolding with_faults
    with_faults_inv [] db h = keep db h
    with_faults_inv (prepare_error ∷ fs) db h = ignores db fs h
    with_faults_inv (step_error ∷ fs) db h = ignores db fs h
    with_faults_inv (no_fault ∷ fs) db h = keep _ (ignores db fs h)

    pub statement_inv : (db : Database D) → P db → P (statement failed body db).1
    unfolding statement
    statement_inv db h = with_faults_inv db.faults db h

  pub ignores_faults :
      (db : Database D) (fs : List Fault) → IsValid db → IsValid (record db { faults = fs })
  ignores_faults db fs h = record {
    unique_services = h.unique_services;
    unique_states = h.unique_states;
    foreign_key = h.foreign_key;
  }

  add_state-IsValid :
      (n : String) (db : Database D)
      → has service_key n db.services ≡ true
      → has state_key n db.states ≡ false
      → IsValid db
      → IsValid (record db { states = add state_key (default_state n) db.states })
  add_state-IsValid n db registered absent h = record {
    unique_services = h.unique_services;
    unique_states =
        add-IsUnique state_key (default_state n) db.states
          (none_of_has state_key n db.states absent) h.unique_states;
    foreign_key = λ m gone. ground (
      arith,
      find-add state_key m (default_state n) db.states,
      h.foreign_key m gone,
      some_of_has service_key n db.services registered,
    );
  }

  insert_state-IsValid :
      (n : String) (db : Database D)
      → has service_key n db.services ≡ true
      → IsValid db
      → IsValid (insert_state n db).1
  unfolding insert_state
  insert_state-IsValid n db registered h =
      (statement_inv (λ db. (has service_key n db.services ≡ true) × IsValid db) tt _
        (λ db fs k. (k.0, ignores_faults db fs k.1))
        (λ db k.
          if_cases
            (λ (x : Unit {0} × Database D). (has service_key n x.1.services ≡ true) × IsValid x.1)
            (has state_key n db.states) _ _ (λ _. k)
            (λ absent. (k.0, add_state-IsValid n db k.0 absent k.1)))
        db (registered, h)).1

  add_service-IsValid :
      (row : ServiceRow D) (db : Database D)
      → has service_key row.name db.services ≡ false
      → IsValid db
      → IsValid (record db { services = add service_key row db.services })
  add_service-IsValid row db absent h = record {
    unique_services =
        add-IsUnique service_key row db.services
          (none_of_has service_key row.name db.services absent) h.unique_services;
    unique_states = h.unique_states;
    foreign_key =
        λ m gone. h.foreign_key m (ground (arith, find-add service_key m row db.services));
  }

  insert_row-IsValid :
      (rec : ServiceRecord D) (db : Database D) → IsValid db → IsValid (insert_row rec db).1
  unfolding insert_row row_of_record
  insert_row-IsValid rec db h =
      if_cases (λ (x : Bool × Database D). IsValid x.1) (has service_key rec.name db.services) _ _
        (λ _. h)
        (λ absent.
          insert_state-IsValid rec.name _ (rw has-add (ground arith))
            (add_service-IsValid (row_of_record db.now rec) db absent h))

  delete_row-IsValid : (n : String) (db : Database D) → IsValid db → IsValid (delete_row n db).1
  unfolding delete_row
  delete_row-IsValid n db h =
      if_cases (λ (x : Bool × Database D). IsValid x.1) (has service_key n db.services) _ _
        (λ _. record {
          unique_services = without-IsUnique service_key n db.services h.unique_services;
          unique_states = without-IsUnique state_key n db.states h.unique_states;
          foreign_key = λ m gone. ground (
            arith,
            find-without service_key n m db.services,
            find-without state_key n m db.states,
            λ (q : find service_key m db.services ≡ none). h.foreign_key m q,
          );
        })
        (λ _. h)

  update_row-IsValid :
      (rec : ServiceRecord D) (db : Database D) → IsValid db → IsValid (update_row rec db).1
  unfolding update_row set_service
  update_row-IsValid rec db h =
      if_cases (λ (x : Bool × Database D). IsValid x.1) (has service_key rec.name db.services) _ _
        (λ _. record {
          unique_services =
              modify-IsUnique service_key (set_service db.now rec) (λ r. refl) rec.name db.services
                h.unique_services;
          unique_states = h.unique_states;
          foreign_key = λ m gone. ground (
            arith,
            find-modify service_key (set_service db.now rec) (λ r. refl) rec.name m db.services,
            λ (q : find service_key m db.services ≡ none). h.foreign_key m q,
          );
        })
        (λ _. h)

  set_rows-IsValid :
      (n : String) (st : ServiceState) (db : Database D)
      → IsValid db
      → IsValid (record db { states = modify state_key n (set_state st) db.states })
  unfolding set_state
  set_rows-IsValid n st db h = record {
    unique_services = h.unique_services;
    unique_states =
        modify-IsUnique state_key (set_state st) (λ r. refl) n db.states h.unique_states;
    foreign_key = λ m gone.
        find-modify-none state_key (set_state st) (λ r. refl) n m db.states (h.foreign_key m gone);
  }

  unfoldable pub perform : Call D → Database D → Database D
  perform (insert_call rec) db = (insert_service rec db).1
  perform (update_call rec) db = (update_service rec db).1
  perform (remove_call n) db = (remove_service n db).1
  perform (get_call n) db = (get_service n db).1
  perform (state_call n) db = (get_state n db).1
  perform (update_state_call n st) db = (update_state n st db).1
  perform list_call db = (list_services db).1

  unfoldable pub perform_all : List (Call D) → Database D → Database D
  unfolding perform
  perform_all [] db = db
  perform_all (c ∷ cs) db = perform_all cs (perform c db)

  pub insert_service-IsValid :
      (rec : ServiceRecord D) (db : Database D) → IsValid db → IsValid (insert_service rec db).1
  unfolding insert_service
  insert_service-IsValid rec =
      statement_inv IsValid false (insert_row rec) ignores_faults (insert_row-IsValid rec)

  pub remove_service-IsValid :
      (n : String) (db : Database D) → IsValid db → IsValid (remove_service n db).1
  unfolding remove_service
  remove_service-IsValid n =
      statement_inv IsValid false (delete_row n) ignores_faults (delete_row-IsValid n)

  pub update_service-IsValid :
      (rec : ServiceRecord D) (db : Database D) → IsValid db → IsValid (update_service rec db).1
  unfolding update_service
  update_service-IsValid rec =
      statement_inv IsValid false (update_row rec) ignores_faults (update_row-IsValid rec)

  pub update_state-IsValid :
      (n : String) (st : ServiceState) (db : Database D)
      → IsValid db
      → IsValid (update_state n st db).1
  unfolding update_state
  update_state-IsValid n st =
      statement_inv IsValid false _ ignores_faults (λ db h. set_rows-IsValid n st db h)

  pub get_service-IsValid :
      (n : String) (db : Database D) → IsValid db → IsValid (get_service n db).1
  unfolding get_service
  get_service-IsValid n = statement_inv IsValid none _ ignores_faults (λ db h. h)

  pub get_state-IsValid : (n : String) (db : Database D) → IsValid db → IsValid (get_state n db).1
  unfolding get_state
  get_state-IsValid n = statement_inv IsValid none _ ignores_faults (λ db h. h)

  pub list_services-IsValid : (db : Database D) → IsValid db → IsValid (list_services db).1
  unfolding list_services
  list_services-IsValid = statement_inv IsValid [] _ ignores_faults (λ db h. h)

  -- From consistent tables, any calls of the methods, with any statements failing at any point,
  -- leave consistent tables: names are unique, and no state is left without its service.
  pub perform_all-IsValid :
      (cs : List (Call D)) (db : Database D) → IsValid db → IsValid (perform_all cs db)
  unfolding perform_all
  perform_all-IsValid [] db h = h
  perform_all-IsValid (insert_call rec ∷ cs) db h =
      perform_all-IsValid cs _ (insert_service-IsValid rec db h)
  perform_all-IsValid (update_call rec ∷ cs) db h =
      perform_all-IsValid cs _ (update_service-IsValid rec db h)
  perform_all-IsValid (remove_call n ∷ cs) db h =
      perform_all-IsValid cs _ (remove_service-IsValid n db h)
  perform_all-IsValid (get_call n ∷ cs) db h = perform_all-IsValid cs _ (get_service-IsValid n db h)
  perform_all-IsValid (state_call n ∷ cs) db h = perform_all-IsValid cs _ (get_state-IsValid n db h)
  perform_all-IsValid (update_state_call n st ∷ cs) db h =
      perform_all-IsValid cs _ (update_state-IsValid n st db h)
  perform_all-IsValid (list_call ∷ cs) db h = perform_all-IsValid cs _ (list_services-IsValid db h)
