-- ===== src/Database/Refinement.antt =====
-- The tables behave as the catalog that they stand for.
pub mod Updating
use frequent_cron.Base.{
  ◌≡◌, inl, inr, refl, ap, ◌∙◌, String, true, false, Option, none, some, List, [], ◌∷◌, arith, ◌==◌,
  string_eq, nat_eq, if◌then◌else◌, Option-cases,
}
use mathlib.Core.Option
use frequent_cron.Database.{ServiceRecord, ServiceState, Database, service_key, record_of_row}
use frequent_cron.Database.Table.{find, has}
use frequent_cron.Database.Listing.{
  list_services, record_key, list_services-eq, list_services-at, list_services-is_ascending,
}
use frequent_cron.Database.Validity.{
  IsValid, Call, insert_call, update_call, remove_call, get_call, state_call, update_state_call,
  list_call, insert_service-IsValid, remove_service-IsValid, update_service-IsValid,
  update_state-IsValid,
}
use frequent_cron.Database.Crud.{
  service_at, state_at, insert_service-eq, insert_service-at, insert_service_taken, stateless,
  remove_service-eq, remove_service-at, remove_service_absent, get_service-eq, get_state-eq,
}
use frequent_cron.Database.State.{update_state-at, update_state-eq}
use frequent_cron.Database.Catalog.{
  Catalog, Reply, did, found_record, found_state, listed, specified, specified_all, replied,
  replied_all, view,
}
use frequent_cron.Database.Refinement.Updating.{
  updated_at, update_service-eq, update_service_absent,
}

module _ {D : Type 0} where
  -- The tables stand for the catalog, SQLite refuses nothing, and the time stands still.
  record Represents (now : String) (db : Database D) (cat : Catalog D) : Type 0 where
    valid : IsValid db
    clear : db.faults ≡ []
    clock : db.now ≡ now
    same_record : (n : String) → service_at n db ≡ cat.records n
    same_state : (n : String) → state_at n db ≡ cat.states n

  abbrev Agree : String → Reply D × Database D → Reply D × Catalog D → Type 0
  Agree now x y = (x.0 ≡ y.0) × Represents now x.1 y.1

  get-Agree :
      (now n : String) (db : Database D) (cat : Catalog D)
      → Represents now db cat
      → Agree now (replied (get_call n) db) (specified now (get_call n) cat)
  unfolding replied specified
  get-Agree now n db cat h = rw (get_service-eq n db h.clear) (ap found_record (h.same_record n), h)

  state-Agree :
      (now n : String) (db : Database D) (cat : Catalog D)
      → Represents now db cat
      → Agree now (replied (state_call n) db) (specified now (state_call n) cat)
  unfolding replied specified
  state-Agree now n db cat h = rw (get_state-eq n db h.clear) (ap found_state (h.same_state n), h)

  update_state-Agree :
      (now n : String) (st : ServiceState) (db : Database D) (cat : Catalog D)
      → Represents now db cat
      → Agree now (replied (update_state_call n st) db) (specified now (update_state_call n st) cat)
  unfolding replied specified
  update_state-Agree now n st db cat h =
      let at = update_state-at n st db n h.clear in
      let eq = update_state-eq n st db h.clear in
      (
        ap did at.0,
        record {
          valid = update_state-IsValid n st db h.valid;
          clear = ap (λ x. x.1.faults) eq ∙ h.clear;
          clock = ap (λ x. x.1.now) eq ∙ h.clock;
          same_record = λ m.
              ap (λ rows. Option.map record_of_row (find service_key m rows)) at.1
              ∙ h.same_record m;
          same_state = λ m.
              ground (arith, update_state-at n st db m h.clear, h.same_state m, h.same_state n);
        },
      )

  absent_row :
      (n : String) (db : Database D)
      → service_at n db ≡ none
      → has service_key n db.services ≡ false
  unfolding has
  absent_row n db h = ground arith

  present_row :
      (n : String) (db : Database D) {rec : ServiceRecord D}
      → service_at n db ≡ some rec
      → has service_key n db.services ≡ true
  unfolding has
  present_row n db h = ground arith

  insert-Agree :
      (now : String) (rec : ServiceRecord D) (db : Database D) (cat : Catalog D)
      → Represents now db cat
      → Agree now (replied (insert_call rec) db) (specified now (insert_call rec) cat)
  unfolding replied specified
  insert-Agree now rec db cat h = elim (Option-cases (cat.records rec.name)) [
    | inl free ↦
        let absent = absent_row rec.name db (h.same_record rec.name ∙ free) in
        let gone = stateless rec.name db h.valid absent in
        let eq = insert_service-eq rec db h.clear absent gone in
        let at = insert_service-at rec db rec.name h.clear h.valid absent in
        rw free (
          ap did at.0,
          record {
            valid = insert_service-IsValid rec db h.valid;
            clear = ap (λ x. x.1.faults) eq ∙ h.clear;
            clock = ap (λ x. x.1.now) eq ∙ h.clock;
            same_record = λ m. ground (
              arith,
              insert_service-at rec db m h.clear h.valid absent,
              h.same_record m,
              h.clock,
            );
            same_state = λ m.
                ground (arith, insert_service-at rec db m h.clear h.valid absent, h.same_state m);
          },
        )
    | inr (old, taken) ↦
        let there = present_row rec.name db (h.same_record rec.name ∙ taken) in
        rw (taken, insert_service_taken rec db h.clear there) (refl, h)
  ]

  remove-Agree :
      (now n : String) (db : Database D) (cat : Catalog D)
      → Represents now db cat
      → Agree now (replied (remove_call n) db) (specified now (remove_call n) cat)
  unfolding replied specified
  remove-Agree now n db cat h = elim (Option-cases (cat.records n)) [
    | inl free ↦
        let absent = absent_row n db (h.same_record n ∙ free) in
        rw (free, remove_service_absent n db h.clear absent) (refl, h)
    | inr (old, known) ↦
        let there = present_row n db (h.same_record n ∙ known) in
        let eq = remove_service-eq n db h.clear there in
        rw known (
          ap (λ x. did x.0) eq,
          record {
            valid = remove_service-IsValid n db h.valid;
            clear = ap (λ x. x.1.faults) eq ∙ h.clear;
            clock = ap (λ x. x.1.now) eq ∙ h.clock;
            same_record =
                λ m. ground (arith, remove_service-at n db m h.clear there, h.same_record m);
            same_state =
                λ m. ground (arith, remove_service-at n db m h.clear there, h.same_state m);
          },
        )
  ]

  update-Agree :
      (now : String) (rec : ServiceRecord D) (db : Database D) (cat : Catalog D)
      → Represents now db cat
      → Agree now (replied (update_call rec) db) (specified now (update_call rec) cat)
  unfolding replied specified
  update-Agree now rec db cat h = elim (Option-cases (cat.records rec.name)) [
    | inl free ↦
        let absent = absent_row rec.name db (h.same_record rec.name ∙ free) in
        rw (free, update_service_absent rec db h.clear absent) (refl, h)
    | inr (old, known) ↦
        let was = h.same_record rec.name ∙ known in
        let eq = update_service-eq rec db h.clear (present_row rec.name db was) in
        rw known (
          ap (λ x. did x.0) eq,
          record {
            valid = update_service-IsValid rec db h.valid;
            clear = ap (λ x. x.1.faults) eq ∙ h.clear;
            clock = ap (λ x. x.1.now) eq ∙ h.clock;
            same_record = λ m.
                ap (λ x. service_at m x.1) eq
                ∙ updated_at db.now rec db.services m
                ∙ ground (arith, h.same_record m, was, h.clock);
            same_state = λ m. ap (λ x. state_at m x.1) eq ∙ h.same_state m;
          },
        )
  ]

  list-Agree :
      (now : String) (db : Database D) (cat : Catalog D)
      → Represents now db cat
      → Agree now (replied list_call db) (specified now list_call cat)
  unfolding replied specified
  list-Agree now db cat h =
      let ascending = list_services-is_ascending db h.clear h.valid.unique_services in
      let unchanged : (list_services db).1 ≡ db = ap (λ x. x.1) (list_services-eq db h.clear) in
      let at : (n : String) → find record_key n (list_services db).0 ≡ cat.records n =
        λ n. (list_services-at n db h.clear).0 ∙ h.same_record n in
      rw (ascending, unchanged) (ap (listed true) (λ i n. at n i), h)

  call-Agree :
      (now : String) (c : Call D) (db : Database D) (cat : Catalog D)
      → Represents now db cat
      → Agree now (replied c db) (specified now c cat)
  call-Agree now (insert_call rec) db cat h = insert-Agree now rec db cat h
  call-Agree now (update_call rec) db cat h = update-Agree now rec db cat h
  call-Agree now (remove_call n) db cat h = remove-Agree now n db cat h
  call-Agree now (get_call n) db cat h = get-Agree now n db cat h
  call-Agree now (state_call n) db cat h = state-Agree now n db cat h
  call-Agree now (update_state_call n st) db cat h = update_state-Agree now n st db cat h
  call-Agree now list_call db cat h = list-Agree now db cat h

  all_agree :
      (now : String) (cs : List (Call D)) (db : Database D) (cat : Catalog D)
      → Represents now db cat
      → replied_all cs db ≡ specified_all now cs cat
  unfolding replied_all specified_all
  all_agree now [] db cat h = refl
  all_agree now (c ∷ cs) db cat h =
      let step = call-Agree now c db cat h in cc (step.0, all_agree now cs _ _ step.1)

  -- From consistent tables, where SQLite refuses nothing, and at one time: whatever methods are
  -- called, in whatever order, each answers what the catalog answers that the tables stood for at
  -- first; a list of all services has the records of the catalog, in strictly ascending order of
  -- their names.
  pub replied_all-specified_all :
      (cs : List (Call D)) (db : Database D)
      → IsValid db
      → db.faults ≡ []
      → replied_all cs db ≡ specified_all db.now cs (view db)
  replied_all-specified_all cs db valid clear = all_agree db.now cs db (view db) (record {
    valid = valid;
    clear = clear;
    clock = refl;
    same_record = λ n. refl;
    same_state = λ n. refl;
  })
