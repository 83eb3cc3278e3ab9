-- ===== src/Registry/Frame.antt =====
-- A command on one service leaves the others alone.
use frequent_cron.Base.{
  ◌≡◌, ◌≢◌, refl, String, Bool, false, Option, none, arith, string_eq, nat_eq, if_cases,
}
use frequent_cron.Database.{
  Database, ServiceRecord, ServiceState, get_state, update_state, get_service, insert_service,
  remove_service,
}
use frequent_cron.Registry.World.{Context, World}
use frequent_cron.Registry.Keeps.{IsStable}
use frequent_cron.Registry.Commands.{Command, subject, perform, perform-Keeps}
use frequent_cron.Database.{
  ServiceRow, StateRow, service_key, state_key, row_of_record, default_state, set_state, statement,
  insert_state, insert_row, delete_row,
}
use frequent_cron.Database.Table.{find, has, find-add, find-without, find-modify}
use frequent_cron.Database.Validity.{statement_inv}
use frequent_cron.Database.State.{name-set_state}

module _ {D : Type 0} (m : String) (service : Option (ServiceRow D)) (state : Option StateRow) where
  -- The rows of `m` are these.
  abbrev Has : Database D → Type 0
  Has db = (find service_key m db.services ≡ service) × (find state_key m db.states ≡ state)

  statement-Has :
      {A : Type 0} (failed : A) (body : Database D → A × Database D)
      → ((db : Database D) → Has db → Has (body db).1)
      → (db : Database D) → Has db
      → Has (statement failed body db).1
  statement-Has failed body keep = statement_inv Has failed body (λ db fs h. h) keep

  module _ (name : String) (other : name ≢ m) where
    insert_state-Has : (db : Database D) → Has db → Has (insert_state name db).1
    unfolding insert_state
    insert_state-Has =
        statement-Has tt _
          λ db h. ground (arith, find-add state_key m (default_state name) db.states)

    insert_row-Has :
        (rec : ServiceRecord D) (db : Database D)
        → rec.name ≡ name
        → Has db
        → Has (insert_row rec db).1
    unfolding insert_row row_of_record
    insert_row-Has rec db q h =
        if_cases (λ (x : Bool × Database D). Has x.1) (has service_key rec.name db.services) _ _
          (λ _. h)
          (λ _. rw q (
            insert_state-Has _
              (ground (arith, find-add service_key m (row_of_record db.now rec) db.services), h.1)))

    insert_service-Has :
        (rec : ServiceRecord D) (db : Database D)
        → rec.name ≡ name
        → Has db
        → Has (insert_service rec db).1
    unfolding insert_service
    insert_service-Has rec db q =
        statement-Has false (insert_row rec) (λ db. insert_row-Has rec db q) db

    delete_row-Has : (db : Database D) → Has db → Has (delete_row name db).1
    unfolding delete_row
    delete_row-Has db h = ground (
      arith,
      find-without service_key name m db.services,
      find-without state_key name m db.states,
    )

    remove_service-Has : (db : Database D) → Has db → Has (remove_service name db).1
    unfolding remove_service
    remove_service-Has = statement-Has false (delete_row name) delete_row-Has

    update_state-Has :
        (st : ServiceState) (db : Database D) → Has db → Has (update_state name st db).1
    unfolding update_state
    update_state-Has st = statement-Has false _ λ db h. (
      h.0,
      ground (arith, find-modify state_key (set_state st) (name-set_state st) name m db.states),
    )

    get_service-Has : (n : String) (db : Database D) → Has db → Has (get_service n db).1
    unfolding get_service
    get_service-Has n = statement-Has none _ (λ db h. h)

    get_state-Has : (n : String) (db : Database D) → Has db → Has (get_state n db).1
    unfolding get_state
    get_state-Has n = statement-Has none _ (λ db h. h)

    pub Has-IsStable : (c : Context D) → IsStable c Has name
    Has-IsStable c = record {
      updating = record {
        get_service-P = get_service-Has;
        get_state-P = get_state-Has;
        update_state-P = update_state-Has;
      };
      remove_service-P = remove_service-Has;
      insert_service-P = insert_service-Has;
    }

-- A command on one name leaves the rows of every other name as they are, in both tables, whatever
-- the command returns, and whatever the operating system and SQLite do.
pub perform_others :
    {D : Type 0} (c : Context D) (k : Command D) (m : String) (w : World c)
    → subject k ≢ m
    → (find service_key m (perform c k w).1.db.services ≡ find service_key m w.db.services)
      × (find state_key m (perform c k w).1.db.states ≡ find state_key m w.db.states)
perform_others c k m w other =
    (perform-Keeps c (Has m _ _) k (Has-IsStable m _ _ (subject k) other c)).at w (refl, refl)
