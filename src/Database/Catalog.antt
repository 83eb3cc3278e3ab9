-- ===== src/Database/Catalog.antt =====
-- What class Database promises, without tables: a catalog of services and their states, each under its
-- name. The order of rows, NULL and the numbers that stand for flags are forgotten.
use frequent_cron.Base.{
  String, Bool, true, false, Option, none, some, List, [], ◌∷◌, ◌==◌, string_eq, nat_eq,
  if◌then◌else◌,
}
use mathlib.Core.Option
use frequent_cron.Database.{
  ServiceRecord, ServiceState, Database, insert_service, update_service, remove_service,
  get_service, get_state, update_state,
}
use frequent_cron.Database.Table.{find}
use frequent_cron.Database.Sorting.{list_services, record_key, is_ascending}
use frequent_cron.Database.Validity.{
  Call, insert_call, update_call, remove_call, get_call, state_call, update_state_call, list_call,
}
use frequent_cron.Database.Crud.{service_at, state_at, new_state, stamped}
use frequent_cron.Database.State.{merged}

pub record Catalog (D : Type 0) : Type 0 where
  pub records : String → Option (ServiceRecord D)
  pub states : String → Option ServiceState

-- What a call answers. A list of services is told by whether its names ascend strictly, and by what it
-- has under each name; the two determine it.
pub data Reply (D : Type 0) : Type 0 where
  did : Bool → Reply D
  found_record : Option (ServiceRecord D) → Reply D
  found_state : Option ServiceState → Reply D
  listed : Bool → (String → Option (ServiceRecord D)) → Reply D

-- A map with another value under a name.
abbrev put {ℓ} : {A : Type ℓ} → String → A → (String → A) → String → A
put n a f m = if n == m then a else f m

module _ {D : Type 0} where
  -- An update keeps the time of the insertion.
  abbrev pub updated : String → ServiceRecord D → ServiceRecord D → ServiceRecord D
  updated now rec old = record rec {
    name = old.name;
    created_at = old.created_at;
    updated_at = now;
  }

  abbrev insert_new :
      String → ServiceRecord D → Catalog D → Option (ServiceRecord D) → Reply D × Catalog D
  insert_new now rec cat (some old) = (did false, cat)
  insert_new now rec cat none = (
    did true,
    record {
      records = put rec.name (some (stamped now rec)) cat.records;
      states = put rec.name (some (new_state rec.name)) cat.states;
    },
  )

  abbrev update_known :
      String → ServiceRecord D → Catalog D → Option (ServiceRecord D) → Reply D × Catalog D
  update_known now rec cat none = (did false, cat)
  update_known now rec cat (some old) =
      (did true, record cat { records = put rec.name (some (updated now rec old)) cat.records })

  abbrev remove_known : String → Catalog D → Option (ServiceRecord D) → Reply D × Catalog D
  remove_known n cat none = (did false, cat)
  remove_known n cat (some old) =
      (did true, record { records = put n none cat.records; states = put n none cat.states })

  -- A call of the catalog, at a time.
  unfoldable pub specified : String → Call D → Catalog D → Reply D × Catalog D
  specified now (insert_call rec) cat = insert_new now rec cat (cat.records rec.name)
  specified now (update_call rec) cat = update_known now rec cat (cat.records rec.name)
  specified now (remove_call n) cat = remove_known n cat (cat.records n)
  specified now (get_call n) cat = (found_record (cat.records n), cat)
  specified now (state_call n) cat = (found_state (cat.states n), cat)
  specified now (update_state_call n st) cat =
      (did true, record cat { states = put n (Option.map (merged st) (cat.states n)) cat.states })
  specified now list_call cat = (listed true cat.records, cat)

  unfoldable pub specified_all : String → List (Call D) → Catalog D → List (Reply D)
  specified_all now [] cat = []
  specified_all now (c ∷ cs) cat =
      let (reply, after) = specified now c cat in reply ∷ specified_all now cs after

  -- The same call of the database, with its answer.
  unfoldable pub replied : Call D → Database D → Reply D × Database D
  replied (insert_call rec) db = let (b, after) = insert_service rec db in (did b, after)
  replied (update_call rec) db = let (b, after) = update_service rec db in (did b, after)
  replied (remove_call n) db = let (b, after) = remove_service n db in (did b, after)
  replied (get_call n) db = let (rec, after) = get_service n db in (found_record rec, after)
  replied (state_call n) db = let (st, after) = get_state n db in (found_state st, after)
  replied (update_state_call n st) db = let (b, after) = update_state n st db in (did b, after)
  replied list_call db =
      let (recs, after) = list_services db in
      (listed (is_ascending recs) (λ n. find record_key n recs), after)

  unfoldable pub replied_all : List (Call D) → Database D → List (Reply D)
  replied_all [] db = []
  replied_all (c ∷ cs) db = let (reply, after) = replied c db in reply ∷ replied_all cs after

  -- The catalog that the tables stand for.
  abbrev pub view : Database D → Catalog D
  view db = record { records = λ n. service_at n db; states = λ n. state_at n db }
