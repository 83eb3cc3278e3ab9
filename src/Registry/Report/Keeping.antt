-- ===== src/Registry/Report/Keeping.antt =====
-- What the printing commands leave as it is.
use frequent_cron.Base.{ℕ, ◌≡◌, refl, String, Bool, Option, none, some, List, [], ◌∷◌}
use frequent_cron.Process.{Bytes}
use frequent_cron.Database.{
  Database, ServiceRecord, ServiceState, ServiceRow, statement, get_service, get_state,
  update_state,
}
use frequent_cron.Database.Validity.{
  list_services-IsValid, IsValid, statement_inv, get_service-IsValid, get_state-IsValid,
  update_state-IsValid,
}
use frequent_cron.Database.Listing.{list_services}
use frequent_cron.Registry.World.{Context, World, Action, on_db}
use frequent_cron.Registry.Status.{not_found, get_actual_status}
use frequent_cron.Registry.Keeps.{
  Keeps, Keeps-pure, Keeps-bind, Keeps-say, Keeps-on_db, IsUpdating, keeps_rules,
}
use frequent_cron.Registry.Keeps.Commands.{get_actual_status-Keeps}
use frequent_cron.Registry.Report.{
  status_row, list_row, each, table, say_if, say_pid, say_times, describe, status_all, status_one,
  cmd_status, cmd_list, say_log, cmd_logs,
}

-- The commands that print.
pub data Query : Type 0 where
  ask_status : String → Query
  ask_list : Query
  ask_logs : String → Query

module _ {D : Type 0} (c : Context D) (decode : Bytes → String) where
  unfoldable pub answer : Query → Action c ℕ
  answer (ask_status name) = cmd_status c name
  answer ask_list = cmd_list c
  answer (ask_logs name) = cmd_logs c decode name

  module _ (P : Database D → Type 0) (updating : (name : String) → IsUpdating c P name)
      (listing : (db : Database D) → P db → P (list_services db).1) where
    list_services-Keeps : Keeps c P (on_db c list_services)
    list_services-Keeps = Keeps-on_db c P list_services listing

    get_service-Keeps : (n : String) → Keeps c P (on_db c (get_service n))
    get_service-Keeps n = Keeps-on_db c P (get_service n) ((updating n).get_service-P n)

    get_state-Keeps : (n : String) → Keeps c P (on_db c (get_state n))
    get_state-Keeps n = Keeps-on_db c P (get_state n) ((updating n).get_state-P n)

    status-Keeps : (name : String) → Keeps c P (get_actual_status c name)
    status-Keeps name = get_actual_status-Keeps c P name (updating name)

    not_found-Keeps : (name : String) → Keeps c P (not_found c name)
    unfolding not_found
    not_found-Keeps name = search keeps_rules

    status_row-Keeps : (svc : ServiceRecord D) → Keeps c P (status_row c svc)
    unfolding status_row
    status_row-Keeps svc = search (keeps_rules, status-Keeps, get_state-Keeps)

    list_row-Keeps : (svc : ServiceRecord D) → Keeps c P (list_row c svc)
    unfolding list_row
    list_row-Keeps svc = search (keeps_rules, status-Keeps)

    each-Keeps :
        (row : ServiceRecord D → Action c (Unit {0}))
        → ((svc : ServiceRecord D) → Keeps c P (row svc))
        → (services : List (ServiceRecord D)) → Keeps c P (each c row services)
    unfolding each
    each-Keeps row keep [] = Keeps-pure c P 0
    each-Keeps row keep (svc ∷ services) =
        Keeps-bind c P _ _ (keep svc) (λ _. each-Keeps row keep services)

    table-Keeps :
        (header : String) (row : ServiceRecord D → Action c (Unit {0}))
        → ((svc : ServiceRecord D) → Keeps c P (row svc))
        → (services : List (ServiceRecord D)) → Keeps c P (table c header row services)
    unfolding table
    table-Keeps header row keep [] = search keeps_rules
    table-Keeps header row keep (svc ∷ services) =
        Keeps-bind c P _ _ (Keeps-say c P header) (λ _. each-Keeps row keep (svc ∷ services))

    say_if-Keeps : (b : Bool) (text : String) → Keeps c P (say_if c b text)
    unfolding say_if
    say_if-Keeps b text = search keeps_rules

    say_pid-Keeps :
        (status : String) (state : Option ServiceState) → Keeps c P (say_pid c status state)
    unfolding say_pid
    say_pid-Keeps status none = search keeps_rules
    say_pid-Keeps status (some st) = say_if-Keeps _ _

    say_times-Keeps : (state : Option ServiceState) → Keeps c P (say_times c state)
    unfolding say_times
    say_times-Keeps none = search keeps_rules
    say_times-Keeps (some st) = search (keeps_rules, say_if-Keeps)

    describe-Keeps :
        (service : ServiceRecord D) (status : String) (state : Option ServiceState)
        → Keeps c P (describe c service status state)
    unfolding describe
    describe-Keeps service status state =
        search (keeps_rules, say_if-Keeps, say_pid-Keeps, say_times-Keeps) depth 24

    cmd_status-Keeps : (name : String) → Keeps c P (cmd_status c name)
    unfolding cmd_status status_all status_one
    cmd_status-Keeps name =
        search
          (
            keeps_rules,
            list_services-Keeps,
            get_service-Keeps,
            get_state-Keeps,
            status-Keeps,
            not_found-Keeps,
            describe-Keeps,
            table-Keeps _ (status_row c) status_row-Keeps,
          )
          depth 12

    cmd_list-Keeps : Keeps c P (cmd_list c)
    unfolding cmd_list
    cmd_list-Keeps =
        search (keeps_rules, list_services-Keeps, table-Keeps _ (list_row c) list_row-Keeps)

    say_log-Keeps : (content : Option Bytes) → Keeps c P (say_log c decode content)
    unfolding say_log
    say_log-Keeps none = search keeps_rules
    say_log-Keeps (some content) = search keeps_rules

    cmd_logs-Keeps : (name : String) → Keeps c P (cmd_logs c decode name)
    unfolding cmd_logs
    cmd_logs-Keeps name =
        search (keeps_rules, get_service-Keeps, not_found-Keeps, say_log-Keeps) depth 12

    pub answer-Keeps : (q : Query) → Keeps c P (answer q)
    unfolding answer
    answer-Keeps (ask_status name) = cmd_status-Keeps name
    answer-Keeps ask_list = cmd_list-Keeps
    answer-Keeps (ask_logs name) = cmd_logs-Keeps name

  -- A table of services that stays what it is.
  abbrev Lists : List (ServiceRow D) → Database D → Type 0
  Lists rows db = db.services ≡ rows

  reading-Lists :
      {A : Type 0} (rows : List (ServiceRow D)) (failed : A) (body : Database D → A × Database D)
      → ((db : Database D) → Lists rows db → Lists rows (body db).1)
      → (db : Database D) → Lists rows db
      → Lists rows (statement failed body db).1
  reading-Lists rows failed body keep = statement_inv (Lists rows) failed body (λ db fs h. h) keep

  Lists-IsUpdating : (rows : List (ServiceRow D)) (name : String) → IsUpdating c (Lists rows) name
  unfolding get_service get_state update_state
  Lists-IsUpdating rows name = record {
    get_service-P = λ n db. reading-Lists rows _ _ (λ db h. h) db;
    get_state-P = λ n db. reading-Lists rows _ _ (λ db h. h) db;
    update_state-P = λ st db. reading-Lists rows _ _ (λ db h. h) db;
  }

  list_services-Lists :
      (rows : List (ServiceRow D)) (db : Database D)
      → Lists rows db
      → Lists rows (list_services db).1
  unfolding list_services
  list_services-Lists rows db = reading-Lists rows _ _ (λ db h. h) db

  -- No command that prints changes the table of services, whatever SQLite refuses.
  pub answer-services : (q : Query) (w : World c) → (answer q w).1.db.services ≡ w.db.services
  answer-services q w =
      (answer-Keeps (Lists w.db.services) (Lists-IsUpdating w.db.services)
          (list_services-Lists w.db.services) q).at
        w refl

  IsValid-IsUpdating : (name : String) → IsUpdating c IsValid name
  IsValid-IsUpdating name = record {
    get_service-P = get_service-IsValid;
    get_state-P = get_state-IsValid;
    update_state-P = update_state-IsValid name;
  }

  pub answer-IsValid : (q : Query) (w : World c) → IsValid w.db → IsValid (answer q w).1.db
  answer-IsValid q w = (answer-Keeps IsValid IsValid-IsUpdating list_services-IsValid q).at w
