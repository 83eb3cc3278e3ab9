-- ===== src/Tests/Services.antt =====
-- Commands on a registry with one service.
use frequent_cron.Base.{
  [], ℕ, ◌+◌, ◌≤◌, ◌≡◌, ◌≢◌, ◌⊎◌, refl, ap, ◌∙◌, String, ◌<>◌, List, true, false, none, some, ◌∷◌,
  arith, string_eq, nat_eq, if◌then◌else◌,
}
use frequent_cron.Base.Int.{ℤ, pos, ◌≤ℤ◌}
use text.Mathlib.TextEquality.{eq_iff}
use frequent_cron.Config.{Config, Subcommand}
use frequent_cron.Database.{
  Database, ServiceState, no_fault, step_error, record_of_row, bool_of_int, text_or_empty,
  int_or_zero, service_key, state_key, state_of_row, insert_service, update_state,
}
use frequent_cron.Database.Catalog.{replied_all, specified_all, view}
use frequent_cron.Database.Refinement.{replied_all-specified_all}
use frequent_cron.Database.Table.{find, has}
use frequent_cron.Database.Validity.{IsValid, Call}
use frequent_cron.Database.Crud.{service_at, state_at, new_state}
use frequent_cron.Database.State.{update_state-at}
use frequent_cron.Database.Failure.{insert_service_halfway}
use frequent_cron.Database.Listing.{list_services, record_key, IsSorted, list_services-at}
use frequent_cron.Registry.World.{World}
use frequent_cron.Registry.Status.{get_actual_status}
use frequent_cron.Registry.Status.Healing.{
  get_actual_status-eq, stopped≢running, get_actual_status_heals,
}
use frequent_cron.Registry.Install.{cmd_install}
use frequent_cron.Registry.Install.Outcome.{installed, cmd_install_new}
use frequent_cron.Registry.Stop.{cmd_stop, pid_from_file}
use frequent_cron.Registry.Stop.Outcome.{cmd_stop_outcome, finds_process, stop_target}
use frequent_cron.Registry.Remove.{cmd_remove}
use frequent_cron.Registry.Remove.Outcome.{IsGone, cmd_remove_outcome}
use frequent_cron.Registry.Start.{cmd_start, nonzero}
use frequent_cron.Registry.Start.Outcome.{cmd_start_outcome, launch_answer}
use frequent_cron.Registry.Commands.{Command, Reach, perform, Reach-IsValid}
use frequent_cron.Registry.Report.{cmd_list}
use frequent_cron.Registry.Report.Listing.{listing, observed, cmd_list-listing}
use frequent_cron.Registry.System.{IsCalm}
use frequent_cron.Registry.System.Signals.{perform_signals}
use frequent_cron.Registry.System.Waiting.{IsSleepTime, sleep_limit, perform_waits}
use frequent_cron.Registry.Frame.{perform_others}
use frequent_cron.Tests.{
  context, machine-IsRemoving, empty_db, db_with, web_record, running_with, world_with, idle,
}

pub db_with_web-IsValid : (pid : ℤ) → IsValid (db_with (running_with pid))
unfolding find
db_with_web-IsValid pid = record {
  unique_services = (refl, tt);
  unique_states = (refl, tt);
  foreign_key = λ n h. ground arith;
}

pub empty_db-IsValid : IsValid empty_db
unfolding find
empty_db-IsValid = record { unique_services = tt; unique_states = tt; foreign_key = λ n h. refl }

abbrev web : String
web = "web"

abbrev pub live : World context
live = world_with (db_with (running_with (pos 42)))

abbrev dead : World context
dead = world_with (db_with (running_with (pos 7)))

abbrev late : World context
late = world_with (db_with (running_with (pos 0)))

abbrev pub config : Config ℕ
config = record {
  subcommand = Subcommand.install;
  service_name = "web";
  frequency = pos 1000;
  command = "curl localhost";
  pid_filename = "";
  synchronous = true;
  has_pid_file = false;
  data_dir = "/data";
  log_max_size_mb = pos 10;
  log_max_files = pos 5;
  jitter_ms = pos 50;
  jitter_distribution = "uniform";
  fire_probability = 1000;
}

pub registered : (pid : ℤ) → service_at "web" (db_with (running_with pid)) ≡ some web_record
unfolding find record_of_row bool_of_int
registered pid = ground arith

state_here :
    (pid : ℤ)
    → state_at "web" (db_with (running_with pid))
      ≡ some (record (new_state "web") { status = "running"; pid = pid })
unfolding find state_of_row text_or_empty int_or_zero
state_here pid = ground arith

has_web : (pid : ℤ) → has service_key "web" (db_with (running_with pid)).services ≡ true
unfolding find has
has_web pid = ground arith

has_none : has service_key "web" (empty_db).services ≡ false
unfolding find has
has_none = refl

-- Commands on the running service.
abbrev web_state : ℤ → ServiceState
web_state pid = record (new_state "web") { status = "running"; pid = pid }

Reach-IsValid_example : IsValid (perform context (Command.stop "web") live).1.db
Reach-IsValid_example =
    Reach-IsValid context (db_with_web-IsValid (pos 42))
      (Reach.command (Command.stop "web") Reach.here)

perform_others_example :
    (find service_key "db" (perform context (Command.remove "web") live).1.db.services
      ≡ find service_key "db" live.db.services)
    × (find state_key "db" (perform context (Command.remove "web") live).1.db.states
        ≡ find state_key "db" live.db.states)
perform_others_example =
    perform_others context (Command.remove "web") "db" live (ground (arith, eq_iff "web" "db"))

cmd_stop_outcome_example :
    ((cmd_stop context "web" live).0
      ≡ (if finds_process context (stop_target context "web" live) idle then 0 else 1))
    × (service_at "web" (cmd_stop context "web" live).1.db ≡ some web_record)
    × (state_at "web" (cmd_stop context "web" live).1.db
        ≡ some (record (web_state (pos 42)) {
          status = "stopped";
          pid = pos 0;
          execution_count = pos 0;
          last_stopped_at =
              if finds_process context (stop_target context "web" live) idle then "now" else "";
        }))
cmd_stop_outcome_example =
    cmd_stop_outcome context "web" live web_record (web_state (pos 42)) refl (registered (pos 42))
      (state_here (pos 42))

cmd_remove_outcome_example :
    ((cmd_remove context "web" live).0 ≡ 0)
    × IsGone context machine-IsRemoving "web" (cmd_remove context "web" live).1
cmd_remove_outcome_example =
    cmd_remove_outcome context machine-IsRemoving "web" live web_record refl (registered (pos 42))

cmd_install_new_example :
    ((cmd_install context config (world_with empty_db)).0 ≡ 0)
    × (service_at "web" (cmd_install context config (world_with empty_db)).1.db
        ≡ some (installed context "day 2" config))
    × (state_at "web" (cmd_install context config (world_with empty_db)).1.db
        ≡ some (new_state "web"))
unfolding find
cmd_install_new_example =
    cmd_install_new context config (world_with empty_db) refl empty_db-IsValid refl

live_status : (get_actual_status context "web" live).0 ≡ "running"
live_status = ground (arith, get_actual_status-eq context "web" live refl, state_here (pos 42))

dead_status : get_actual_status context "web" dead ≡ (
  "stopped",
  record dead {
    db =
        (update_state "web"
          (record (web_state (pos 7)) { status = "stopped"; pid = pos 0 })
          dead.db).1;
  },
)
dead_status = ground (arith, get_actual_status-eq context "web" dead refl, state_here (pos 7))

dead_state : state_at "web" (get_actual_status context "web" dead).1.db ≡ some (new_state "web")
dead_state =
    let stopped = record (web_state (pos 7)) { status = "stopped"; pid = pos 0 } in
    ap (λ r. state_at "web" r.1.db) dead_status
    ∙ ground (arith, update_state-at "web" stopped dead.db "web" refl, state_here (pos 7))

get_actual_status_heals_example :
    ((get_actual_status context "web" dead).0 ≡ "stopped")
    × ((◌≢◌ {A = String} "stopped" "running")
        ⊎ ((pos 0 ≤ℤ pos 0) ⊎ (context.os.alive (pos 0) idle ≡ true)))
get_actual_status_heals_example =
    get_actual_status_heals context "web" dead (new_state "web") refl dead_state

-- The world in which the dead service has been found out.
abbrev found : World context
found = (get_actual_status context "web" dead).1

cmd_start_outcome_example :
    ((cmd_start context "web" dead).0
      ≡ (if nonzero (launch_answer context "web" web_record found).0 then 1 else 0))
    × (state_at "web" (cmd_start context "web" dead).1.db
        ≡ some (
            if nonzero (launch_answer context "web" web_record found).0
            then new_state "web"
            else record (new_state "web") {
              status = "running";
              pid = pid_from_file context "web" (cmd_start context "web" dead).1.os;
              last_started_at = "now";
              execution_count = pos 0;
            }))
cmd_start_outcome_example =
    cmd_start_outcome context "web" dead web_record (new_state "web") refl (registered (pos 7))
      (rw dead_status (stopped≢running context)) dead_state

abbrev failing : Database ℕ
failing = record empty_db { faults = step_error ∷ [] }

abbrev halfway : Database ℕ
halfway = record empty_db { faults = no_fault ∷ step_error ∷ [] }

halfway-IsValid : IsValid halfway
unfolding find
halfway-IsValid = record { unique_services = tt; unique_states = tt; foreign_key = λ n h. refl }

insert_service_halfway_example :
    ((insert_service web_record halfway).0 ≡ true)
    × (has service_key "web" (insert_service web_record halfway).1.services ≡ true)
    × (state_at "web" (insert_service web_record halfway).1 ≡ none)
insert_service_halfway_example =
    insert_service_halfway step_error halfway web_record (ground arith) refl halfway-IsValid
      has_none

list_services-at_example :
    (find record_key "web" (list_services live.db).0 ≡ service_at "web" live.db)
    × IsSorted record_key (list_services live.db).0
    × ((list_services live.db).1 ≡ live.db)
list_services-at_example = list_services-at "web" live.db refl

abbrev calls : List (Call ℕ)
calls =
    Call.insert_call web_record
    ∷ Call.update_state_call "web" (web_state (pos 42))
    ∷ Call.update_call web_record
    ∷ Call.state_call "web"
    ∷ Call.list_call
    ∷ Call.remove_call "web"
    ∷ Call.get_call "web"
    ∷ []

replied_all-specified_all_example :
    replied_all calls empty_db ≡ specified_all "day 2" calls (view empty_db)
replied_all-specified_all_example = replied_all-specified_all calls empty_db empty_db-IsValid refl

machine-IsSleepTime : IsSleepTime context (λ s. s.slept)
machine-IsSleepTime = record {
  sleeping = λ u s. refl;
  removing = λ q s. refl;
  running = λ line s. refl;
  signalling = λ pid s. refl;
  installing = λ p name rec binary_path data_dir s here. cc;
  uninstalling = λ p name s here. cc;
}

perform_waits_example :
    (perform context (Command.stop "web") live).1.os.slept
    ≤ 0 + sleep_limit {D = ℕ} (Command.stop "web")
perform_waits_example =
    perform_waits context (λ s. s.slept) machine-IsSleepTime (Command.stop "web") live

-- Process 0, which is never signalled.
machine-IsCalm : IsCalm context (λ s. s.living 0 ≡ true)
machine-IsCalm = record {
  removing = λ q s h. h;
  running = λ line s h. ground (arith, h);
  signalling = λ pid s positive h. ground (arith, h, positive);
  installing = λ p name rec binary_path data_dir s here h. cc;
  uninstalling = λ p name s here h. cc;
}

abbrev crowded : World context
crowded = record live { os = record idle { living = λ n. true } }

perform_signals_example : (perform context (Command.stop "web") crowded).1.os.living 0 ≡ true
perform_signals_example =
    perform_signals context (λ s. s.living 0 ≡ true) (Command.stop "web") crowded machine-IsCalm
      (λ u s h. h) refl

cmd_list-listing_example :
    ((cmd_list context live).0 ≡ 0)
    × ((cmd_list context live).1.out
        ≡ "" <> listing context (observed context live) (list_services live.db).0)
cmd_list-listing_example = cmd_list-listing context live refl
