-- ===== src/Registry/Commands.antt =====
-- Whole histories: the commands that change the database, one after the other.
use frequent_cron.Base.{ℕ, refl, String, List, string_eq, nat_eq}
use frequent_cron.Config.{Config}
use frequent_cron.Database.{Fault, Database}
use frequent_cron.Database.Validity.{
  IsValid, insert_service-IsValid, remove_service-IsValid, update_state-IsValid,
  get_service-IsValid, get_state-IsValid,
}
use frequent_cron.Registry.World.{Context, World, Action}
use frequent_cron.Registry.Install.{cmd_install}
use frequent_cron.Registry.Stop.{cmd_stop}
use frequent_cron.Registry.Remove.{cmd_remove}
use frequent_cron.Registry.Start.{cmd_start}
use frequent_cron.Process.{Bytes}
use frequent_cron.Registry.Report.Keeping.{Query, answer, answer-IsValid}
use frequent_cron.Registry.Keeps.{Keeps, IsStable}
use frequent_cron.Registry.Keeps.Commands.{
  cmd_install-Keeps, cmd_remove-Keeps, cmd_start-Keeps, cmd_stop-Keeps,
}

-- The subcommands that write to the database, as `main` hands them to the registry.
pub data Command (D : Type 0) : Type 0 where
  install : Config D → Command D
  remove start stop : String → Command D

-- The name that a command is about.
abbrev pub subject : {D : Type 0} → Command D → String
subject (install config) = config.service_name
subject (remove name) = name
subject (start name) = name
subject (stop name) = name

module _ {D : Type 0} (c : Context D) where
  unfoldable pub perform : Command D → Action c ℕ
  perform (install config) = cmd_install c config
  perform (remove name) = cmd_remove c name
  perform (start name) = cmd_start c name
  perform (stop name) = cmd_stop c name

  pub perform-Keeps :
      (P : Database D → Type 0) (command : Command D)
      → IsStable c P (subject command)
      → Keeps c P (perform command)
  unfolding perform
  perform-Keeps P (install config) stable =
      cmd_install-Keeps c P _ stable.updating stable config refl
  perform-Keeps P (remove name) stable = cmd_remove-Keeps c P name stable.updating stable
  perform-Keeps P (start name) stable = cmd_start-Keeps c P name stable.updating
  perform-Keeps P (stop name) stable = cmd_stop-Keeps c P name stable.updating

  -- The world after a command, and a world that commands lead to. Between two commands, the system
  -- may change at will, and SQLite may refuse other statements.
  pub data Reach (w : World c) : World c → Type 0 where
    here : Reach w w
    command : {u : World c} (k : Command D) → Reach w u → Reach w (perform k u).1
    query :
        {u : World c} (decode : Bytes → String) (q : Query)
        → Reach w u
        → Reach w (answer c decode q u).1
    elsewhere :
        {u : World c} (s : c.os.State) (faults : List Fault) (now : String)
        → Reach w u
        → Reach w (record u { os = s; db = record u.db { faults = faults; now = now } })

  IsValid-IsStable : (name : String) → IsStable c IsValid name
  IsValid-IsStable name = record {
    updating = record {
      get_service-P = get_service-IsValid;
      get_state-P = get_state-IsValid;
      update_state-P = update_state-IsValid name;
    };
    remove_service-P = remove_service-IsValid name;
    insert_service-P = λ rec db h. insert_service-IsValid rec db;
  }

  -- From consistent tables, whatever commands are given, in whatever order, those that print too,
  -- and whatever the operating system and SQLite do in between and during them, the tables stay
  -- consistent.
  pub Reach-IsValid : {w u : World c} → IsValid w.db → Reach w u → IsValid u.db
  Reach-IsValid v here = v
  Reach-IsValid v (command k r) =
      (perform-Keeps IsValid k (IsValid-IsStable (subject k))).at _ (Reach-IsValid v r)
  Reach-IsValid v (query decode q r) = answer-IsValid c decode q _ (Reach-IsValid v r)
  Reach-IsValid v (elsewhere s faults now r) =
      let h = Reach-IsValid v r in
      record {
        unique_services = h.unique_services;
        unique_states = h.unique_states;
        foreign_key = h.foreign_key;
      }
