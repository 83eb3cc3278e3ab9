-- ===== src/Registry/World.antt =====
-- What a command of the registry works on: the operating system, the database, and the two output
-- streams. A command is an action, which returns its result beside the new world.
use frequent_cron.Base.{String, ◌<>◌, Bool, Option, none, some, string_eq, nat_eq}
use frequent_cron.External.{Double, Os}
use frequent_cron.Database.{Database, ServiceRecord}

-- What a method of the platform's service manager reports and prints.
pub record PlatformReply : Type 0 where
  pub done : Bool
  pub out : String
  pub err : String

-- `PlatformService` of include/platform_service.h; the registry calls the first two.
pub record PlatformService (D : Type 0) (o : Os) : Type 0 where
  pub install : String → ServiceRecord D → String → String → o.State → PlatformReply × o.State
  pub uninstall : String → o.State → PlatformReply × o.State
  pub start : String → o.State → PlatformReply × o.State
  pub stop : String → o.State → PlatformReply × o.State

-- The members of `ServiceRegistry` that no command changes; `platform_` may be null.
pub record Context (D : Type 0) : Type 1 where
  pub double : Double D
  pub os : Os
  pub platform : Option (PlatformService D os)
  pub data_dir : String

pub record World {D : Type 0} (c : Context D) : Type 0 where
  pub os : c.os.State
  pub db : Database D
  pub out : String
  pub err : String

abbrev pub Action : {D : Type 0} → Context D → Type 0 → Type 0
Action c A = World c → A × World c

infixl 5 ◌>>=◌ ◌>>◌
abbrev pub ◌>>=◌ :
    {D : Type 0} {c : Context D} {A B : Type 0} → Action c A → (A → Action c B) → Action c B
◌>>=◌ m f w = let (a, w') = m w in f a w'

abbrev pub ◌>>◌ : {D : Type 0} {c : Context D} {A B : Type 0} → Action c A → Action c B → Action c B
m >> k = m >>= λ _. k

module _ {D : Type 0} (c : Context D) where
  abbrev pub pure : {A : Type 0} → A → Action c A
  pure a w = (a, w)

  -- Whether an optional value is there.
  abbrev pub on_option : {A B : Type 0} → Option A → Action c B → (A → Action c B) → Action c B
  on_option none missing there = missing
  on_option (some a) missing there = there a

  -- std::cout << text, std::cerr << text
  unfoldable pub say : String → Action c (Unit {0})
  say text w = (tt, record w { out = w.out <> text })

  unfoldable pub complain : String → Action c (Unit {0})
  complain text w = (tt, record w { err = w.err <> text })

  -- A method of `db_`.
  unfoldable pub on_db : {A : Type 0} → (Database D → A × Database D) → Action c A
  on_db f w = let (a, db) = f w.db in (a, record w { db = db })

  -- A system call that changes the system's state, one that returns a value too, and one that only
  -- looks.
  unfoldable pub on_os : (c.os.State → c.os.State) → Action c (Unit {0})
  on_os f w = (tt, record w { os = f w.os })

  unfoldable pub call_os : {A : Type 0} → (c.os.State → A × c.os.State) → Action c A
  call_os f w = let (a, s) = f w.os in (a, record w { os = s })

  unfoldable pub ask_os : {A : Type 0} → (c.os.State → A) → Action c A
  ask_os f w = (f w.os, w)

  -- A call of the platform's service manager, whose result the registry does not look at.
  unfoldable pub on_platform :
      (PlatformService D c.os → c.os.State → PlatformReply × c.os.State) → Action c (Unit {0})
  on_platform f w = elim c.platform [
    | none ↦ (tt, w)
    | some p ↦
        let (reply, s) = f p w.os in
        (tt, record w { os = s; out = w.out <> reply.out; err = w.err <> reply.err })
  ]
