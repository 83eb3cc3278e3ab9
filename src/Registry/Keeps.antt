-- ===== src/Registry/Keeps.antt =====
-- What every command keeps of the database, whatever the system and SQLite answer.
pub mod Commands
use frequent_cron.Base.{
  ℕ, zero, suc, ◌≡◌, refl, String, Bool, true, false, Option, none, some, arith, if◌then◌else◌,
}
use mathlib.Core.Option
use frequent_cron.Database.{
  Database, ServiceRecord, ServiceState, get_state, update_state, get_service, insert_service,
  remove_service,
}
use frequent_cron.Registry.World.{
  ◌>>=◌, Context, World, Action, PlatformService, PlatformReply, pure, say, complain, on_db, on_os,
  call_os, ask_os, on_platform, on_option,
}
use frequent_cron.Registry.Stop.{wait_until}

module _ {D : Type 0} (c : Context D) where
  pub db-on_platform :
      (f : PlatformService D c.os → c.os.State → PlatformReply × c.os.State) (w : World c)
      → (on_platform c f w).1.db ≡ w.db
  unfolding on_platform
  db-on_platform f w = ground arith

  pub db-wait_until :
      (n : ℕ) (test : c.os.State → Bool) (w : World c) → (wait_until c n test w).1.db ≡ w.db
  unfolding wait_until
  db-wait_until zero test w = refl
  db-wait_until (suc n) test w =
      ground (arith, db-wait_until n test (record w { os = c.os.sleep 100000 w.os }))

module _ {D : Type 0} (c : Context D) (P : Database D → Type 0) where
  -- From a database with `P` the action leaves one with `P`.
  pub record Keeps {A : Type 0} (m : Action c A) : Type 0 where
    pub at : (w : World c) → P w.db → P (m w).1.db

  pub Keeps-pure : {A : Type 0} (a : A) → Keeps (pure c a)
  Keeps-pure a = record { at = λ w h. h }

  pub Keeps-bind :
      {A B : Type 0} (m : Action c A) (f : A → Action c B)
      → Keeps m
      → ((a : A) → Keeps (f a))
      → Keeps (m >>= f)
  Keeps-bind m f km kf = record { at = λ w h. (kf (m w).0).at (m w).1 (km.at w h) }

  pub Keeps-if :
      {A : Type 0} (b : Bool) (m n : Action c A) → Keeps m → Keeps n → Keeps (if b then m else n)
  Keeps-if true m n km kn = km
  Keeps-if false m n km kn = kn

  pub Keeps-on_option :
      {A B : Type 0} (o : Option A) (m : Action c B) (f : A → Action c B)
      → Keeps m
      → ((a : A) → Keeps (f a))
      → Keeps (on_option c o m f)
  Keeps-on_option none m f km kf = km
  Keeps-on_option (some a) m f km kf = kf a

  pub Keeps-say : (text : String) → Keeps (say c text)
  unfolding say
  Keeps-say text = record { at = λ w h. h }

  pub Keeps-complain : (text : String) → Keeps (complain c text)
  unfolding complain
  Keeps-complain text = record { at = λ w h. h }

  pub Keeps-on_os : (f : c.os.State → c.os.State) → Keeps (on_os c f)
  unfolding on_os
  Keeps-on_os f = record { at = λ w h. h }

  pub Keeps-call_os : {A : Type 0} (f : c.os.State → A × c.os.State) → Keeps (call_os c f)
  unfolding call_os
  Keeps-call_os f = record { at = λ w h. h }

  pub Keeps-ask_os : {A : Type 0} (f : c.os.State → A) → Keeps (ask_os c f)
  unfolding ask_os
  Keeps-ask_os f = record { at = λ w h. h }

  pub Keeps-on_platform :
      (f : PlatformService D c.os → c.os.State → PlatformReply × c.os.State)
      → Keeps (on_platform c f)
  Keeps-on_platform f = record { at = λ w h. rw (db-on_platform c f w) h }

  pub Keeps-wait_until : (n : ℕ) (test : c.os.State → Bool) → Keeps (wait_until c n test)
  Keeps-wait_until n test = record { at = λ w h. rw (db-wait_until c n test w) h }

  pub Keeps-on_db :
      {A : Type 0} (f : Database D → A × Database D)
      → ((db : Database D) → P db → P (f db).1)
      → Keeps (on_db c f)
  unfolding on_db
  Keeps-on_db f keep = record { at = λ w h. keep w.db h }

  -- The methods that every command on `name` calls keep `P`.
  pub record IsUpdating (name : String) : Type 0 where
    pub get_service-P : (n : String) (db : Database D) → P db → P (get_service n db).1
    pub get_state-P : (n : String) (db : Database D) → P db → P (get_state n db).1
    pub update_state-P :
        (st : ServiceState) (db : Database D) → P db → P (update_state name st db).1

  -- So do those that `remove` and `install` call.
  pub record IsStable (name : String) : Type 0 where
    pub updating : IsUpdating name
    pub remove_service-P : (db : Database D) → P db → P (remove_service name db).1
    pub insert_service-P :
        (rec : ServiceRecord D) (db : Database D)
        → rec.name ≡ name
        → P db
        → P (insert_service rec db).1

  pub ruleset keeps_rules = (
    Keeps-pure, Keeps-bind, Keeps-if, Keeps-on_option, Keeps-say, Keeps-complain, Keeps-on_os,
    Keeps-call_os, Keeps-ask_os, Keeps-on_platform, Keeps-wait_until, Keeps-on_db,
  )
