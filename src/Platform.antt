-- ===== src/Platform.antt =====
-- src/platform_service.cc: the service managers of the four platforms. This module has what their
-- classes share: the system that they work on, the way they report, and pieces of text.
pub mod Systemd
pub mod Launchd
pub mod Rcd
pub mod Scm
pub mod Keeping
pub mod Units
pub mod Create
use Prim.Native.Char.{code}
use Prim.Native.String
use frequent_cron.Base.{
  ℕ, String, ◌<>◌, Bool, false, Option, none, some, List, ◌==◌, ◌&&◌, ◌||◌, string_eq, nat_eq,
  if◌then◌else◌,
}
use frequent_cron.Base.Int.{ℤ, pos, negsuc}
use frequent_cron.External.{Double, Os}
use frequent_cron.Arguments.{arguments_text, optional_arguments}
use frequent_cron.Database.{ServiceRecord}
use frequent_cron.Registry.World.{PlatformReply}

-- What the classes ask of the system beyond `Os`.
pub record Host (o : Os) : Type 0 where
  -- getuid() == 0, getenv( "HOME" ), and the home directory of getpwuid( getuid() )
  pub is_root : Bool
  pub home : Option String
  pub pw_dir : Option String
  -- the bytes of a text
  pub bytes : String → List ℕ
  -- std::filesystem::create_directories, and permissions with perm_options::add
  pub create_directories : String → o.State → o.State
  pub add_exec : String → o.State → o.State
  -- opening a std::ofstream, which empties the file, and writing the text; false where it cannot be
  -- opened
  pub write_file : String → String → o.State → Bool × o.State

-- What a method is doing: the system, and what was printed so far.
pub record Progress (o : Os) : Type 0 where
  pub os : o.State
  pub out : String
  pub err : String

abbrev pub Job : Os → Type 0 → Type 0
Job o A = Progress o → A × Progress o

infixl 5 ◌>>=◌ ◌>>◌
abbrev pub ◌>>=◌ : {o : Os} {A B : Type 0} → Job o A → (A → Job o B) → Job o B
◌>>=◌ m f w = let (a, w') = m w in f a w'

abbrev pub ◌>>◌ : {o : Os} {A B : Type 0} → Job o A → Job o B → Job o B
m >> k = m >>= λ _. k

module _ (o : Os) where
  abbrev pub pure : {A : Type 0} → A → Job o A
  pure a w = (a, w)

  -- A call that changes the system, one that answers too, and one that only looks.
  abbrev pub change : (o.State → o.State) → Job o (Unit {0})
  change f w = (tt, record w { os = f w.os })

  abbrev pub call : {A : Type 0} → (o.State → A × o.State) → Job o A
  call f w = let (a, s) = f w.os in (a, record w { os = s })

  abbrev pub ask : {A : Type 0} → (o.State → A) → Job o A
  ask f w = (f w.os, w)

  -- std::cout << text, std::cerr << text
  abbrev pub print : String → Job o (Unit {0})
  print text w = (tt, record w { out = w.out <> text })

  abbrev pub print_error : String → Job o (Unit {0})
  print_error text w = (tt, record w { err = w.err <> text })

  -- system( command ) whose result is dropped, and system( command ) == 0
  abbrev pub run : String → Job o (Unit {0})
  run command w = let (rc, s) = o.system command w.os in (tt, record w { os = s })

  abbrev pub succeeds : ℤ → Bool
  succeeds (pos n) = n == 0
  succeeds (negsuc n) = false

  abbrev pub run_ok : String → Job o Bool
  run_ok command w = let (rc, s) = o.system command w.os in (succeeds rc, record w { os = s })

  -- A method of the interface.
  abbrev pub reply : Job o Bool → o.State → PlatformReply × o.State
  reply m s =
      let (done, w) = m (record { os = s; out = ""; err = "" }) in
      (record { done = done; out = w.out; err = w.err }, w.os)

-- std::quoted: a quote or a backslash inside has a backslash before it.
unfoldable pub escaped : String → String
escaped String.[] = ""
escaped (String.◌∷◌ c s) =
    (if code c == b'"' || code c == b'\\' then "\\" else "") <> String.◌∷◌ c (escaped s)

-- `<<` of a std::filesystem::path
unfoldable pub path_text : String → String
path_text p = "\"" <> escaped p <> "\""

-- What stands before the last slash, if there is one.
unfoldable pub before_last_slash : String → Option String
before_last_slash String.[] = none
before_last_slash (String.◌∷◌ c s) = elim (before_last_slash s) [
  | some p ↦ some (String.◌∷◌ c p)
  | none ↦ if code c == b'/' then some "" else none
]

-- path::parent_path: without the last component and the slashes before it, except for the root.
unfoldable pub strip_slashes : String → String
strip_slashes String.[] = ""
strip_slashes (String.◌∷◌ c s) =
    let rest = strip_slashes s in if code c == b'/' && rest == "" then "" else String.◌∷◌ c rest

abbrev pub root_if_empty : String → String
root_if_empty p = if p == "" then "/" else p

unfoldable pub parent_path : String → String
parent_path p = elim (before_last_slash p) [ none ↦ "" | some q ↦ root_if_empty (strip_slashes q) ]

-- const char* home = getenv( "HOME" ); …: the variable, the directory of getpwuid, or /tmp
unfoldable pub home_of : Option String → Option String → String
home_of (some home) pw_dir = home
home_of none (some dir) = dir
home_of none none = "/tmp"

-- The options that the three Unix classes and the Windows one pass on where they differ from the
-- default.
unfoldable pub option_text : {D : Type 0} → Double D → ServiceRecord D → String
option_text d rec = arguments_text d (optional_arguments d rec)
