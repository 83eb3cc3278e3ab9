-- ===== src/DataDir.antt =====
-- src/data_dir.cc: where the program keeps its data when the command line does not say.
use frequent_cron.Base.{
  String, ◌<>◌, Bool, true, ◌||◌, Option, none, some, ◌==◌, string_eq, nat_eq, if◌then◌else◌,
}
use Prim.Native.Char.{code}
use frequent_cron.Paths.{◌//◌}

-- The builds whose paths are texts with slashes: __APPLE__, and Linux with FreeBSD.
pub data Build : Type 0 where
  apple unix : Build

-- What data_dir::get_default asks of the system: getuid() == 0, two environment variables, and the
-- home directory of getpwuid.
pub record Environment : Type 0 where
  pub build : Build
  pub is_root : Bool
  pub xdg_data_home : Option String
  pub home : Option String
  pub pw_dir : Option String

-- home, where getenv( "HOME" ) may have found nothing and getpwuid( getuid() ) nobody
abbrev pub pw_home : Option String → String
pw_home none = "/tmp"
pw_home (some dir) = dir

unfoldable pub home_dir : Option String → Option String → String
home_dir none pw_dir = pw_home pw_dir
home_dir (some home) pw_dir = home

unfoldable pub apple_dir : Environment → String
apple_dir env =
    home_dir env.home env.pw_dir // "Library" // "Application Support" // "frequent-cron"

abbrev pub share_dir : Environment → String
share_dir env = home_dir env.home env.pw_dir // ".local" // "share" // "frequent-cron"

unfoldable pub xdg_dir : Option String → String → String
xdg_dir none otherwise = otherwise
xdg_dir (some xdg) otherwise = if xdg == "" then otherwise else xdg // "frequent-cron"

unfoldable pub unix_dir : Environment → String
unix_dir env =
    if env.is_root then "/var/lib/frequent-cron" else xdg_dir env.xdg_data_home (share_dir env)

-- data_dir::get_default
unfoldable pub get_default : Environment → String
get_default env = elim env.build [ apple ↦ apple_dir env | unix ↦ unix_dir env ]

-- Whether a path of Windows needs no separator before a file's name: it is empty, or ends in one, or
-- is the name of a drive.
unfoldable pub is_open : String → Bool
is_open String.[] = true
is_open (String.◌∷◌ c String.[]) = code c == b'/' || code c == b'\\' || code c == b':'
is_open (String.◌∷◌ c (String.◌∷◌ c' s)) = is_open (String.◌∷◌ c' s)

-- data_dir::get_default on Windows, from getenv( "LOCALAPPDATA" )
unfoldable pub windows_dir : Option String → String
windows_dir none = "C:\\ProgramData\\frequent-cron"
windows_dir (some dir) = if is_open dir then dir <> "frequent-cron" else dir <> "\\frequent-cron"
