-- ===== src/Paths.antt =====
-- `std::filesystem::path` as the program uses it: a text, with `/` to join two of them, and the
-- files that the program keeps for a service.
pub mod Distinct
use Prim.Native.Char.{code}
use Prim.Native.String
use frequent_cron.Base.{String, ◌<>◌, Bool, false, ◌||◌, ◌==◌, string_eq, nat_eq, if◌then◌else◌}
use frequent_cron.Base.Int.{ℤ}
use frequent_cron.Base.Decimal.{to_string}

-- Whether a path begins with a slash, and whether it ends in one.
unfoldable pub is_absolute : String → Bool
is_absolute String.[] = false
is_absolute (String.◌∷◌ c s) = code c == b'/'

unfoldable pub ends_slash : String → Bool
ends_slash String.[] = false
ends_slash (String.◌∷◌ c String.[]) = code c == b'/'
ends_slash (String.◌∷◌ c (String.◌∷◌ c' s)) = ends_slash (String.◌∷◌ c' s)

-- p / q: an absolute q takes the place of p.
infixl 60 ◌//◌
unfoldable pub ◌//◌ : String → String → String
p // q = if is_absolute q then q else if p == "" || ends_slash p then p <> q else p <> "/" <> q

-- log_dir / (name + ".log"), and the rotated files log_dir / (name + ".log." + to_string( i ))
unfoldable pub log_file : String → String → String
log_file log_dir name = log_dir // (name <> ".log")

unfoldable pub rotated_file : String → String → ℤ → String
rotated_file log_dir name i = log_dir // (name <> ".log." <> to_string i)

-- data_dir / "pids" / (name + ".pid")
unfoldable pub pid_path : String → String → String
pid_path data_dir name = data_dir // "pids" // (name <> ".pid")

-- data_dir / "logs" / …, as the registry names the same files
abbrev pub log_path : String → String → String
log_path data_dir name = log_file (data_dir // "logs") name

abbrev pub rotated_path : String → String → ℤ → String
rotated_path data_dir name i = rotated_file (data_dir // "logs") name i
