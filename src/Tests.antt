-- ===== src/Tests.antt =====
-- Concrete instances of what is outside the program, for the examples of the child modules: doubles
-- as thousandths, a generator that counts, and a small operating system.
pub mod Timer
pub mod Shell
pub mod CommandLine
pub mod Services
pub mod Logs
pub mod Processes
pub mod Platforms
pub mod Schemas
pub mod Programs
use frequent_cron.Base.{
  ℕ, ◌+◌, ◌*◌, ◌/◌, ◌%◌, String, Bool, true, false, ◌||◌, Option, none, some, List, [], ◌∷◌, arith,
  ◌==◌, string_eq, nat_eq, if◌then◌else◌, ltb, leb,
}
use frequent_cron.Base.Int.{ℤ, pos, pos_part}
use frequent_cron.Base.Decimal.{decimal}
use frequent_cron.External.{Double, Random, IsUniform, Os, IsRemoving}
use frequent_cron.Database.{Database, ServiceRow, StateRow, ServiceRecord, default_state}
use frequent_cron.Registry.World.{Context, World}

-- A number of thousandths.
abbrev pub permille : Double ℕ
permille = record {
  nought = 0;
  one = 1000;
  lt = ltb;
  le = leb;
  of_int = λ z. pos_part z * 1000;
  round = λ x. pos ((x + 500) / 1000);
  print = decimal;
}

-- The generator counts its draws; every other draw is the lower limit, or half of the range.
abbrev pub counting : Random ℕ
counting = record {
  State = ℕ;
  uniform_int = λ lo hi g. (if g % 2 == 0 then hi else lo, g + 1);
  normal = λ mean sd g. (if g % 2 == 0 then mean + 3 * sd else mean, g + 1);
  uniform_real = λ lo hi g. (if g % 2 == 0 then hi / 2 else lo, g + 1);
}

pub counting-IsUniform : IsUniform counting
counting-IsUniform = record { within = λ lo hi g h. ground arith }

-- Files by path, the processes that are alive, the directories, and the microseconds that were slept.
pub record Machine : Type 0 where
  pub files : String → Option (List ℕ)
  pub living : ℕ → Bool
  pub dirs : String → Bool
  pub slept : ℕ

abbrev pub has_file : String → Machine → Bool
has_file p s = elim (s.files p) [ none ↦ false | some content ↦ true ]

abbrev pub unlink : String → Machine → Machine
unlink p s = record s { files = λ q. if p == q then none else s.files q }

-- The shell starts the daemon, which writes its PID.
abbrev pub launch : String → Machine → ℤ × Machine
launch line s = (
  pos 0,
  record {
    files = λ q. if q == "/data/pids/web.pid" then some (b'4' ∷ b'2' ∷ []) else s.files q;
    living = λ n. (n == 42) || s.living n;
    dirs = s.dirs;
    slept = s.slept;
  },
)

abbrev pub machine : Os
machine = record {
  State = Machine;
  exists = has_file;
  remove = unlink;
  read = λ p s. s.files p;
  alive = λ pid s. s.living (pos_part pid);
  terminate = λ pid s. record s { living = λ n. if n == pos_part pid then false else s.living n };
  sleep = λ microseconds s. record s { slept = s.slept + microseconds };
  system = launch;
  self_exe = λ s. some "/usr/bin/frequent-cron";
}

pub machine-IsRemoving : IsRemoving machine
machine-IsRemoving = record { removed = λ p q s. ground arith }

abbrev pub context : Context ℕ
context = record { double = permille; os = machine; platform = none; data_dir = "/data" }

-- Process 42 is alive, and there are no files.
abbrev pub idle : Machine
idle = record { files = λ p. none; living = λ n. n == 42; dirs = λ p. false; slept = 0 }

abbrev pub web_row : ServiceRow ℕ
web_row = record {
  name = "web";
  command = "curl localhost";
  frequency_ms = pos 1000;
  synchronous = pos 1;
  jitter_ms = pos 50;
  jitter_distribution = "uniform";
  fire_probability = 1000;
  created_at = "day 1";
  updated_at = "day 1";
}

abbrev pub web_record : ServiceRecord ℕ
web_record = record {
  name = "web";
  command = "curl localhost";
  frequency_ms = pos 1000;
  synchronous = true;
  jitter_ms = pos 50;
  jitter_distribution = "uniform";
  fire_probability = 1000;
  created_at = "day 1";
  updated_at = "day 1";
}

abbrev pub empty_db : Database ℕ
empty_db = record { services = []; states = []; now = "day 2"; faults = [] }

-- One service, with a state.
abbrev pub db_with : StateRow → Database ℕ
db_with state = record empty_db { services = web_row ∷ []; states = state ∷ [] }

abbrev pub running_with : ℤ → StateRow
running_with pid = record (default_state "web") { status = "running"; pid = some pid }

abbrev pub world_with : Database ℕ → World context
world_with db = record { os = idle; db = db; out = ""; err = "" }
