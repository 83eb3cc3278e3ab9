-- ===== src/Daemon.antt =====
-- src/daemonize.cc, in the POSIX build: how the process that was started becomes a daemon.
pub mod Effects
pub mod Defaults
use frequent_cron.Base.{
  ℕ, String, Bool, true, false, Option, none, some, ◌==◌, nat_eq, if◌then◌else◌, ltb,
}
use frequent_cron.Paths.{◌//◌}

-- An open file, as far as a descriptor refers to it.
pub data OpenFile : Type 0 where
  null_device : OpenFile
  another : ℕ → OpenFile

-- What a process has of what `daemonize` touches: its open descriptors, its working directory, and
-- whether it leads a session.
pub record Process : Type 0 where
  pub fds : ℕ → Option OpenFile
  pub cwd : String
  pub leads_session : Bool

pub data Fork : Type 0 where
  fork_failed in_parent in_child : Fork

-- What the system calls answer: `fork`, and whether `setsid` and chdir( "/" ) succeed; the descriptor
-- that `open` of /dev/null gives, if it gives one.
pub record Answers : Type 0 where
  pub fork : Fork
  pub session_made : Bool
  pub root_entered : Bool
  pub null_opened : Option ℕ

pub data Outcome : Type 0 where
  -- the result false; _exit( 0 ); the result true in a process that goes on
  refused : Outcome
  left : Outcome
  goes_on : Process → Outcome

abbrev set_fd : ℕ → Option OpenFile → Process → Process
set_fd n file p = record p { fds = λ m. if m == n then file else p.fds m }

unfoldable pub setsid : Bool → Process → Process
setsid made p = if made then record p { leads_session = true } else p

unfoldable pub chdir_root : Bool → Process → Process
chdir_root entered p = if entered then record p { cwd = "/" } else p

-- dup2: a descriptor that is not open is refused.
unfoldable pub dup2 : ℕ → ℕ → Process → Process
dup2 old new p = elim (p.fds old) [ none ↦ p | some file ↦ set_fd new (some file) p ]

-- From `open` on.
unfoldable pub redirect : Option ℕ → Process → Process
redirect none p = p
redirect (some fd) p =
    let opened = set_fd fd (some null_device) p in
    let redirected = dup2 fd 2 (dup2 fd 1 (dup2 fd 0 opened)) in
    if ltb 2 fd then set_fd fd none redirected else redirected

unfoldable pub after_fork : Fork → Answers → Process → Outcome
after_fork fork_failed answers p = refused
after_fork in_parent answers p = left
after_fork in_child answers p =
    goes_on (
      redirect answers.null_opened
        (chdir_root answers.root_entered (setsid answers.session_made p)))

unfoldable pub daemonize : Answers → Process → Outcome
daemonize answers p = after_fork answers.fork answers p

-- The file that a process finds at a path.
abbrev pub resolve : Process → String → String
resolve p path = p.cwd // path
