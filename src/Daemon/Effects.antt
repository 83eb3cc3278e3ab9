-- ===== src/Daemon/Effects.antt =====
-- What the daemon has of its descriptors, its session and its working directory.
use frequent_cron.Base.{
  ℕ, ◌≡◌, ◌≢◌, ◌↔◌, inl, inr, refl, sym, ap, ◌∙◌, ◌<◌, String, ◌<>◌, true, false, ◌||◌, Option,
  none, some, arith, ◌==◌, string_eq, nat_eq, Bool-cases, if_cases, string_discrete, ℕ_discrete,
}
use Prim.Native.Char.{code}
use text.Mathlib.TextLemmas.{nil-append, append_cancel_right}
use frequent_cron.Paths.{is_absolute, ends_slash, ◌//◌, pid_path}
use frequent_cron.Paths.Distinct.{is_absolute-cons}
use frequent_cron.Daemon.{
  Process, Answers, in_child, goes_on, null_device, setsid, chdir_root, dup2, redirect, after_fork,
  daemonize, resolve,
}

-- A daemon made of a process: it leads a session, works in the root directory, and has its three
-- standard streams at the null device; every other descriptor is as it was.
pub record IsDaemonOf (p q : Process) : Type 0 where
  pub in_root : q.cwd ≡ "/"
  pub leads : q.leads_session ≡ true
  pub streams : (n : ℕ) → n < 3 → q.fds n ≡ some null_device
  pub others : (n : ℕ) → 2 < n → q.fds n ≡ p.fds n

redirect-streams :
    (fd n : ℕ) (p : Process) → n < 3 → (redirect (some fd) p).fds n ≡ some null_device
unfolding redirect dup2
redirect-streams fd n p lt = ground arith

redirect-others :
    (fd n : ℕ) (p : Process) → p.fds fd ≡ none → 2 < n → (redirect (some fd) p).fds n ≡ p.fds n
unfolding redirect dup2
redirect-others fd n p free gt = ground arith

redirect-rest :
    (fd : Option ℕ) (p : Process)
    → ((redirect fd p).cwd ≡ p.cwd) × ((redirect fd p).leads_session ≡ p.leads_session)
unfolding redirect dup2
redirect-rest fd p = ground arith

-- Where `fork` is in the child, `setsid` and `chdir` succeed, and `open` of the null device gives a
-- descriptor that was free, `daemonize` goes on as a daemon made of the process that called it. The
-- descriptor may be one of the three standard ones; a fourth one is closed again.
pub daemonize-IsDaemonOf :
    (answers : Answers) (fd : ℕ) (p : Process)
    → answers.fork ≡ in_child
    → answers.session_made ≡ true
    → answers.root_entered ≡ true
    → answers.null_opened ≡ some fd
    → p.fds fd ≡ none
    → (q : Process) × (daemonize answers p ≡ goes_on q) × IsDaemonOf p q
unfolding daemonize after_fork setsid chdir_root
daemonize-IsDaemonOf answers fd p child session root opened free =
    let moved : Process = record p { leads_session = true; cwd = "/" } in
    let rest = redirect-rest (some fd) moved in
    (
      redirect (some fd) moved,
      simp (child, session, root, opened) refl,
      record {
        in_root = rest.0;
        leads = rest.1;
        streams = λ n lt. redirect-streams fd n moved lt;
        others = λ n gt. redirect-others fd n moved free gt;
      },
    )

pub is_absolute-join :
    (dir s : String) → is_absolute s ≡ false → is_absolute (dir // s) ≡ is_absolute dir
unfolding ◌//◌ is_absolute string_discrete
is_absolute-join String.[] s relative = simp (relative, nil-append) refl
is_absolute-join (String.◌∷◌ c dir) s relative = simp relative (
    if_cases (λ path. is_absolute path ≡ (code c == b'/'))
      (String.◌∷◌ c dir == "" || ends_slash (String.◌∷◌ c dir)) _ _ (λ _. is_absolute-cons c dir s)
      (λ _. is_absolute-cons c dir ("/" <> s)))

-- The PID file is below the data directory, where the name of the service is not a path itself.
is_absolute-pid_path :
    (dir name : String)
    → is_absolute name ≡ false
    → is_absolute (pid_path dir name) ≡ is_absolute dir
unfolding pid_path is_absolute ℕ_discrete
is_absolute-pid_path dir String.[] plain =
    is_absolute-join (dir // "pids") ("" <> ".pid") (ap is_absolute (nil-append ".pid"))
    ∙ is_absolute-join dir "pids" refl
is_absolute-pid_path dir (String.◌∷◌ c name) plain =
    is_absolute-join (dir // "pids") (String.◌∷◌ c name <> ".pid")
      (is_absolute-cons c name ".pid" ∙ plain)
    ∙ is_absolute-join dir "pids" refl

root_apart :
    (cwd path : String)
    → cwd ≢ ""
    → ends_slash cwd ≡ false
    → is_absolute path ≡ false
    → "/" // path ≢ cwd // path
unfolding ◌//◌ ends_slash string_discrete ℕ_discrete
root_apart cwd path there bare relative h =
    let joined : "/" // path ≡ cwd <> ("/" <> path) = h ∙ ground (arith, there, bare, relative) in
    let slashed : "/" <> path ≡ cwd <> ("/" <> path) = simp relative at joined in
    there (sym (append_cancel_right "" cwd ("/" <> path) (nil-append ("/" <> path) ∙ slashed)))

-- Where the working directory of the process that calls `daemonize` is neither empty nor ends in a
-- slash, and the name of a service does not begin with one, the daemon finds the PID file of that
-- service where the caller finds it just if the data directory is an absolute path.
pub daemonize-pid_path :
    (p q : Process) (data_dir name : String)
    → IsDaemonOf p q
    → p.cwd ≢ ""
    → ends_slash p.cwd ≡ false
    → is_absolute name ≡ false
    → (resolve q (pid_path data_dir name) ≡ resolve p (pid_path data_dir name))
      ↔ (is_absolute data_dir ≡ true)
unfolding ◌//◌
daemonize-pid_path p q data_dir name daemon there bare plain =
    let path = pid_path data_dir name in
    let same = is_absolute-pid_path data_dir name plain in
    let root : resolve q path ≡ "/" // path = ap (λ dir. dir // path) daemon.in_root in
    elim (Bool-cases (is_absolute path)) [
      | inl absolute ↦ (λ h. sym same ∙ absolute, λ h. simp absolute refl)
      | inr relative ↦ (
        λ h. absurd (root_apart p.cwd path there bare relative (sym root ∙ h)),
        λ h. absurd (ground (arith, same, h, relative)),
      )
    ]
