-- ===== src/Daemon/Defaults.antt =====
-- Where the daemon of src/daemonize.cc and the registry look for a PID file, over the directory that
-- `cmd_run` and `make_registry` of src/main.cc choose with src/data_dir.cc.
use frequent_cron.Base.{
  ◌≡◌, ◌≢◌, ◌↔◌, inl, inr, refl, sym, ◌∙◌, String, true, false, Option, none, some, arith, ◌==◌,
  string_eq, nat_eq, if◌then◌else◌, Bool-cases, ℕ_discrete,
}
use frequent_cron.External.{Double, Random}
use frequent_cron.Paths.{is_absolute, ends_slash, ◌//◌, pid_path}
use frequent_cron.Config.{Config}
use frequent_cron.DataDir.{
  Build, Environment, apple, unix, home_dir, apple_dir, share_dir, xdg_dir, unix_dir, get_default,
}
use frequent_cron.Main.{chosen_dir}
use frequent_cron.Daemon.{Process, resolve}
use frequent_cron.Daemon.Effects.{IsDaemonOf, is_absolute-join, daemonize-pid_path}

-- The directory that the system names, below which the default one is.
abbrev pub named_by : Option String → String → String
named_by none home = home
named_by (some xdg) home = if xdg == "" then home else xdg

abbrev pub named_dir : Environment → String
named_dir env = elim env.build [
  | apple ↦ home_dir env.home env.pw_dir
  | unix ↦
      if env.is_root then "/var/lib" else named_by env.xdg_data_home (home_dir env.home env.pw_dir)
]

-- The one that the command line names, if it names one.
abbrev pub stated_dir : {D : Type 0} → Environment → Config D → String
stated_dir env config = if config.data_dir == "" then named_dir env else config.data_dir

apple_dir-is_absolute :
    (env : Environment) → is_absolute (apple_dir env) ≡ is_absolute (home_dir env.home env.pw_dir)
unfolding apple_dir ◌//◌ is_absolute ℕ_discrete
apple_dir-is_absolute env =
    let home = home_dir env.home env.pw_dir in
    is_absolute-join (home // "Library" // "Application Support") "frequent-cron" refl
    ∙ is_absolute-join (home // "Library") "Application Support" refl
    ∙ is_absolute-join home "Library" refl

share_dir-is_absolute :
    (env : Environment) → is_absolute (share_dir env) ≡ is_absolute (home_dir env.home env.pw_dir)
unfolding is_absolute ℕ_discrete
share_dir-is_absolute env =
    let home = home_dir env.home env.pw_dir in
    is_absolute-join (home // ".local" // "share") "frequent-cron" refl
    ∙ is_absolute-join (home // ".local") "share" refl
    ∙ is_absolute-join home ".local" refl

xdg_dir-is_absolute :
    (xdg : Option String) (dir home : String)
    → is_absolute dir ≡ is_absolute home
    → is_absolute (xdg_dir xdg dir) ≡ is_absolute (named_by xdg home)
unfolding xdg_dir is_absolute ℕ_discrete
xdg_dir-is_absolute none dir home same = same
xdg_dir-is_absolute (some xdg) dir home same =
    let below = is_absolute-join xdg "frequent-cron" refl in ground (arith, same, below)

unix_dir-is_absolute :
    (env : Environment)
    → is_absolute (unix_dir env)
      ≡ is_absolute (
          if env.is_root
          then "/var/lib"
          else named_by env.xdg_data_home (home_dir env.home env.pw_dir))
unfolding unix_dir is_absolute ℕ_discrete
unix_dir-is_absolute env =
    let at =
      xdg_dir-is_absolute env.xdg_data_home (share_dir env) (home_dir env.home env.pw_dir)
        (share_dir-is_absolute env) in
    elim (Bool-cases env.is_root) [ inl root ↦ simp root refl | inr other ↦ simp other at ]

by_build :
    (b : Build) (x y x' y' : String)
    → is_absolute x ≡ is_absolute x'
    → is_absolute y ≡ is_absolute y'
    → is_absolute (elim b [ apple ↦ x | unix ↦ y ])
      ≡ is_absolute (elim b [ apple ↦ x' | unix ↦ y' ])
by_build apple x y x' y' h k = h
by_build unix x y x' y' h k = k

-- The default data directory is absolute just if the directory that the system names is.
pub get_default-is_absolute :
    (env : Environment) → is_absolute (get_default env) ≡ is_absolute (named_dir env)
unfolding get_default
get_default-is_absolute env =
    by_build env.build _ _ _ _ (apple_dir-is_absolute env) (unix_dir-is_absolute env)

chosen_dir-is_absolute :
    {D : Type 0} (d : Double D) (r : Random D) (env : Environment) (config : Config D)
    → is_absolute (chosen_dir d r env config) ≡ is_absolute (stated_dir env config)
unfolding chosen_dir
chosen_dir-is_absolute d r env config = elim (Bool-cases (config.data_dir == "")) [
  | inl unset ↦ simp unset (get_default-is_absolute env)
  | inr set ↦ simp set refl
]

-- Where the working directory of the process that calls `daemonize` is neither empty nor ends in a
-- slash, and the name of a service does not begin with one: the daemon finds the service's PID file
-- in the chosen data directory where the caller finds it, just if the directory that was stated is an
-- absolute path. That is the one of the command line; without it the home directory on macOS, and
-- elsewhere for a user that is not root XDG_DATA_HOME, or the home directory if that is unset or
-- empty. Root's is absolute.
pub daemonize-chosen_dir :
    {D : Type 0} (d : Double D) (r : Random D) (env : Environment) (config : Config D)
    (p q : Process) (name : String)
    → IsDaemonOf p q
    → p.cwd ≢ ""
    → ends_slash p.cwd ≡ false
    → is_absolute name ≡ false
    → let path = pid_path (chosen_dir d r env config) name in
      (resolve q path ≡ resolve p path) ↔ (is_absolute (stated_dir env config) ≡ true)
daemonize-chosen_dir d r env config p q name daemon there bare plain =
    let same = chosen_dir-is_absolute d r env config in
    let (to, from) =
      daemonize-pid_path p q (chosen_dir d r env config) name daemon there bare plain in
    (λ h. sym same ∙ to h, λ h. from (same ∙ h))
