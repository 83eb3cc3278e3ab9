-- ===== src/Platform/Keeping.antt =====
-- What the classes that keep a file for each service rely on of the system, and what they promise.
use frequent_cron.Base.{
  ◌≡◌, String, ◌<>◌, true, false, ◌&&◌, some, ◌==◌, string_eq, nat_eq, if◌then◌else◌,
}
use text.Mathlib.TextLemmas.{append_assoc}
use frequent_cron.External.{Os}
use frequent_cron.Platform.{Host}
use frequent_cron.Paths.{pid_path}
use frequent_cron.Database.{ServiceRecord}
use frequent_cron.Registry.World.{PlatformService}

-- A file is there and has the text that was written to it, where it could be opened; the other files, and every
-- file where it could not, have what they had. Neither a new directory nor a permission changes what
-- a file has.
pub record IsWriting {o : Os} (host : Host o) : Type 0 where
  pub written :
      (p q text : String) (s : o.State)
      → o.read q (host.write_file p text s).1
        ≡ (if (host.write_file p text s).0 && p == q then some (host.bytes text) else o.read q s)
  pub exists_written :
      (p q text : String) (s : o.State)
      → o.exists q (host.write_file p text s).1
        ≡ (if (host.write_file p text s).0 && p == q then true else o.exists q s)
  pub directories :
      (p q : String) (s : o.State) → o.read q (host.create_directories p s) ≡ o.read q s
  pub permissions : (p q : String) (s : o.State) → o.read q (host.add_exec p s) ≡ o.read q s

-- The commands of a tool, which begin with its name, leave the file `q` alone.
pub record IsQuiet (o : Os) (tool q : String) : Type 0 where
  pub same_exists :
      (rest : String) (s : o.State) → o.exists q (o.system (tool <> rest) s).1 ≡ o.exists q s
  pub same_read :
      (rest : String) (s : o.State) → o.read q (o.system (tool <> rest) s).1 ≡ o.read q s

module _ {o : Os} {tool q : String} (quiet : IsQuiet o tool q) where
  pub exists_after :
      (verb rest : String) (s : o.State)
      → o.exists q (o.system ((tool <> verb) <> rest) s).1 ≡ o.exists q s
  exists_after verb rest s = rw (append_assoc tool verb rest) (quiet.same_exists (verb <> rest) s)

  pub read_after :
      (verb rest : String) (s : o.State)
      → o.read q (o.system ((tool <> verb) <> rest) s).1 ≡ o.read q s
  read_after verb rest s = rw (append_assoc tool verb rest) (quiet.same_read (verb <> rest) s)

module _ {D : Type 0} {o : Os} (host : Host o) where
  -- A service manager that keeps a file of its own for each service, with the text `text`. `Q` are
  -- the files that its tools leave alone.
  pub record IsManaging (p : PlatformService D o) (file : String → String)
      (text : String → ServiceRecord D → String → String → String) (Q : String → Type 0)
      : Type 0 where
    pub file-injective : (m n : String) → file m ≡ file n → m ≡ n
    -- After `uninstall` the file is gone, and the other files are as before.
    pub uninstall_exists :
        (name q : String) (s : o.State)
        → Q q
        → o.exists q (p.uninstall name s).1 ≡ (if file name == q then false else o.exists q s)
    -- After an `install` that reports success, the file has the text; where it reports a failure, and
    -- in the other files, all is as before.
    pub install_read :
        (name : String) (rec : ServiceRecord D) (binary_path data_dir q : String) (s : o.State)
        → Q q
        → let after = p.install name rec binary_path data_dir s in
          o.read q after.1 ≡ (
            if after.0.done && file name == q
            then some (host.bytes (text name rec binary_path (pid_path data_dir name)))
            else o.read q s)
