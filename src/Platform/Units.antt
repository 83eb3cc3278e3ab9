-- ===== src/Platform/Units.antt =====
-- The three classes that keep a file for each service: what `uninstall` and `install` do to it.
use frequent_cron.Base.{
  ◌≡◌, inl, inr, String, ◌<>◌, false, ◌&&◌, some, arith, ◌==◌, string_eq, nat_eq, if◌then◌else◌,
  Bool-cases,
}
use frequent_cron.External.{Double, Os, IsRemoving}
use frequent_cron.Platform.{Host, reply, parent_path}
use frequent_cron.Platform.Keeping.{IsWriting, IsQuiet, exists_after}
use frequent_cron.Platform.Systemd
use frequent_cron.Platform.Launchd
use frequent_cron.Platform.Rcd

module _ {D : Type 0} (d : Double D) {o : Os} (host : Host o) (removing : IsRemoving o) where
  pub systemd_uninstall :
      (name q : String) (s : o.State)
      → IsQuiet o "systemctl " q
      → let unit = Systemd.get_unit_path host name in
        o.exists q ((Systemd.systemd_service d host).uninstall name s).1
        ≡ (if unit == q then false else o.exists q s)
  unfolding Systemd.systemd_service Systemd.uninstall
  systemd_uninstall name q s quiet =
      let unit = Systemd.get_unit_path host name in
      let svc = Systemd.get_service_name name in
      let s1 = (o.system ("systemctl stop " <> svc <> " 2>/dev/null") s).1 in
      let s2 = (o.system ("systemctl disable " <> svc <> " 2>/dev/null") s1).1 in
      let stopped : o.exists q s1 ≡ o.exists q s = exists_after quiet "stop " _ s in
      let disabled : o.exists q s2 ≡ o.exists q s1 = exists_after quiet "disable " _ s1 in
      let reloaded : o.exists q
            (o.system "systemctl daemon-reload 2>/dev/null" (o.remove unit s2)).1
          ≡ o.exists q (o.remove unit s2) =
        quiet.same_exists "daemon-reload 2>/dev/null" _ in
      elim (Bool-cases (o.exists unit s2)) [
        | inl there ↦
            simp there (ground (arith, stopped, disabled, reloaded, removing.removed unit q s2))
        | inr gone ↦ simp gone (ground (arith, stopped, disabled))
      ]

  pub launchd_uninstall :
      (name q : String) (s : o.State)
      → IsQuiet o "launchctl " q
      → let plist = Launchd.get_plist_path host name in
        o.exists q ((Launchd.launchd_service d host).uninstall name s).1
        ≡ (if plist == q then false else o.exists q s)
  unfolding Launchd.launchd_service Launchd.uninstall Launchd.stop
  launchd_uninstall name q s quiet =
      let plist = Launchd.get_plist_path host name in
      let s1 = (o.system ("launchctl unload \"" <> plist <> "\" 2>/dev/null") s).1 in
      let unloaded : o.exists q s1 ≡ o.exists q s = exists_after quiet "unload \"" _ s in
      elim (Bool-cases (o.exists plist s1)) [
        | inl there ↦ simp there (ground (arith, unloaded, removing.removed plist q s1))
        | inr gone ↦ simp gone (ground (arith, unloaded))
      ]

  pub rcd_uninstall :
      (name q : String) (s : o.State)
      → IsQuiet o "service " q
      → IsQuiet o "sysrc " q
      → let script = Rcd.get_script_path name in
        o.exists q ((Rcd.rcd_service d host).uninstall name s).1
        ≡ (if script == q then false else o.exists q s)
  unfolding Rcd.rcd_service Rcd.uninstall Rcd.stop
  rcd_uninstall name q s service sysrc =
      let script = Rcd.get_script_path name in
      let svc = Rcd.get_service_name name in
      let s1 = (o.system ("service " <> svc <> " stop 2>/dev/null") s).1 in
      let s2 = (o.system ("sysrc -x " <> svc <> "_enable 2>/dev/null") s1).1 in
      let stopped : o.exists q s1 ≡ o.exists q s = service.same_exists _ s in
      let disabled : o.exists q s2 ≡ o.exists q s1 = exists_after sysrc "-x " _ s1 in
      elim (Bool-cases (o.exists script s2)) [
        | inl there ↦ simp there (ground (arith, stopped, disabled, removing.removed script q s2))
        | inr gone ↦ simp gone (ground (arith, stopped, disabled))
      ]

module _ {o : Os} (host : Host o) (writing : IsWriting host) where
  -- The file after the directories above it were made and it was written.
  written_to :
      (file text q : String) (s : o.State)
      → let s1 = host.create_directories (parent_path file) s in
        o.read q (host.write_file file text s1).1 ≡ (
          if (host.write_file file text s1).0 && file == q
          then some (host.bytes text)
          else o.read q s)
  written_to file text q s =
      let s1 = host.create_directories (parent_path file) s in
      ground (arith, writing.written file q text s1, writing.directories (parent_path file) q s)

  pub systemd_install :
      (unit text q : String) (s : o.State)
      → IsQuiet o "systemctl " q
      → let after = reply o (Systemd.install_unit host unit text) s in
        o.read q after.1
        ≡ (if after.0.done && unit == q then some (host.bytes text) else o.read q s)
  unfolding Systemd.install_unit
  systemd_install unit text q s quiet =
      let (opened, s1) = host.write_file unit text (host.create_directories (parent_path unit) s) in
      let reloaded : o.read q (o.system "systemctl daemon-reload 2>/dev/null" s1).1 ≡ o.read q s1 =
        quiet.same_read "daemon-reload 2>/dev/null" s1 in
      elim (Bool-cases opened) [
        | inl on ↦ ground (arith, on, reloaded, written_to unit text q s)
        | inr off ↦ ground (arith, off, written_to unit text q s)
      ]

  pub launchd_install :
      (plist text q : String) (s : o.State)
      → let after = reply o (Launchd.install_plist host plist text) s in
        o.read q after.1
        ≡ (if after.0.done && plist == q then some (host.bytes text) else o.read q s)
  unfolding Launchd.install_plist
  launchd_install plist text q s =
      let (opened, s1) =
        host.write_file plist text (host.create_directories (parent_path plist) s) in
      elim (Bool-cases opened) [
        | inl on ↦ ground (arith, on, written_to plist text q s)
        | inr off ↦ ground (arith, off, written_to plist text q s)
      ]

  pub rcd_install :
      (script svc text q : String) (s : o.State)
      → IsQuiet o "sysrc " q
      → let after = reply o (Rcd.install_script host script svc text) s in
        o.read q after.1
        ≡ (if after.0.done && script == q then some (host.bytes text) else o.read q s)
  unfolding Rcd.install_script
  rcd_install script svc text q s quiet =
      let (opened, s1) =
        host.write_file script text (host.create_directories (parent_path script) s) in
      let s2 = host.add_exec script s1 in
      let enabled : o.read q (o.system ("sysrc " <> svc <> "_enable=YES 2>/dev/null") s2).1
          ≡ o.read q s2 =
        quiet.same_read _ s2 in
      elim (Bool-cases opened) [
        | inl on ↦
            ground (arith, on, enabled, writing.permissions script q s1, written_to script text q s)
        | inr off ↦ ground (arith, off, written_to script text q s)
      ]
