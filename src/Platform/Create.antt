-- ===== src/Platform/Create.antt =====
-- PlatformService::create, on the platforms where a service has a file.
use Prim.Native.Char.{Char}
use frequent_cron.Base.{◌≡◌, refl, String, ◌<>◌, Bool-cases, inl, inr, some}
use text.Mathlib.TextLemmas.{append_assoc, append_cancel_right}
use frequent_cron.External.{Double, Os, IsRemoving}
use frequent_cron.Paths.{◌//◌}
use frequent_cron.Paths.Distinct.{leads_apart}
use frequent_cron.Database.{ServiceRecord}
use frequent_cron.Registry.World.{PlatformService}
use frequent_cron.Platform.{Host}
use frequent_cron.Platform.Keeping.{IsWriting, IsQuiet, IsManaging}
use frequent_cron.Platform.Units.{
  systemd_uninstall, systemd_install, launchd_uninstall, launchd_install, rcd_uninstall,
  rcd_install,
}
use frequent_cron.Platform.Systemd
use frequent_cron.Platform.Launchd
use frequent_cron.Platform.Rcd
use frequent_cron.Platform.Scm.{Target, linux, apple, freebsd, create}

-- The platforms, the files of their services and the texts in them, and the files that their tools
-- leave alone.
pub data FileTarget : Type 0 where
  on_linux on_apple on_freebsd : FileTarget

abbrev pub target : {o : Os} → FileTarget → Target o
target on_linux = linux
target on_apple = apple
target on_freebsd = freebsd

abbrev pub service_file : {o : Os} → Host o → FileTarget → String → String
service_file host on_linux name = Systemd.get_unit_path host name
service_file host on_apple name = Launchd.get_plist_path host name
service_file host on_freebsd name = Rcd.get_script_path name

abbrev pub service_text :
    {D : Type 0} → Double D → FileTarget → String → ServiceRecord D → String → String → String
service_text d on_linux = Systemd.unit_text d
service_text d on_apple = Launchd.plist_text d
service_text d on_freebsd = Rcd.script_text d

abbrev pub LeftAlone : Os → FileTarget → String → Type 0
LeftAlone o on_linux q = IsQuiet o "systemctl " q
LeftAlone o on_apple q = IsQuiet o "launchctl " q
LeftAlone o on_freebsd q = IsQuiet o "service " q × IsQuiet o "sysrc " q

abbrev pub service_of :
    {D : Type 0} → Double D → {o : Os} → Host o → FileTarget → PlatformService D o
service_of d host on_linux = Systemd.systemd_service d host
service_of d host on_apple = Launchd.launchd_service d host
service_of d host on_freebsd = Rcd.rcd_service d host

suffixed_apart :
    (p : String) (c : Char) (lead s t suffix : String)
    → p // (String.◌∷◌ c lead <> (s <> suffix)) ≡ p // (String.◌∷◌ c lead <> (t <> suffix))
    → s ≡ t
suffixed_apart p c lead s t suffix h =
    append_cancel_right s t suffix (leads_apart p c lead (s <> suffix) (t <> suffix) h)

service_file-injective :
    {o : Os} (host : Host o) (t : FileTarget) (m n : String)
    → service_file host t m ≡ service_file host t n
    → m ≡ n
unfolding Systemd.get_unit_path Systemd.get_service_name Launchd.get_plist_path Launchd.get_label
    Rcd.get_script_path Rcd.get_service_name
service_file-injective host on_linux m n h = elim (Bool-cases host.is_root) [
  | inl root ↦
      suffixed_apart "/etc/systemd/system" "f" "requent-cron-" m n ".service" (simp root at h)
  | inr user ↦ suffixed_apart _ "f" "requent-cron-" m n ".service" (simp user at h)
]
service_file-injective host on_apple m n h = elim (Bool-cases host.is_root) [
  | inl root ↦ suffixed_apart "/Library/LaunchDaemons" "c" "om.frequent-cron." m n ".plist" (
      simp
        (
          root,
          append_assoc "com.frequent-cron." m ".plist",
          append_assoc "com.frequent-cron." n ".plist",
        )
        at h)
  | inr user ↦ suffixed_apart _ "c" "om.frequent-cron." m n ".plist" (
      simp
        (
          user,
          append_assoc "com.frequent-cron." m ".plist",
          append_assoc "com.frequent-cron." n ".plist",
        )
        at h)
]
service_file-injective host on_freebsd m n h =
    leads_apart "/usr/local/etc/rc.d" "f" "requent_cron_" m n h

module _ {D : Type 0} (d : Double D) {o : Os} (host : Host o) (removing : IsRemoving o)
    (writing : IsWriting host) where
  service_of-IsManaging :
      (t : FileTarget)
      → IsManaging host
          (service_of d host t)
          (service_file host t)
          (service_text d t)
          (LeftAlone o t)
  unfolding Systemd.systemd_service Systemd.install Launchd.launchd_service Launchd.install
      Rcd.rcd_service Rcd.install
  service_of-IsManaging on_linux = record {
    file-injective = service_file-injective host on_linux;
    uninstall_exists = λ name q s quiet. systemd_uninstall d host removing name q s quiet;
    install_read =
        λ name rec binary_path data_dir q s quiet. systemd_install host writing _ _ q s quiet;
  }
  service_of-IsManaging on_apple = record {
    file-injective = service_file-injective host on_apple;
    uninstall_exists = λ name q s quiet. launchd_uninstall d host removing name q s quiet;
    install_read = λ name rec binary_path data_dir q s quiet. launchd_install host writing _ _ q s;
  }
  service_of-IsManaging on_freebsd = record {
    file-injective = service_file-injective host on_freebsd;
    uninstall_exists = λ name q s quiet. rcd_uninstall d host removing name q s quiet.0 quiet.1;
    install_read =
        λ name rec binary_path data_dir q s quiet. rcd_install host writing _ _ _ q s quiet.1;
  }

  -- On Linux, macOS and FreeBSD, where a removed file is gone and a written file has its text, the
  -- program gets a service manager that keeps one file for each service, different files for
  -- different names: `uninstall` removes that file and no other, and `install` writes the text of
  -- the service to it where it reports success; otherwise, and in the other files, all is as before.
  -- This is said of files that the commands of the platform's tools leave alone.
  pub create-IsManaging :
      (t : FileTarget)
      → (create d host (target t) ≡ some (service_of d host t))
        × IsManaging host
            (service_of d host t)
            (service_file host t)
            (service_text d t)
            (LeftAlone o t)
  unfolding create
  create-IsManaging on_linux = (refl, service_of-IsManaging on_linux)
  create-IsManaging on_apple = (refl, service_of-IsManaging on_apple)
  create-IsManaging on_freebsd = (refl, service_of-IsManaging on_freebsd)
