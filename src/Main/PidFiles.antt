-- ===== src/Main/PidFiles.antt =====
-- `write_pid_file` of src/pid_file.cc, and the registry that reads the file.
use frequent_cron.Base.{ℕ, ◌<◌, ◌^◌, ◌≡◌, ◌∙◌, String, Bool, true, some, arith, string_eq, nat_eq}
use frequent_cron.Base.Int.{ℤ, pos}
use frequent_cron.Base.Decimal.{to_string}
use frequent_cron.External.{Os}
use frequent_cron.PidFile.{pid_file_content, extract_int-pid_file_content}
use frequent_cron.Paths.{pid_path}
use frequent_cron.Platform.{Host}
use frequent_cron.Platform.Keeping.{IsWriting}
use frequent_cron.Registry.World.{Context}
use frequent_cron.Registry.Stop.{pid_from_file}

-- The result tells whether the file could be opened; `pid` is what getpid gives.
unfoldable pub write_pid_file : {o : Os} → Host o → String → ℤ → o.State → Bool × o.State
write_pid_file host filename pid s = host.write_file filename (to_string pid) s

-- Where a written file is there and has its text, and the digits of a number are written as the bytes
-- of ASCII: once a process has written its PID, an `int` that is not negative, to the PID file of a
-- service, the registry of the same data directory reads that PID for the service.
pub pid_from_file-write_pid_file :
    {D : Type 0} (c : Context D) (host : Host c.os) (name : String) (n : ℕ) (s : c.os.State)
    → IsWriting host
    → n < 2 ^ 31
    → host.bytes (to_string (pos n)) ≡ pid_file_content (pos n)
    → (write_pid_file host (pid_path c.data_dir name) (pos n) s).0 ≡ true
    → pid_from_file c name (write_pid_file host (pid_path c.data_dir name) (pos n) s).1 ≡ pos n
unfolding write_pid_file pid_from_file
pid_from_file-write_pid_file c host name n s writing small ascii opened =
    let path = pid_path c.data_dir name in
    let text = to_string (pos n) in
    let after = (host.write_file path text s).1 in
    let there : c.os.exists path after ≡ true =
      ground (arith, writing.exists_written path path text s, opened) in
    let content : c.os.read path after ≡ some (pid_file_content (pos n)) =
      writing.written path path text s ∙ ground (arith, opened, ascii) in
    rw (there, content) (extract_int-pid_file_content n small)
