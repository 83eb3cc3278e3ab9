-- ===== src/Registry/Report.antt =====
-- `cmd_status`, `cmd_list` and `cmd_logs`: the commands that print what is stored.
pub mod Keeping
pub mod Listing
use frequent_cron.Base.{
  ℕ, zero, suc, ◌+◌, ◌-◌, String, ◌<>◌, Bool, not, ◌&&◌, Option, none, some, List, [], ◌∷◌, ◌==◌,
  string_eq, nat_eq, if◌then◌else◌, ltb,
}
use frequent_cron.Base.Int.{ℤ, pos, ltb_ℤ}
use Prim.Native.Char.{code}
use Prim.Native.String
use frequent_cron.Base.Decimal.{to_string}
use frequent_cron.Process.{Bytes}
use frequent_cron.Paths.{log_path}
use frequent_cron.Database.{ServiceRecord, ServiceState, get_service, get_state}
use frequent_cron.Database.Listing.{list_services}
use frequent_cron.Registry.World.{◌>>=◌, ◌>>◌, Context, Action, pure, say, on_db, ask_os, on_option}
use frequent_cron.Registry.Install.{true_or_false}
use frequent_cron.Registry.Status.{not_found, get_actual_status}

-- How many bytes a text takes in UTF-8.
unfoldable pub byte_width : ℕ → ℕ
byte_width c = if ltb c 128 then 1 else if ltb c 2048 then 2 else if ltb c 65536 then 3 else 4

unfoldable pub byte_length : String → ℕ
byte_length String.[] = 0
byte_length (String.◌∷◌ c s) = byte_width (code c) + byte_length s

-- std::string( n, c )
unfoldable pub repeated : ℕ → String → String
repeated zero text = ""
repeated (suc n) text = text <> repeated n text

-- std::left << std::setw( width ) << text
unfoldable pub padded : ℕ → String → String
padded width text = text <> repeated (width - byte_length text) " "

-- state ? state->pid : 0
unfoldable pub pid_of : Option ServiceState → ℤ
pid_of none = pos 0
pid_of (some st) = st.pid

module _ {D : Type 0} (c : Context D) where
  unfoldable pub status_row : ServiceRecord D → Action c (Unit {0})
  status_row svc = do
    status ← get_actual_status c svc.name
    state ← on_db c (get_state svc.name)
    say c (
        padded 20 svc.name
        <> padded 10 status
        <> padded 8 (if ltb_ℤ (pos 0) (pid_of state) then to_string (pid_of state) else "-")
        <> padded 12 (to_string svc.frequency_ms)
        <> svc.command
        <> "\n")

  unfoldable pub list_row : ServiceRecord D → Action c (Unit {0})
  list_row svc = do
    status ← get_actual_status c svc.name
    say c (
        padded 20 svc.name
        <> padded 10 status
        <> padded 12 (to_string svc.frequency_ms)
        <> svc.command
        <> "\n")

  -- The loop over the services.
  unfoldable pub each :
      (ServiceRecord D → Action c (Unit {0})) → List (ServiceRecord D) → Action c ℕ
  each row [] = pure c 0
  each row (svc ∷ services) = do row svc; each row services

  unfoldable pub table :
      String → (ServiceRecord D → Action c (Unit {0})) → List (ServiceRecord D) → Action c ℕ
  table header row [] = do say c "No services registered.\n"; pure c 0
  table header row (svc ∷ services) = do say c header; each row (svc ∷ services)

  abbrev pub status_header : String
  status_header =
      padded 20 "NAME"
      <> padded 10 "STATUS"
      <> padded 8 "PID"
      <> padded 12 "FREQ(ms)"
      <> "COMMAND\n"
      <> repeated 80 "-"
      <> "\n"

  abbrev pub list_header : String
  list_header =
      padded 20 "NAME"
      <> padded 10 "STATUS"
      <> padded 12 "FREQ(ms)"
      <> "COMMAND\n"
      <> repeated 60 "-"
      <> "\n"

  unfoldable pub say_if : Bool → String → Action c (Unit {0})
  say_if b text = if b then say c text else pure c tt

  -- What is known of the state, where there is one.
  unfoldable pub say_pid : String → Option ServiceState → Action c (Unit {0})
  say_pid status none = pure c tt
  say_pid status (some st) =
      say_if (ltb_ℤ (pos 0) st.pid && (status == "running"))
        ("PID:         " <> to_string st.pid <> "\n")

  unfoldable pub say_times : Option ServiceState → Action c (Unit {0})
  say_times none = pure c tt
  say_times (some st) = do
    say_if (not (st.last_started_at == "")) ("Last start:  " <> st.last_started_at <> "\n")
    say_if (not (st.last_stopped_at == "")) ("Last stop:   " <> st.last_stopped_at <> "\n")

  unfoldable pub describe : ServiceRecord D → String → Option ServiceState → Action c ℕ
  describe service status state = do
    say c ("Service:     " <> service.name <> "\n")
    say c ("Status:      " <> status <> "\n")
    say_pid status state
    say c ("Command:     " <> service.command <> "\n")
    say c ("Frequency:   " <> to_string service.frequency_ms <> "ms\n")
    say c ("Synchronous: " <> true_or_false service.synchronous <> "\n")
    say_if (ltb_ℤ (pos 0) service.jitter_ms) (
        "Jitter:      +-"
        <> to_string service.jitter_ms
        <> "ms ("
        <> service.jitter_distribution
        <> ")\n")
    say_if (c.double.lt service.fire_probability c.double.one)
        ("Probability: " <> c.double.print service.fire_probability <> "\n")
    say c ("Created:     " <> service.created_at <> "\n")
    say_times state
    pure c 0

  unfoldable pub status_all : Action c ℕ
  status_all = do services ← on_db c list_services; table status_header status_row services

  unfoldable pub status_one : String → Action c ℕ
  status_one name = do
    service ← on_db c (get_service name)
    on_option c service (not_found c name) λ rec. do
      status ← get_actual_status c name
      state ← on_db c (get_state name)
      describe rec status state

  unfoldable pub cmd_status : String → Action c ℕ
  cmd_status name = if name == "" then status_all else status_one name

  unfoldable pub cmd_list : Action c ℕ
  cmd_list = do services ← on_db c list_services; table list_header list_row services

  -- std::cout << log_file.rdbuf(), where `decode` is the text that the terminal makes of the bytes
  unfoldable pub say_log : (Bytes → String) → Option Bytes → Action c ℕ
  say_log decode none = pure c 0
  say_log decode (some content) = do say c (decode content); pure c 0

  unfoldable pub cmd_logs : (Bytes → String) → String → Action c ℕ
  cmd_logs decode name = do
    service ← on_db c (get_service name)
    on_option c service (not_found c name) λ rec. do
      there ← ask_os c (c.os.exists (log_path c.data_dir name))
      content ← ask_os c (c.os.read (log_path c.data_dir name))
      if there
          then say_log decode content
          else (do say c ("No logs for service '" <> name <> "'.\n"); pure c 0)
