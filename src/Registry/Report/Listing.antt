-- ===== src/Registry/Report/Listing.antt =====
-- What `cmd_list` prints.
use frequent_cron.Base.{
  ◌≡◌, inl, inr, refl, sym, ap, ◌∙◌, String, ◌<>◌, none, some, List, [], ◌∷◌, arith, string_eq,
  nat_eq, Option-cases,
}
use frequent_cron.Base.Int.{pos}
use frequent_cron.Base.Decimal.{to_string}
use text.Mathlib.TextLemmas.{append_assoc, append-nil}
use frequent_cron.Database.{ServiceRecord, ServiceState}
use frequent_cron.Database.Crud.{state_at}
use frequent_cron.Database.State.{update_state-at, update_state-eq}
use frequent_cron.Database.Listing.{list_services, list_services-eq}
use frequent_cron.Registry.World.{Context, World, say, on_db}
use frequent_cron.Registry.Status.{get_actual_status}
use frequent_cron.Registry.Status.Healing.{actual, corrected, get_actual_status-eq, stopped≢running}
use frequent_cron.Registry.Report.{padded, list_row, each, table, list_header, cmd_list}

module _ {D : Type 0} (c : Context D) where
  -- The status that the state of a service and the processes call for.
  abbrev pub observed : World c → String → String
  observed w n = elim (state_at n w.db) [ none ↦ "unknown" | some st ↦ actual c st w.os ]

  -- What looking at a status leaves: the status of every service is as it was.
  record IsLooked (w w' : World c) : Type 0 where
    same_os : w'.os ≡ w.os
    same_out : w'.out ≡ w.out
    clear : w'.db.faults ≡ []
    same_status : (m : String) → observed w' m ≡ observed w m

  corrected-IsLooked :
      (n : String) (st : ServiceState) (w : World c)
      → w.db.faults ≡ []
      → state_at n w.db ≡ some st
      → IsLooked w (record w { db = corrected c n st w.os w.db })
  corrected-IsLooked n st w clear here =
      let stopped = record st { status = "stopped"; pid = pos 0 } in
      record {
        same_os = refl;
        same_out = refl;
        clear = ground (arith, clear, ap (λ x. x.1.faults) (update_state-eq n stopped w.db clear));
        same_status =
            λ m. ground (arith, here, update_state-at n stopped w.db m clear, stopped≢running c);
      }

  get_actual_status-IsLooked :
      (n : String) (w : World c)
      → w.db.faults ≡ []
      → ((get_actual_status c n w).0 ≡ observed w n) × IsLooked w (get_actual_status c n w).1
  get_actual_status-IsLooked n w clear = elim (Option-cases (state_at n w.db)) [
    | inl missing ↦
        rw (get_actual_status-eq c n w clear, missing)
          (
            ground (arith, missing),
            record { same_os = refl; same_out = refl; clear = clear; same_status = λ m. refl },
          )
    | inr (st, here) ↦
        rw (get_actual_status-eq c n w clear, here)
          (ground (arith, here), corrected-IsLooked n st w clear here)
  ]

  -- The line of one service.
  abbrev line : ServiceRecord D → String → String
  line svc status =
      padded 20 svc.name
      <> padded 10 status
      <> padded 12 (to_string svc.frequency_ms)
      <> svc.command
      <> "\n"

  -- The lines of the services, with a status for each name.
  unfoldable pub lines : (String → String) → List (ServiceRecord D) → String
  lines status [] = ""
  lines status (svc ∷ services) = line svc (status svc.name) <> lines status services

  each-lines :
      (status : String → String) (services : List (ServiceRecord D)) (w : World c)
      → w.db.faults ≡ []
      → ((n : String) → observed w n ≡ status n)
      → ((each c (list_row c) services w).0 ≡ 0)
        × ((each c (list_row c) services w).1.out ≡ w.out <> lines status services)
  unfolding each list_row say lines
  each-lines status [] w clear known = (refl, sym (append-nil w.out))
  each-lines status (svc ∷ services) w clear known =
      let (shown, w1) = get_actual_status c svc.name w in
      let (same, looked) = get_actual_status-IsLooked svc.name w clear in
      let printed : World c = record w1 { out = w1.out <> line svc shown } in
      let rest =
        each-lines status services printed looked.clear (λ n. looked.same_status n ∙ known n) in
      let more = lines status services in
      (
        rest.0,
        rest.1
            ∙ append_assoc w1.out (line svc shown) more
            ∙ ap (λ out. out <> (line svc shown <> more)) looked.same_out
            ∙ ap (λ text. w.out <> (line svc text <> more)) (same ∙ known svc.name),
      )

  -- What is printed for a list of services.
  abbrev pub listing : (String → String) → List (ServiceRecord D) → String
  listing status [] = "No services registered.\n"
  listing status (svc ∷ services) = list_header c <> lines status (svc ∷ services)

  table-listing :
      (services : List (ServiceRecord D)) (w : World c)
      → w.db.faults ≡ []
      → ((table c (list_header c) (list_row c) services w).0 ≡ 0)
        × ((table c (list_header c) (list_row c) services w).1.out
            ≡ w.out <> listing (observed w) services)
  unfolding table say
  table-listing [] w clear = (refl, refl)
  table-listing (svc ∷ services) w clear =
      let titled : World c = record w { out = w.out <> list_header c } in
      let rows = each-lines (observed w) (svc ∷ services) titled clear (λ n. refl) in
      (rows.0, rows.1 ∙ append_assoc w.out (list_header c) (lines (observed w) (svc ∷ services)))

  -- Where SQLite refuses nothing, `list` returns 0 and prints a line for each service, in the order
  -- of the list, with the status that its state and the processes called for when the command began:
  -- that the command corrects a service on its way does not change the line of another one. Without
  -- a service it says so.
  pub cmd_list-listing :
      (w : World c)
      → w.db.faults ≡ []
      → ((cmd_list c w).0 ≡ 0)
        × ((cmd_list c w).1.out ≡ w.out <> listing (observed w) (list_services w.db).0)
  unfolding cmd_list on_db
  cmd_list-listing w clear = rw (list_services-eq w.db clear) (table-listing _ w clear)
