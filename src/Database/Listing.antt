-- ===== src/Database/Listing.antt =====
-- `list_services`: ORDER BY name, in the order of the bytes of the texts.
use frequent_cron.Base.{
  none, ◌≡◌, inl, inr, refl, ap, ◌∙◌, String, true, false, some, List, [], ◌∷◌, arith, ◌==◌,
  string_eq, nat_eq, if◌then◌else◌, Bool-cases, if_cases,
}
use mathlib.Core.Option
use mathlib.Core.List
unfoldable pub use frequent_cron.Database.Sorting.{
  leb_string, insert_sorted, sort_by, list_services, record_key, is_ascending,
}
use frequent_cron.Database.Table.{find, IsUnique}
use frequent_cron.Database.{ServiceRow, ServiceRecord, Database, service_key, record_of_row}
use frequent_cron.Database.Crud.{statement_ok, service_at}

leb_string_refl : (s : String) → leb_string s s ≡ true
unfolding leb_string
leb_string_refl String.[] = refl
leb_string_refl (String.◌∷◌ c s) = ground (arith, leb_string_refl s)

leb_string_total : (s t : String) → leb_string s t ≡ false → leb_string t s ≡ true
unfolding leb_string
leb_string_total String.[] t h = ground arith
leb_string_total (String.◌∷◌ c s) String.[] h = refl
leb_string_total (String.◌∷◌ c s) (String.◌∷◌ c' t) h = ground (arith, leb_string_total s t)

module _ {ℓ} {R : Type ℓ} (key : R → String) where
  -- No row comes before the one in front of it.
  abbrev pub IsSorted : List R → Type 0
  IsSorted [] = Unit
  IsSorted (r ∷ []) = Unit
  IsSorted (r ∷ s ∷ rows) = (leb_string (key r) (key s) ≡ true) × IsSorted (s ∷ rows)

  find-insert_sorted :
      (n : String) (r : R) (rows : List R)
      → find key n (insert_sorted key r rows) ≡ (if key r == n then some r else find key n rows)
  unfolding find insert_sorted
  find-insert_sorted n r [] = refl
  find-insert_sorted n r (s ∷ rows) =
      ground (arith, find-insert_sorted n r rows, leb_string_refl (key r))

  find-sort_by : (n : String) (rows : List R) → find key n (sort_by key rows) ≡ find key n rows
  unfolding find sort_by
  find-sort_by n [] = refl
  find-sort_by n (r ∷ rows) =
      find-insert_sorted n r (sort_by key rows)
      ∙ ap (λ o. if key r == n then some r else o) (find-sort_by n rows)

  insert_sorted-IsSorted :
      (r : R) (rows : List R) → IsSorted rows → IsSorted (insert_sorted key r rows)
  unfolding insert_sorted
  insert_sorted-IsSorted r [] h = tt
  insert_sorted-IsSorted r (s ∷ []) h =
      if_cases IsSorted (leb_string (key r) (key s)) (r ∷ s ∷ []) (s ∷ r ∷ [])
        (λ before. (before, tt)) (λ behind. (leb_string_total (key r) (key s) behind, tt))
  insert_sorted-IsSorted r (s ∷ u ∷ rows) h =
      if_cases IsSorted (leb_string (key r) (key s)) (r ∷ s ∷ u ∷ rows)
        (s ∷ insert_sorted key r (u ∷ rows)) (λ before. (before, h))
        (λ behind. elim (Bool-cases (leb_string (key r) (key u))) [
          | inl q ↦ rw q (leb_string_total (key r) (key s) behind, (q, h.1))
          | inr q ↦ rw q (h.0, rw q at (insert_sorted-IsSorted r (u ∷ rows) h.1))
        ])

  sort_by-IsSorted : (rows : List R) → IsSorted (sort_by key rows)
  unfolding sort_by
  sort_by-IsSorted [] = tt
  sort_by-IsSorted (r ∷ rows) = insert_sorted-IsSorted r (sort_by key rows) (sort_by-IsSorted rows)

  insert_sorted-IsUnique :
      (r : R) (rows : List R)
      → find key (key r) rows ≡ none
      → IsUnique key rows
      → IsUnique key (insert_sorted key r rows)
  unfolding insert_sorted find
  insert_sorted-IsUnique r [] new h = (refl, tt)
  insert_sorted-IsUnique r (s ∷ rows) new h =
      if_cases (IsUnique key) (leb_string (key r) (key s)) _ _ (λ before. (new, h))
        (λ behind. (
          ground (arith, find-insert_sorted (key s) r rows, new, h.0),
          insert_sorted-IsUnique r rows (ground (arith, new)) h.1,
        ))

  sort_by-IsUnique : (rows : List R) → IsUnique key rows → IsUnique key (sort_by key rows)
  unfolding sort_by
  sort_by-IsUnique [] h = tt
  sort_by-IsUnique (r ∷ rows) h =
      insert_sorted-IsUnique r (sort_by key rows) (find-sort_by (key r) rows ∙ h.0)
        (sort_by-IsUnique rows h.1)

module _ {D : Type 0} where
  find-map_record :
      (n : String) (rows : List (ServiceRow D))
      → find record_key n (List.map record_of_row rows)
        ≡ Option.map record_of_row (find service_key n rows)
  unfolding find record_of_row
  find-map_record n [] = refl
  find-map_record n (row ∷ rows) = ground (arith, find-map_record n rows)

  map_record-IsSorted :
      (rows : List (ServiceRow D))
      → IsSorted service_key rows
      → IsSorted record_key (List.map record_of_row rows)
  unfolding record_of_row
  map_record-IsSorted [] h = tt
  map_record-IsSorted (row ∷ []) h = tt
  map_record-IsSorted (row ∷ s ∷ rows) h = (h.0, map_record-IsSorted (s ∷ rows) h.1)

  map_record-IsUnique :
      (rows : List (ServiceRow D))
      → IsUnique service_key rows
      → IsUnique record_key (List.map record_of_row rows)
  unfolding record_of_row
  map_record-IsUnique [] h = tt
  map_record-IsUnique (row ∷ rows) h = (
    find-map_record row.name rows ∙ ap (Option.map record_of_row) h.0,
    map_record-IsUnique rows h.1,
  )

  is_ascending_of_IsSorted :
      (recs : List (ServiceRecord D))
      → IsSorted record_key recs
      → IsUnique record_key recs
      → is_ascending recs ≡ true
  unfolding is_ascending find
  is_ascending_of_IsSorted [] h u = refl
  is_ascending_of_IsSorted (r ∷ []) h u = refl
  is_ascending_of_IsSorted (r ∷ s ∷ recs) h u =
      ground (arith, h.0, u.0, is_ascending_of_IsSorted (s ∷ recs) h.1 u.1)

  pub list_services-eq :
      (db : Database D)
      → db.faults ≡ []
      → list_services db ≡ (List.map record_of_row (sort_by service_key db.services), db)
  unfolding list_services
  list_services-eq db clear = statement_ok [] _ db clear

  -- Where SQLite refuses nothing, the list of all services is in the order of the names, and what it
  -- has under a name is what a look-up of that name finds; nothing is written.
  pub list_services-at :
      (n : String) (db : Database D)
      → db.faults ≡ []
      → (find record_key n (list_services db).0 ≡ service_at n db)
        × IsSorted record_key (list_services db).0
        × ((list_services db).1 ≡ db)
  list_services-at n db clear = rw (list_services-eq db clear) (
    find-map_record n _ ∙ ap (Option.map record_of_row) (find-sort_by service_key n db.services),
    map_record-IsSorted _ (sort_by-IsSorted service_key db.services),
    refl,
  )

  -- The names ascend strictly where no name is registered twice.
  pub list_services-is_ascending :
      (db : Database D)
      → db.faults ≡ []
      → IsUnique service_key db.services
      → is_ascending (list_services db).0 ≡ true
  list_services-is_ascending db clear unique = rw (list_services-eq db clear) (
      is_ascending_of_IsSorted _ (map_record-IsSorted _ (sort_by-IsSorted service_key db.services))
        (map_record-IsUnique _ (sort_by-IsUnique service_key db.services unique)))
