-- ===== src/Database/Sorting.antt =====
-- `list_services` of src/database.cc: ORDER BY name, in the order of the bytes of the texts.
use Prim.Native.Char.{code}
use mathlib.Core.List
use frequent_cron.Base.{
  String, Bool, true, false, not, ◌&&◌, List, [], ◌∷◌, ◌==◌, string_eq, nat_eq, if◌then◌else◌, ltb,
}
use frequent_cron.Database.{ServiceRecord, Database, service_key, record_of_row, statement}

-- Whether a text comes before another, or is the same; UTF-8 keeps the order of the codes.
unfoldable pub leb_string : String → String → Bool
leb_string String.[] t = true
leb_string (String.◌∷◌ c s) String.[] = false
leb_string (String.◌∷◌ c s) (String.◌∷◌ c' t) =
    let rest = leb_string s t in if code c == code c' then rest else ltb (code c) (code c')

module _ {ℓ} {R : Type ℓ} (key : R → String) where
  unfoldable pub insert_sorted : R → List R → List R
  insert_sorted r [] = r ∷ []
  insert_sorted r (s ∷ rows) =
      let rest = insert_sorted r rows in
      if leb_string (key r) (key s) then r ∷ s ∷ rows else s ∷ rest

  unfoldable pub sort_by : List R → List R
  sort_by [] = []
  sort_by (r ∷ rows) = insert_sorted r (sort_by rows)

module _ {D : Type 0} where
  -- A fault is one of the statement as a whole, before the first row.
  unfoldable pub list_services : Database D → List (ServiceRecord D) × Database D
  list_services =
      statement [] (λ db. (List.map record_of_row (sort_by service_key db.services), db))

  abbrev pub record_key : ServiceRecord D → String
  record_key rec = rec.name

  -- Whether the names of a list ascend strictly.
  unfoldable pub is_ascending : List (ServiceRecord D) → Bool
  is_ascending [] = true
  is_ascending (r ∷ []) = true
  is_ascending (r ∷ s ∷ recs) =
      leb_string r.name s.name && not (r.name == s.name) && is_ascending (s ∷ recs)
