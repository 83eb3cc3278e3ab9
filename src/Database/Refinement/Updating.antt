-- ===== src/Database/Refinement/Updating.antt =====
-- What `update_service` does to the rows, against what it does to the record that a row stands for.
use frequent_cron.Base.{
  ◌≡◌, refl, ◌∙◌, String, Bool, true, false, Option, none, some, List, [], arith, ◌==◌, string_eq,
  nat_eq, if◌then◌else◌,
}
use mathlib.Core.Option
use frequent_cron.Database.{
  ServiceRecord, ServiceRow, Database, update_service, update_row, service_key, set_service,
  record_of_row,
}
use frequent_cron.Database.Table.{find, has, modify, find-modify}
use frequent_cron.Database.Crud.{statement_ok}
use frequent_cron.Database.Catalog.{updated}

module _ {D : Type 0} where
  record_of_row-set_service :
      (now : String) (rec : ServiceRecord D) (row : ServiceRow D)
      → record_of_row (set_service now rec row) ≡ updated now rec (record_of_row row)
  unfolding record_of_row set_service
  record_of_row-set_service now rec row = by_flag rec.synchronous
    where
      by_flag :
          (b : Bool)
          → record_of_row (set_service now (record rec { synchronous = b }) row)
            ≡ updated now (record rec { synchronous = b }) (record_of_row row)
      by_flag true = refl
      by_flag false = refl

  name-set_service :
      (now : String) (rec : ServiceRecord D) (row : ServiceRow D)
      → (set_service now rec row).name ≡ row.name
  unfolding set_service
  name-set_service now rec row = refl

  pub updated_at :
      (now : String) (rec : ServiceRecord D) (rows : List (ServiceRow D)) (m : String)
      → Option.map record_of_row
          (find service_key m (modify service_key rec.name (set_service now rec) rows))
        ≡ (if rec.name == m
            then Option.map (updated now rec) (Option.map record_of_row (find service_key m rows))
            else Option.map record_of_row (find service_key m rows))
  updated_at now rec rows m =
      rw (find-modify service_key (set_service now rec) (name-set_service now rec))
        (by_row (find service_key m rows))
    where
      by_row :
          (o : Option (ServiceRow D))
          → Option.map record_of_row (
              if rec.name == m
              then elim o [ some r ↦ some (set_service now rec r) | none ↦ none ]
              else o)
            ≡ (if rec.name == m
                then Option.map (updated now rec) (Option.map record_of_row o)
                else Option.map record_of_row o)
      by_row none = ground arith
      by_row (some row) = ground (arith, record_of_row-set_service now rec row)

  pub update_service-eq :
      (rec : ServiceRecord D) (db : Database D)
      → db.faults ≡ []
      → has service_key rec.name db.services ≡ true
      → update_service rec db ≡ (
        true,
        record db { services = modify service_key rec.name (set_service db.now rec) db.services },
      )
  unfolding update_service update_row
  update_service-eq rec db clear there = statement_ok false (update_row rec) db clear ∙ simp there

  pub update_service_absent :
      (rec : ServiceRecord D) (db : Database D)
      → db.faults ≡ []
      → has service_key rec.name db.services ≡ false
      → update_service rec db ≡ (false, db)
  unfolding update_service update_row
  update_service_absent rec db clear absent =
      statement_ok false (update_row rec) db clear ∙ simp absent
