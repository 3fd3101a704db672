-- ===== src/Store/Sites/Deleted.antt =====
-- `finishSiteDelete` of internal/store/site_changes.go, and `CreateSite` after it.
use wpx.Prelude.{
  String, Bool, true, false, ◌=?◌, ◌≡◌, none, arith, Option-cases, eq_refl, eq_iff, sym, inl, inr,
  ok, Result-cases,
}
use wpx.Prelude.Table
use wpx.Stamp.{Stamp}
use wpx.Store.Rows.{Db, Job, Grant, Reservation, DeletedSite, Schedule}
use wpx.Store.Statements.{has_site, insert_deleted_site, delete_site_row}
use wpx.Store.Sites.Enqueue.{load_site}
use wpx.Store.Sites.Finish.{finish_site_delete, success}

abbrev pub has_id : String → DeletedSite → Bool
has_id id d = d.id =? id

-- What remains of a site once it is deleted: the record of the deletion, and no row that refers to
-- the site.
pub record Deleted (id : String) (db : Db) : Type 0 where
  pub no_site : load_site id db ≡ none
  pub no_grant : Table.any (λ (g : Grant). g.site_id =? id) db.grants ≡ false
  pub no_reservation : Table.any (λ (r : Reservation). r.site_id =? id) db.reservations ≡ false
  pub no_schedule : Table.any (λ (s : Schedule). s.site_id =? id) db.schedules ≡ false
  pub recorded : Table.any (has_id id) db.deleted_sites ≡ true

-- The row goes, and with it what refers to it.
delete_site_row-Deleted :
    (id : String) (db db' : Db)
    → Table.any (has_id id) db.deleted_sites ≡ true
    → delete_site_row id db ≡ ok db'
    → Deleted id db'
unfolding delete_site_row
delete_site_row-Deleted id db db' recorded h = record {
  no_site = ground (arith, h, Table.first-delete (has_site id) (has_site id) db.sites (λ x k. k));
  no_grant = ground (
    arith,
    h,
    Table.any-delete (λ (g : Grant). g.site_id =? id) (λ g. g.site_id =? id) db.grants (λ x k. k),
  );
  no_reservation = ground (
    arith,
    h,
    Table.any-delete (λ (r : Reservation). r.site_id =? id) (λ r. r.site_id =? id) db.reservations
        (λ x k. k),
  );
  no_schedule = ground (
    arith,
    h,
    Table.any-delete (λ (s : Schedule). s.site_id =? id) (λ s. s.site_id =? id) db.schedules
        (λ x k. k),
  );
  recorded = ground (arith, h, recorded);
}

insert_deleted_site-recorded :
    (row : DeletedSite) (db db' : Db)
    → insert_deleted_site row db ≡ ok db'
    → Table.any (has_id row.id) db'.deleted_sites ≡ true
unfolding insert_deleted_site
insert_deleted_site-recorded row db db' h =
    ground (arith, h, eq_refl row.id, Table.any-insert (has_id row.id) row db.deleted_sites)

-- A deletion that completes leaves no row of the site, no grant, no reservation and no schedule of
-- it, and a record that it has been deleted.
pub finish_site_delete-Deleted :
    (job : Job) (now : Stamp) (db db' : Db)
    → finish_site_delete job now success db ≡ ok db'
    → Deleted job.target_id db'
unfolding finish_site_delete
finish_site_delete-Deleted job now db db' h = elim (Option-cases (load_site job.target_id db)) [
  | inl e ↦ absurd (ground (arith, h))
  | inr (site, e) ↦
      let same : site.id ≡ job.target_id = ground (
        arith,
        Table.first-holds (has_site job.target_id) db.sites site e,
        eq_iff site.id job.target_id,
      ) in
      let row : DeletedSite = record {
        id = site.id;
        domain = site.domain;
        site = site;
        deleted_at = now;
      } in
      elim (Result-cases (insert_deleted_site row db)) [
        | inr (x, f) ↦ absurd (ground (arith, h))
        | inl (db1, f) ↦ rw (sym same) (
            delete_site_row-Deleted site.id db1 db' (insert_deleted_site-recorded row db db1 f)
              (ground (arith, h)))
      ]
]
