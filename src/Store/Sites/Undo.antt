-- ===== src/Store/Sites/Undo.antt =====
-- `EnqueueDomainChange` and `finishDomainChange` of internal/store/site_changes.go, one after the
-- other.
use wpx.Prelude.{
  ◌≤◌, String, Bool, true, false, ◌&&◌, ◌=?◌, ◌≡◌, Option, some, List, [], ◌∷◌, arith, refl, ap,
  sym, Bool-cases, Option-cases, eq_refl, inl, inr, ok, Result-cases,
}
use wpx.Prelude.Table
use wpx.Text.{Text}
use wpx.Stamp.{Stamp}
use wpx.Model.Site.{Site, SiteStatus, active, domain_changing, Url, normalized_domain}
use wpx.Store.Rows.{Db, Job, Reservation, JobKind, site_domain_change, Payload, domain_change}
use wpx.Store.Statements.{has_site, insert_job, insert_reservation, insert_audit}
use wpx.Store.Users.Access.{User}
use wpx.Store.Sites.Guards.{Draw}
use wpx.Store.Sites.Enqueue.{
  load_site, is_active, change_of, enqueue_domain_change, enqueue_lifecycle_job, status_eq,
}
use wpx.Store.Sites.Finish.{finish_domain_change, failure, domain_change_error, of_job}

abbrev pub touched : Stamp → Site → Site
touched now s = record s { updated_at = now }

-- Rows that are not the site's are left alone.
update-absent :
    (id : String) (q : Site → Bool) (f : Site → Site) (sites : List Site)
    → Table.count (has_site id) sites ≡ 0
    → Table.update (λ (s : Site). s.id =? id && q s) f sites ≡ sites
unfolding Table.update Table.count
update-absent id q f [] h = refl
update-absent id q f (s ∷ sites) h = ground (arith, h, update-absent id q f sites)

update-absent_id :
    (id : String) (f : Site → Site) (sites : List Site)
    → Table.count (has_site id) sites ≡ 0
    → Table.update (has_site id) f sites ≡ sites
unfolding Table.update Table.count
update-absent_id id f [] h = refl
update-absent_id id f (s ∷ sites) h = ground (arith, h, update-absent_id id f sites)

abbrev is_changing : Site → Bool
is_changing s = status_eq s.status domain_changing

abbrev changing : Stamp → Site → Site
changing at s = record s { status = domain_changing; updated_at = at }

abbrev active_again : Stamp → Site → Site
active_again now s = record s { status = active; updated_at = now }

head-undone :
    (then_at now : Stamp) (s : Site)
    → s.status ≡ active
    → active_again now (changing then_at s) ≡ touched now s
head-undone then_at now s h = ap (λ status. record s { status = status; updated_at = now }) (sym h)

-- Setting a status upon a row and taking it back leaves the row, but for the instant.
update-undone :
    (id : String) (then_at now : Stamp) (sites : List Site) (site : Site)
    → Table.count (has_site id) sites ≤ 1
    → Table.first (has_site id) sites ≡ some site
    → site.status ≡ active
    → Table.update
        (λ (s : Site). s.id =? id && is_changing s)
        (active_again now)
        (Table.update (has_site id) (changing then_at) sites)
      ≡ Table.update (has_site id) (touched now) sites
unfolding Table.update Table.first Table.count status_eq
update-undone id then_at now [] site one found h = refl
update-undone id then_at now (s ∷ sites) site one found h = elim (Bool-cases (s.id =? id)) [
  | inl e ↦
      let none_left : Table.count (has_site id) sites ≡ 0 = ground (arith, one, e) in
      let is_active : s.status ≡ active = ground (arith, found, h, e) in
      ground (
        arith,
        e,
        head-undone then_at now s is_active,
        update-absent_id id (changing then_at) sites none_left,
        update-absent_id id (touched now) sites none_left,
        update-absent id is_changing (active_again now) sites none_left,
      )
  | inr e ↦ ground (arith, e, found, one, update-undone id then_at now sites site)
]

delete-insert :
    (p : Reservation → Bool) (row : Reservation) (rows : List Reservation)
    → p row ≡ true
    → Table.any p rows ≡ false
    → Table.delete p (Table.insert row rows) ≡ rows
unfolding Table.delete Table.insert Table.any
delete-insert p row [] h k = ground arith
delete-insert p row (r ∷ rows) h k = ground (arith, delete-insert p row rows h)

reserved_row : Text → String → String → Reservation
reserved_row domain site_id job_id = record { domain = domain; site_id = site_id; job_id = job_id }

-- What the request of a change has done, when it succeeds.
record Requested (draw : Draw) (id job_id : String) (domain : Text) (db db' : Db) : Type 0 where
  site : Site
  found : load_site id db ≡ some site
  was_active : site.status ≡ active
  new_job : Table.any (λ (r : Reservation). r.job_id =? job_id) db.reservations ≡ false
  sites : db'.sites ≡ Table.update (has_site id) (changing draw.now) db.sites
  reservations : db'.reservations ≡ Table.insert (reserved_row domain id job_id) db.reservations
  drawn : job_id ≡ draw.job_id

is_active-active : (s : SiteStatus) → is_active s ≡ true → s ≡ active
is_active-active active h = refl
is_active-active _ h = ground (arith, h)

lifecycle_job-rows :
    (draw : Draw) (actor : User) (id : String) (kind : JobKind) (payload : Payload)
    (status : SiteStatus) (db db' : Db)
    → enqueue_lifecycle_job draw actor id kind payload status db ≡ ok db'
    → (db'.sites
        ≡ Table.update
            (has_site id)
            (λ s. record s { status = status; updated_at = draw.now })
            db.sites)
      × (db'.reservations ≡ db.reservations)
unfolding enqueue_lifecycle_job insert_job insert_audit
lifecycle_job-rows draw actor id kind payload status db db' h =
    (ground (arith, h), ground (arith, h))

insert_reservation-rows :
    (row : Reservation) (db db' : Db)
    → insert_reservation row db ≡ ok db'
    → (db'.sites ≡ db.sites)
      × (db'.reservations ≡ Table.insert row db.reservations)
      × (Table.any (λ (r : Reservation). r.job_id =? row.job_id) db.reservations ≡ false)
unfolding insert_reservation
insert_reservation-rows row db db' h = (ground (arith, h), ground (arith, h), ground (arith, h))

enqueue_domain_change-Requested :
    (parse_url : String → Option Url) (draw : Draw) (actor : User) (id job_id : String)
    (requested : Text) (db db' : Db)
    → enqueue_domain_change parse_url draw actor id requested db ≡ ok (job_id, db')
    → Requested draw id job_id (normalized_domain requested) db db'
unfolding enqueue_domain_change reserved_row
enqueue_domain_change-Requested parse_url draw actor id job_id requested db db' h =
    elim (Option-cases (load_site id db)) [
      | inl e ↦ absurd (ground (arith, h))
      | inr (site, e) ↦
          let change = domain_change (change_of site (normalized_domain requested)) in
          elim (Result-cases
            (enqueue_lifecycle_job draw actor id site_domain_change change domain_changing db)) [
              | inr (x, f) ↦ absurd (ground (arith, h))
              | inl (db1, f) ↦
                  let row = reserved_row (normalized_domain requested) id draw.job_id in
                  let last : insert_reservation row db1 ≡ ok db' = ground (arith, h) in
                  let (s1, r1) =
                    lifecycle_job-rows draw actor id site_domain_change change domain_changing db
                      db1 f in
                  let (s2, r2, fresh) = insert_reservation-rows row db1 db' last in
                  let drawn : job_id ≡ draw.job_id = ground (arith, h) in
                  record {
                    site = site;
                    found = e;
                    was_active = is_active-active site.status (ground (arith, h));
                    new_job = rw drawn (rw (sym r1) fresh);
                    sites = rw s2 s1;
                    reservations = rw r2 (rw r1 (rw drawn refl));
                    drawn = drawn;
                  }
            ]
    ]

of_job-fresh :
    (site_id job_id : String) (rows : List Reservation)
    → Table.any (λ (r : Reservation). r.job_id =? job_id) rows ≡ false
    → Table.any (of_job site_id job_id) rows ≡ false
unfolding Table.any
of_job-fresh site_id job_id [] h = refl
of_job-fresh site_id job_id (r ∷ rows) h = ground (arith, h, of_job-fresh site_id job_id rows)

-- When a site identifier has at most one row, a change of domain has been requested for it and its
-- job ends with the error of a host that has restored the site, then every site is as it was before
-- the request, but for the instant of the last update of that site, and the reservations are as
-- they were.
pub finish_domain_change-enqueue_domain_change :
    (parse_url : String → Option Url) (draw : Draw) (actor : User) (requested : Text) (job : Job)
    (text : String) (now : Stamp) (db db1 db2 : Db)
    → Table.count (has_site job.target_id) db.sites ≤ 1
    → enqueue_domain_change parse_url draw actor job.target_id requested db ≡ ok (job.id, db1)
    → finish_domain_change parse_url job now (failure text (domain_change_error true)) db1 ≡ ok db2
    → (db2.sites ≡ Table.update (has_site job.target_id) (touched now) db.sites)
      × (db2.reservations ≡ db.reservations)
unfolding finish_domain_change reserved_row
finish_domain_change-enqueue_domain_change parse_url draw actor requested job text now db db1 db2
      one h k =
    let asked =
      enqueue_domain_change-Requested parse_url draw actor job.target_id job.id requested db db1
        h in
    let row = reserved_row (normalized_domain requested) job.target_id job.id in
    let s : db2.sites
        ≡ Table.update (λ (s : Site). s.id =? job.target_id && is_changing s) (active_again now)
            db1.sites =
      ground (arith, k) in
    let r : db2.reservations ≡ Table.delete (of_job job.target_id job.id) db1.reservations =
      ground (arith, k) in
    (
      rw s (
          rw asked.sites (
            update-undone job.target_id draw.now now db.sites asked.site one asked.found
              asked.was_active)),
      rw r (
          rw asked.reservations (
            delete-insert (of_job job.target_id job.id) row db.reservations
              (ground (arith, eq_refl job.target_id, eq_refl job.id))
              (of_job-fresh job.target_id job.id db.reservations asked.new_job))),
    )
