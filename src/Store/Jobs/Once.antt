-- ===== src/Store/Jobs/Once.antt =====
-- `FinishJob` of internal/store/store.go, one completion after another, for the jobs on sites.
use wpx.Prelude.{
  ℕ, String, ◌=?◌, ◌==◌, ◌≡◌, true, Option, arith, inl, inr, Option-cases, Result-cases, Bool-cases,
  ap, if◌then◌else◌, ok,
}
use wpx.Prelude.Table
use wpx.Prelude.Table.Rows
use wpx.Stamp.{Stamp}
use wpx.Model.Site.{Site, active, Url}
use wpx.Store.Rows.{
  Db, Job, JobKind, DnsRecord, site_domain_change, site_delete, site_php_version, staging_create,
  restore_clone,
}
use wpx.Store.Statements.{
  insert_job, insert_audit, update_domain, insert_deleted_site, delete_site_row,
}
use wpx.Store.Sites.Enqueue.{load_site}
use wpx.Store.Sites.Finish.{
  Outcome, success, failure, finish_domain_change, finish_site_delete, finish_php_version_change,
}
use wpx.Store.Jobs.{
  FinishDraw, running_as, completed, finish_kind, finish_site_job, is_on_site,
  enqueue_automatic_staging_certificate, first_by_name, usable_record, request_certificate,
  certificate_job, site_status,
}

-- The running jobs of an identifier, which no effect of a finished job adds to.
abbrev runs : String → Db → ℕ
runs id db = Table.count (running_as id) db.jobs

finish_domain_change-jobs :
    (parse_url : String → Option Url) (job : Job) (now : Stamp) (outcome : Outcome) (db db' : Db)
    → finish_domain_change parse_url job now outcome db ≡ ok db'
    → db'.jobs ≡ db.jobs
unfolding finish_domain_change update_domain
finish_domain_change-jobs parse_url job now outcome db db' h = ground arith

finish_site_delete-jobs :
    (job : Job) (now : Stamp) (outcome : Outcome) (db db' : Db)
    → finish_site_delete job now outcome db ≡ ok db'
    → db'.jobs ≡ db.jobs
unfolding finish_site_delete insert_deleted_site delete_site_row
finish_site_delete-jobs job now outcome db db' h = ground arith

finish_php_version_change-jobs :
    (parse_url : String → Option Url) (job : Job) (now : Stamp) (outcome : Outcome) (db db' : Db)
    → finish_php_version_change parse_url job now outcome db ≡ ok db'
    → db'.jobs ≡ db.jobs
unfolding finish_php_version_change
finish_php_version_change-jobs parse_url job now outcome db db' h = ground arith

-- A job that is enqueued is not running.
request_certificate-runs :
    (draw : FinishDraw) (site : Site) (r : DnsRecord) (id : String) (db db' : Db)
    → request_certificate draw site r db ≡ ok db'
    → runs id db' ≡ runs id db
unfolding insert_job insert_audit
request_certificate-runs draw site r id db db' h =
    let row = certificate_job draw site r in
    let jobs : db'.jobs ≡ Table.insert row db.jobs = ground arith in
    rw jobs (ground (arith, Table.count-insert (running_as id) row db.jobs))

automatic_certificate-runs :
    (draw : FinishDraw) (site_id id : String) (db db' : Db)
    → enqueue_automatic_staging_certificate draw site_id db ≡ ok db'
    → runs id db' ≡ runs id db
unfolding enqueue_automatic_staging_certificate
automatic_certificate-runs draw site_id id db db' h = elim (Option-cases (load_site site_id db)) [
  | inl e ↦ ground arith
  | inr (site, e) ↦ elim (Option-cases (first_by_name (usable_record site_id db) db.dns_records)) [
    | inl f ↦ ground arith
    | inr (r, f) ↦ ground (arith, request_certificate-runs draw site r id db db')
  ]
]

module _ (parse_url : String → Option Url) (draw : FinishDraw) (job : Job) (id : String)
    (db db' : Db) where
  -- Whatever a finished job does to its site, it starts no job.
  finish_kind-runs :
      (kind : JobKind) (outcome : Outcome)
      → finish_kind parse_url kind draw job outcome db ≡ ok db'
      → runs id db' ≡ runs id db
  unfolding finish_kind
  finish_kind-runs site_domain_change outcome h =
      ap (Table.count (running_as id))
        (finish_domain_change-jobs parse_url job draw.now outcome db db' h)
  finish_kind-runs site_delete outcome h =
      ap (Table.count (running_as id)) (finish_site_delete-jobs job draw.now outcome db db' h)
  finish_kind-runs site_php_version outcome h =
      ap (Table.count (running_as id))
        (finish_php_version_change-jobs parse_url job draw.now outcome db db' h)
  finish_kind-runs staging_create success h =
      automatic_certificate-runs draw job.target_id id
        (site_status job.target_id active draw.now db) db' h
  finish_kind-runs restore_clone success h =
      automatic_certificate-runs draw job.target_id id
        (site_status job.target_id active draw.now db) db' h
  finish_kind-runs _ outcome h = ground arith

-- The completed rows are not running.
completed-runs :
    (job : Job) (result : String) (outcome : Outcome) (now : Stamp) (db : Db)
    → Table.count
        (running_as job.id)
        (Table.update (running_as job.id) (completed job result outcome now) db.jobs)
      ≡ 0
completed-runs job result success now db = Table.count-zero_any (running_as job.id) _ (
    Rows.any-update (running_as job.id) (running_as job.id) (completed job result success now)
      db.jobs (λ x h. h) (λ x h. ground arith))
completed-runs job result (failure text r) now db = Table.count-zero_any (running_as job.id) _ (
    Rows.any-update (running_as job.id) (running_as job.id)
      (completed job result (failure text r) now) db.jobs (λ x h. h) (λ x h. ground arith))

-- After the completion of a job on a site has succeeded, completing it again, with any result and
-- any outcome, succeeds and changes nothing in the database.
pub finish_site_job_once :
    (parse_url : String → Option Url) (draw again : FinishDraw) (job : Job) (result other : String)
    (outcome late : Outcome) (db db' : Db)
    → is_on_site job.kind ≡ true
    → finish_site_job parse_url draw job result outcome db ≡ ok db'
    → finish_site_job parse_url again job other late db' ≡ ok db'
unfolding finish_site_job insert_audit
finish_site_job_once parse_url draw again job result other outcome late db db' _ h =
    elim (Bool-cases (runs job.id db == 0)) [
      | inl e ↦ ground arith
      | inr e ↦
          let text = if result =? "" then "{}" else result in
          let db1 : Db = record db {
            jobs = Table.update (running_as job.id) (completed job text outcome draw.now) db.jobs;
          } in
          elim (Result-cases (finish_kind parse_url job.kind draw job outcome db1)) [
            | inr (x, f) ↦ absurd (ground arith)
            | inl (db2, f) ↦ ground (
              arith,
              finish_kind-runs parse_url draw job job.id db1 db2 job.kind outcome f,
              completed-runs job text outcome draw.now db,
            )
          ]
    ]
