-- ===== src/Store/Sites/Lock.antt =====
-- The trigger `jobs_site_lifecycle_lock` of internal/store/migrations.go, seen from the jobs that are
-- inserted.
use wpx.Prelude.{
  String, Bool, true, false, ◌||◌, ◌&&◌, ◌≡◌, ◌≢◌, Option, some, arith, refl, eq_iff, eq_refl, ◌=?◌,
  ok,
}
use wpx.Prelude.Table
use wpx.Model.Site.{
  Site, SiteStatus, domain_changing, domain_change_failed, deleting, delete_failed,
}
use wpx.Store.Rows.{
  Db, Job, JobKind, site_domain_change, site_delete, DnsRecord, site_target, dns_record_target,
  object,
}
use wpx.Store.Statements.{
  has_site, is_locked, is_lifecycle, reads_site, lifecycle_lock, insert_job, locks_target,
}
use wpx.Store.Sites.Enqueue.{load_site}

-- The statuses of a site that a domain change or a deletion holds.
pub data HoldingStatus : SiteStatus → Type 0 where
  changes_domain : HoldingStatus domain_changing
  failed_change : HoldingStatus domain_change_failed
  is_deleted : HoldingStatus deleting
  failed_deletion : HoldingStatus delete_failed

-- A site that a domain change or a deletion holds.
abbrev pub IsHeld : String → Db → Type 0
IsHeld site_id db = (site : Site) × (load_site site_id db ≡ some site) × HoldingStatus site.status

-- The ways in which a job uses a site: as its target, through a DNS record of the site as its
-- target, and as the source or the staging site that its payload names.
pub data Uses (job : Job) (site_id : String) (db : Db) : Type 0 where
  acts_on : job.target_type ≡ site_target → job.target_id ≡ site_id → Uses job site_id db
  acts_on_record :
      (d : DnsRecord)
      → job.target_type ≡ dns_record_target
      → Table.first (λ (x : DnsRecord). x.id =? job.target_id) db.dns_records ≡ some d
      → d.site_id ≡ site_id
      → Uses job site_id db
  has_source :
      (staging_id : Option String) (other : String)
      → job.payload ≡ object (some site_id) staging_id other
      → Uses job site_id db
  has_staging :
      (source_id : Option String) (other : String)
      → job.payload ≡ object source_id (some site_id) other
      → Uses job site_id db

HoldingStatus-is_locked : {status : SiteStatus} → HoldingStatus status → is_locked status ≡ true
HoldingStatus-is_locked changes_domain = refl
HoldingStatus-is_locked failed_change = refl
HoldingStatus-is_locked is_deleted = refl
HoldingStatus-is_locked failed_deletion = refl

is_lifecycle-other :
    (kind : JobKind) → kind ≢ site_domain_change → kind ≢ site_delete → is_lifecycle kind ≡ false
is_lifecycle-other site_domain_change no_change no_deletion = absurd (no_change refl)
is_lifecycle-other site_delete no_change no_deletion = absurd (no_deletion refl)
is_lifecycle-other _ no_change no_deletion = refl

-- The test that the trigger puts to each site.
abbrev is_locking : Job → Db → Site → Bool
is_locking job db s =
    is_locked s.status
    && (locks_target job.target_type job.target_id s.id db || reads_site job.payload s.id)

-- What the trigger reads of the job names the site.
Uses-named :
    (row : Job) (site_id : String) (db : Db)
    → Uses row site_id db
    → (locks_target row.target_type row.target_id site_id db || reads_site row.payload site_id)
      ≡ true
Uses-named row site_id db (acts_on target id) = rw target (rw id (rw (eq_refl site_id) refl))
Uses-named row site_id db (acts_on_record d target found own) =
    let own_id : (d.site_id =? site_id) ≡ true = rw own (eq_refl site_id) in
    let same : (d.id =? row.target_id) ≡ true =
      Table.first-holds (λ (x : DnsRecord). x.id =? row.target_id) db.dns_records d found in
    let both : (d.id =? row.target_id && d.site_id =? site_id) ≡ true = rw same (rw own_id refl) in
    let met =
      Table.first-meets (λ (x : DnsRecord). x.id =? row.target_id)
        (λ (x : DnsRecord). x.id =? row.target_id && x.site_id =? site_id) db.dns_records d found
        both in
    rw target (rw met refl)
Uses-named row site_id db (has_source staging_id other payload) =
    rw payload (ground (arith, eq_refl site_id))
Uses-named row site_id db (has_staging source_id other payload) =
    rw payload (ground (arith, eq_refl site_id))

Uses-is_locking :
    (row : Job) (site_id : String) (db : Db) (site : Site)
    → HoldingStatus site.status
    → has_site site_id site ≡ true
    → Uses row site_id db
    → is_locking row db site ≡ true
Uses-is_locking row site_id db site status same uses =
    let same_id : site.id ≡ site_id = ground (arith, same, eq_iff site.id site_id) in
    rw (HoldingStatus-is_locked status) (rw same_id (Uses-named row site_id db uses))

-- A job that is neither a domain change nor a deletion, and that targets a site which a domain
-- change or a deletion is changing or has failed to change, or a DNS record of it, or names it as
-- its source or its staging site, is refused by the insertion, whichever request makes it.
pub insert_job-IsHeld :
    (row : Job) (site_id : String) (db db' : Db)
    → IsHeld site_id db
    → Uses row site_id db
    → row.kind ≢ site_domain_change
    → row.kind ≢ site_delete
    → insert_job row db ≢ ok db'
unfolding insert_job lifecycle_lock
insert_job-IsHeld row site_id db db' (site, found, status) uses no_change no_deletion h =
    let same : has_site site_id site ≡ true =
      Table.first-holds (has_site site_id) db.sites site found in
    let kind = is_lifecycle-other row.kind no_change no_deletion in
    let meets : Table.any (is_locking row db) db.sites ≡ true =
      Table.first-meets (has_site site_id) (is_locking row db) db.sites site found
        (Uses-is_locking row site_id db site status same uses) in
    ground (arith, h, kind, meets)
