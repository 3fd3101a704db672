-- ===== src/Store/Statements.antt =====
-- The statements of internal/store under the constraints of internal/store/migrations.go: primary
-- keys, UNIQUE columns and indexes, CHECKs, foreign keys and triggers.
use wpx.Prelude.{
  String, Bool, true, false, not, ◌&&◌, ◌||◌, Option, none, some, ◌=?◌, ◌==◌, Result, guard, ok, ℕ,
  leb, ◌+◌, [], ◌∷◌, map, if◌then◌else◌, ◌>>◌,
}
use wpx.Prelude.Table
use mathlib.Core.List.{reverse}
use wpx.Text.{Text, ◌=ᵗ◌}
use wpx.Rbac.{is_owner, valid_role, capability_eq}
use wpx.Model.Site.{
  Site, SiteStatus, domain_changing, domain_change_failed, deleting, delete_failed, Environment,
  production, staging, Multisite, other_multisite, valid_site_kind,
}
use wpx.Store.Rows.{
  Db, UserRow, Grant, AuditEvent, Job, JobKind, site_domain_change, site_delete, kind_name,
  TargetType, site_target, dns_record_target, Key, Payload, object, Reservation, DeletedSite,
  DnsRecord, FtpUser, Schedule, Error, constraint,
}

-- COLLATE NOCASE and `lower` fold the ASCII letters only.
abbrev pub fold_rune : ℕ → ℕ
fold_rune c = if leb b'A' c && leb c b'Z' then c + 32 else c

-- Whether a user row has the identifier.
abbrev pub has_user : String → Db → Bool
has_user id db = Table.any (λ (u : UserRow). u.id =? id) db.users

-- INSERT INTO users: the primary key, the unique user name, the index `one_owner`, and the CHECK
-- on the role.
unfoldable pub insert_user : UserRow → Db → Result Error Db
insert_user row db = do
  guard (not (has_user row.id db)) constraint
  guard (not (Table.any (λ (u : UserRow). u.username =ᵗ row.username) db.users)) constraint
  guard (not (is_owner row.role && Table.any (λ (u : UserRow). is_owner u.role) db.users))
      constraint
  guard (valid_role row.role) constraint
  ok (record db { users = Table.insert row db.users })

-- A reference that may be NULL.
abbrev pub references_user : Option String → Db → Bool
references_user none db = true
references_user (some id) db = has_user id db

-- INSERT INTO audit_events
unfoldable pub insert_audit : AuditEvent → Db → Result Error Db
insert_audit row db = do
  guard (not (Table.any (λ (e : AuditEvent). e.id =? row.id) db.audit_events)) constraint
  guard (references_user row.actor_id db) constraint
  ok (record db { audit_events = Table.insert row db.audit_events })

abbrev pub same_grant : Grant → Grant → Bool
same_grant g h =
    g.user_id =? h.user_id && g.site_id =? h.site_id && capability_eq g.capability h.capability

-- INSERT INTO site_grants
unfoldable pub insert_grant : Grant → Db → Result Error Db
insert_grant row db = do
  guard (not (Table.any (same_grant row) db.grants)) constraint
  guard (has_user row.user_id db) constraint
  guard (Table.any (λ s. s.id =? row.site_id) db.sites) constraint
  ok (record db { grants = Table.insert row db.grants })

abbrev pub has_site : String → Site → Bool
has_site id s = s.id =? id

-- status IN ('domain_changing','domain_change_failed','deleting','delete_failed')
abbrev pub is_locked : SiteStatus → Bool
is_locked domain_changing = true
is_locked domain_change_failed = true
is_locked deleting = true
is_locked delete_failed = true
is_locked _ = false

-- kind IN ('site.domain_change','site.delete')
abbrev pub is_lifecycle : JobKind → Bool
is_lifecycle site_domain_change = true
is_lifecycle site_delete = true
is_lifecycle _ = false

abbrev pub matches_id : Option String → String → Bool
matches_id none id = false
matches_id (some other) id = other =? id

-- json_extract(payload_json,'$.source_id')=id OR json_extract(payload_json,'$.staging_id')=id
abbrev pub reads_site : Payload → String → Bool
reads_site (object source_id staging_id _) id = matches_id source_id id || matches_id staging_id id
reads_site _ id = false

abbrev pub dns_of_site : String → String → Db → Bool
dns_of_site record_id site_id db =
    Table.any (λ (d : DnsRecord). d.id =? record_id && d.site_id =? site_id) db.dns_records

abbrev pub ftp_of_site : String → String → Db → Bool
ftp_of_site user_id site_id db =
    Table.any (λ (f : FtpUser). f.id =? user_id && f.site_id =? site_id) db.ftp_users

-- What the lifecycle lock takes for a job on a site.
abbrev pub locks_target : TargetType → String → String → Db → Bool
locks_target site_target target site_id db = target =? site_id
locks_target dns_record_target target site_id db = dns_of_site target site_id db
locks_target _ target site_id db = false

-- The trigger `jobs_site_lifecycle_lock`.
unfoldable pub lifecycle_lock : Job → Db → Bool
lifecycle_lock job db =
    not (is_lifecycle job.kind)
    && Table.any
        (λ (s : Site).
          is_locked s.status
          && (locks_target job.target_type job.target_id s.id db || reads_site job.payload s.id))
        db.sites

abbrev pub same_key : Key → Key → Bool
same_key a b =
    kind_name a.kind =? kind_name b.kind && a.target_id =? b.target_id && a.job_id =? b.job_id

abbrev pub job_by_id : String → Job → Bool
job_by_id id j = j.id =? id

-- INSERT INTO jobs
unfoldable pub insert_job : Job → Db → Result Error Db
unfolding lifecycle_lock
insert_job row db = do
  guard (not (Table.any (job_by_id row.id) db.jobs)) constraint
  guard (not (Table.any (λ (j : Job). same_key j.idempotency_key row.idempotency_key) db.jobs))
      constraint
  guard (references_user row.initiator_id db) constraint
  guard (not (lifecycle_lock row db)) constraint
  ok (record db { jobs = Table.insert row db.jobs })

-- trim(x) and rtrim(x,'.') of SQLite: spaces at both ends, then every dot at the end.
abbrev drop_while_is : ℕ → Text → Text
drop_while_is d [] = []
drop_while_is d (c ∷ t) = let rest = drop_while_is d t in if c == d then rest else c ∷ t

abbrev pub sql_normalized : Text → Text
sql_normalized domain =
    map fold_rune
      (reverse (drop_while_is b'.' (drop_while_is 32 (reverse (drop_while_is 32 domain)))))

-- The reservations' domains compare without regard to the case of ASCII letters.
abbrev pub same_domain : Text → Text → Bool
same_domain s t = map fold_rune s =ᵗ map fold_rune t

-- The triggers `sites_reserved_domain_insert` and `sites_reserved_domain_update`.
unfoldable pub reserved_by_other : Text → String → Db → Bool
reserved_by_other domain site_id db =
    Table.any
      (λ (r : Reservation).
        same_domain r.domain (sql_normalized domain) && not (r.site_id =? site_id))
      db.reservations

abbrev environment_checks : Environment → Bool
environment_checks production = true
environment_checks staging = true
environment_checks _ = false

abbrev multisite_checks : Multisite → Bool
multisite_checks (other_multisite _) = false
multisite_checks _ = true

abbrev parent_exists : Option String → Db → Bool
parent_exists none db = true
parent_exists (some id) db = Table.any (has_site id) db.sites

-- A row of a kind, an environment and a multisite mode that the CHECKs admit, under a parent that
-- exists.
abbrev site_checks : Site → Db → Bool
site_checks row db =
    valid_site_kind row.kind
    && environment_checks row.environment
    && multisite_checks row.wordpress_multisite
    && parent_exists row.parent_site_id db

-- INSERT INTO sites
unfoldable pub insert_site : Site → Db → Result Error Db
unfolding reserved_by_other
insert_site row db = do
  guard (not (Table.any (has_site row.id) db.sites)) constraint
  guard (not (Table.any (λ (s : Site). s.domain =ᵗ row.domain) db.sites)) constraint
  guard (site_checks row db) constraint
  guard (not (reserved_by_other row.domain row.id db)) constraint
  guard (not (Table.any (λ (d : DeletedSite). d.id =? row.id) db.deleted_sites)) constraint
  ok (record db { sites = Table.insert row db.sites })

-- UPDATE sites SET domain=? for one site, with the UNIQUE column and the trigger.
unfoldable pub update_domain : String → Text → (Site → Site) → Db → Result Error Db
unfolding reserved_by_other
update_domain id domain f db = do
  guard (not (reserved_by_other domain id db)) constraint
  guard (not (Table.any (λ (s : Site). s.domain =ᵗ domain && not (s.id =? id)) db.sites)) constraint
  ok (record db { sites = Table.update (has_site id) f db.sites })

-- INSERT INTO site_domain_reservations
unfoldable pub insert_reservation : Reservation → Db → Result Error Db
insert_reservation row db = do
  guard (not (Table.any (λ (r : Reservation). same_domain r.domain row.domain) db.reservations))
      constraint
  guard (not (Table.any (λ (r : Reservation). r.site_id =? row.site_id) db.reservations)) constraint
  guard (not (Table.any (λ (r : Reservation). r.job_id =? row.job_id) db.reservations)) constraint
  guard (Table.any (has_site row.site_id) db.sites) constraint
  guard (Table.any (job_by_id row.job_id) db.jobs) constraint
  ok (record db { reservations = Table.insert row db.reservations })

-- INSERT INTO deleted_sites
unfoldable pub insert_deleted_site : DeletedSite → Db → Result Error Db
insert_deleted_site row db = do
  guard (not (Table.any (λ (d : DeletedSite). d.id =? row.id) db.deleted_sites)) constraint
  ok (record db { deleted_sites = Table.insert row db.deleted_sites })

-- DELETE FROM sites for one site: refused while another site has it as its parent, and carried on
-- to the rows that refer to it with ON DELETE CASCADE.
unfoldable pub delete_site_row : String → Db → Result Error Db
delete_site_row id db = do
  guard (not (Table.any (λ (s : Site). matches_id s.parent_site_id id) db.sites)) constraint
  ok (record db {
    sites = Table.delete (has_site id) db.sites;
    grants = Table.delete (λ (g : Grant). g.site_id =? id) db.grants;
    reservations = Table.delete (λ (r : Reservation). r.site_id =? id) db.reservations;
    dns_records = Table.delete (λ (d : DnsRecord). d.site_id =? id) db.dns_records;
    ftp_users = Table.delete (λ (f : FtpUser). f.site_id =? id) db.ftp_users;
    schedules = Table.delete (λ (s : Schedule). s.site_id =? id) db.schedules;
  })
