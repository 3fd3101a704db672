-- ===== src/Store/Jobs/Completion.antt =====
-- `FinishJob` of internal/store/store.go for the jobs whose effect is on the site itself.
use wpx.Prelude.{
  String, Bool, true, false, not, ◌&&◌, Option, none, some, List, [], ◌∷◌, ◌=?◌, ◌==◌, Result, ok,
  ◌>>=◌, if◌then◌else◌,
}
use wpx.Prelude.Table
use wpx.Text.{codes}
use wpx.Stamp.{Stamp, text_lt}
use wpx.Model.Site.{
  Site, SiteStatus, active, disabled, disable_failed, enable_failed, TlsStatus, tls_queued,
  tls_active, tls_failed, Url, is_word_press, is_staging, Multisite, subdomains,
}
use wpx.Store.Rows.{
  Db, Job, JobKind, JobStatus, site_provision, site_disable, site_enable, site_domain_change,
  site_delete, site_php_version, site_certificate, site_certificate_dns, staging_create,
  restore_clone, other_job, TargetType, site_target, certificate, DnsRecord, DnsProvider, Error,
  kind_name,
}
use wpx.Store.Statements.{insert_job, insert_audit}
use wpx.Store.Jobs.Queue.{is_running}
use wpx.Store.Sites.Guards.{queued_job, update_site}
use wpx.Store.Sites.Enqueue.{load_site}
use wpx.Store.Sites.Finish.{
  Outcome, success, failure, finish_domain_change, finish_site_delete, finish_php_version_change,
}

-- What the completion of a job draws; the certificate of a staging site may take a job of its own.
pub record FinishDraw : Type 0 where
  pub now : Stamp
  pub audit_id : String
  pub certificate_job_id : String
  pub certificate_audit_id : String

abbrev pub running_as : String → Job → Bool
running_as id j = j.id =? id && is_running j

-- The columns that the completion sets.
abbrev pub completed : Job → String → Outcome → Stamp → Job → Job
completed job result success now j = record j {
  status = JobStatus.succeeded;
  phase = "complete";
  progress = 100;
  error = "";
  result = result;
  updated_at = now;
  finished_at = some now;
}
completed job result (failure text _) now j = record j {
  status = JobStatus.failed;
  phase = "failed";
  progress = job.progress;
  error = text;
  result = result;
  updated_at = now;
  finished_at = some now;
}

-- The records of a site that a certificate could be issued through.
abbrev pub usable_record : String → Db → DnsRecord → Bool
usable_record site_id db r =
    r.site_id =? site_id
    && r.is_address
    && Table.any (λ (p : DnsProvider). p.id =? r.provider_id && p.active) db.dns_providers

abbrev keep_smaller : DnsRecord → Option DnsRecord → DnsRecord
keep_smaller r none = r
keep_smaller r (some q) = if text_lt (codes q.name) (codes r.name) then q else r

-- ORDER BY r.name LIMIT 1
unfoldable pub first_by_name : (DnsRecord → Bool) → List DnsRecord → Option DnsRecord
first_by_name p [] = none
first_by_name p (r ∷ rs) =
    let rest = first_by_name p rs in if p r then some (keep_smaller r rest) else rest

abbrev is_subdomains : Multisite → Bool
is_subdomains subdomains = true
is_subdomains _ = false

-- The job of `enqueueAutomaticStagingCertificate`, through one record of the site.
abbrev pub certificate_job : FinishDraw → Site → DnsRecord → Job
certificate_job draw site r =
    queued_job
      (record { now = draw.now; job_id = draw.certificate_job_id; audit_id = draw.audit_id }) none
      site_certificate_dns site.id
      (record {
        kind = other_job "site.certificate_dns:auto";
        target_id = site.id;
        job_id = draw.certificate_job_id;
      })
      (certificate r.provider_id (is_subdomains site.wordpress_multisite))

abbrev pub request_certificate : FinishDraw → Site → DnsRecord → Db → Result Error Db
request_certificate draw site r db = do
  db1 ←
      insert_job (certificate_job draw site r)
        (update_site site.id (λ s. record s { tls_status = tls_queued; updated_at = draw.now }) db)
  insert_audit
      (record {
        id = draw.certificate_audit_id;
        actor_id = none;
        action = "certificate.dns_automatic";
        target_type = "site";
        target_id = site.id;
        success = true;
        created_at = draw.now;
      })
      db1

unfoldable pub enqueue_automatic_staging_certificate : FinishDraw → String → Db → Result Error Db
enqueue_automatic_staging_certificate draw site_id db = elim (load_site site_id db) [
  | none ↦ ok db
  | some site ↦
      if not (is_word_press site.kind && is_staging site.environment)
      then ok db
      else (elim (first_by_name (usable_record site_id db) db.dns_records) [
        | none ↦ ok db
        | some r ↦ request_certificate draw site r db
      ])
]

abbrev pub site_status : String → SiteStatus → Stamp → Db → Db
site_status site_id status now db =
    update_site site_id (λ s. record s { status = status; updated_at = now }) db

abbrev tls_status : String → TlsStatus → Stamp → Db → Db
tls_status site_id status now db =
    update_site site_id (λ s. record s { tls_status = status; updated_at = now }) db

-- The kinds of job whose completion is modelled.
abbrev pub is_on_site : JobKind → Bool
is_on_site (other_job _) = false
is_on_site _ = true

-- The branches of `FinishJob` for the jobs on sites; a job of another kind has none here.
unfoldable pub finish_kind :
    (String → Option Url) → JobKind → FinishDraw → Job → Outcome → Db → Result Error Db
finish_kind parse_url site_php_version draw job outcome db =
    finish_php_version_change parse_url job draw.now outcome db
finish_kind parse_url site_domain_change draw job outcome db =
    finish_domain_change parse_url job draw.now outcome db
finish_kind parse_url site_delete draw job outcome db = finish_site_delete job draw.now outcome db
finish_kind parse_url site_provision draw job success db =
    ok (site_status job.target_id active draw.now db)
finish_kind parse_url site_provision draw job (failure _ _) db =
    ok (site_status job.target_id SiteStatus.failed draw.now db)
finish_kind parse_url staging_create draw job success db =
    enqueue_automatic_staging_certificate draw job.target_id
      (site_status job.target_id active draw.now db)
finish_kind parse_url staging_create draw job (failure _ _) db =
    ok (site_status job.target_id SiteStatus.failed draw.now db)
finish_kind parse_url restore_clone draw job success db =
    enqueue_automatic_staging_certificate draw job.target_id
      (site_status job.target_id active draw.now db)
finish_kind parse_url restore_clone draw job (failure _ _) db =
    ok (site_status job.target_id SiteStatus.failed draw.now db)
finish_kind parse_url site_disable draw job success db =
    ok (site_status job.target_id disabled draw.now db)
finish_kind parse_url site_disable draw job (failure _ _) db =
    ok (site_status job.target_id disable_failed draw.now db)
finish_kind parse_url site_enable draw job success db =
    ok (site_status job.target_id active draw.now db)
finish_kind parse_url site_enable draw job (failure _ _) db =
    ok (site_status job.target_id enable_failed draw.now db)
finish_kind parse_url site_certificate draw job success db =
    ok (tls_status job.target_id tls_active draw.now db)
finish_kind parse_url site_certificate draw job (failure _ _) db =
    ok (tls_status job.target_id tls_failed draw.now db)
finish_kind parse_url site_certificate_dns draw job success db =
    ok (tls_status job.target_id tls_active draw.now db)
finish_kind parse_url site_certificate_dns draw job (failure _ _) db =
    ok (tls_status job.target_id tls_failed draw.now db)
finish_kind parse_url (other_job _) draw job outcome db = ok db

abbrev pub target_name : TargetType → String
target_name site_target = "site"
target_name TargetType.dns_record_target = "dns_record"
target_name TargetType.ftp_user_target = "ftp_user"
target_name (TargetType.other_target t) = t

abbrev pub is_success : Outcome → Bool
is_success success = true
is_success (failure _ _) = false

-- `FinishJob` for a job on a site: nothing happens unless the job is still running; an error rolls
-- everything back.
unfoldable pub finish_site_job :
    (String → Option Url) → FinishDraw → Job → String → Outcome → Db → Result Error Db
finish_site_job parse_url draw job result outcome db =
    if Table.count (running_as job.id) db.jobs == 0 then ok db else do
      db1 ← finish_kind parse_url job.kind draw job outcome (record db {
        jobs =
            Table.update (running_as job.id)
              (completed job (if result =? "" then "{}" else result) outcome draw.now) db.jobs;
      })
      insert_audit
          (record {
            id = draw.audit_id;
            actor_id = none;
            action = kind_name job.kind;
            target_type = target_name job.target_type;
            target_id = job.target_id;
            success = is_success outcome;
            created_at = draw.now;
          })
          db1
