-- ===== src/Store/Sites/Enqueue/Retry.antt =====
-- `retryFailedLifecycleJob` of internal/store/site_changes.go.
use Prim.Native.String.{◌++◌ as append_text}
use wpx.Prelude.{
  String, Bool, true, false, ◌&&◌, none, some, ◌=?◌, Result, ok, guard, ◌>>=◌, ◌>>◌, require, ◌==◌,
  ℕ,
}
use wpx.Prelude.Table
use wpx.Stamp.{Stamp}
use wpx.Model.Site.{
  SiteStatus, active, disabled, disabling, disable_failed, enabling, enable_failed, php_changing,
  php_change_failed, domain_changing, domain_change_failed, deleting, delete_failed,
}
use wpx.Store.Rows.{
  Db, Job, JobKind, JobStatus, TargetType, site_target, kind_name, Error, nothing_to_retry,
  failed_job_missing,
}
use wpx.Store.Statements.{job_by_id}
use wpx.Store.JobOrder.{latest}
use wpx.Store.Users.Access.{User}
use wpx.Store.Sites.Guards.{Draw, require_site_idle, audit_site, update_site}
use wpx.Store.Sites.Enqueue.Requests.{load_site}

abbrev pub status_index : SiteStatus → ℕ
status_index SiteStatus.queued = 0
status_index active = 1
status_index SiteStatus.failed = 2
status_index disabling = 3
status_index disabled = 4
status_index disable_failed = 5
status_index enabling = 6
status_index enable_failed = 7
status_index php_changing = 8
status_index php_change_failed = 9
status_index domain_changing = 10
status_index domain_change_failed = 11
status_index deleting = 12
status_index delete_failed = 13

unfoldable pub status_eq : SiteStatus → SiteStatus → Bool
status_eq a b = status_index a == status_index b

abbrev is_failed : JobStatus → Bool
is_failed JobStatus.failed = true
is_failed _ = false

abbrev pub targets_site : String → TargetType → String → Bool
targets_site site_id site_target target = target =? site_id
targets_site site_id _ target = false

-- The failed jobs of a kind on a site.
abbrev pub failed_job_of : String → JobKind → Job → Bool
failed_job_of site_id kind j =
    targets_site site_id j.target_type j.target_id
    && kind_name j.kind =? kind_name kind
    && is_failed j.status

abbrev requeued : Stamp → Job → Job
requeued now j = record j {
  status = JobStatus.queued;
  phase = "waiting";
  progress = 0;
  error = "";
  finished_at = none;
  updated_at = now;
}

-- `retryFailedLifecycleJob`: the failed job itself is queued again.
unfoldable pub retry_failed_lifecycle_job :
    Draw → User → String → JobKind → SiteStatus → SiteStatus → Db → Result Error (String × Db)
retry_failed_lifecycle_job draw actor site_id kind failed_status pending_status db = do
  require_site_idle site_id db
  site ← require (load_site site_id db) nothing_to_retry
  guard (status_eq site.status failed_status) nothing_to_retry
  job ← require (latest (failed_job_of site_id kind) db.jobs) failed_job_missing
  let db1 = record db { jobs = Table.update (job_by_id job.id) (requeued draw.now) db.jobs }
  let db2 =
      update_site site_id (λ s. record s { status = pending_status; updated_at = draw.now }) db1
  db3 ← audit_site draw (some actor.id) (append_text (kind_name kind) ".retried") site_id db2
  ok (job.id, db3)
