-- ===== src/Store/Jobs/Queue.antt =====
-- The queue of jobs: `ClaimNextJob` and `RequeueInterruptedJobs` of internal/store/store.go, and the
-- retries after an uncertain exchange with the broker.
use wpx.Prelude.{ℕ, String, Bool, true, false, ◌&&◌, Option, none, some, ◌=?◌, ◌==◌, if◌then◌else◌}
use wpx.Prelude.Table
use wpx.Stamp.{Stamp}
use wpx.Store.Rows.{Db, Job, JobKind, JobStatus, site_domain_change, site_delete, site_php_version}
use wpx.Store.JobOrder.{earliest}

abbrev pub is_queued : Job → Bool
is_queued j = elim j.status [ JobStatus.queued ↦ true | _ ↦ false ]

abbrev pub is_running : Job → Bool
is_running j = elim j.status [ JobStatus.running ↦ true | _ ↦ false ]

abbrev pub started : Stamp → Job → Job
started now j = record j {
  status = JobStatus.running;
  phase = "starting";
  progress = 1;
  started_at = some now;
  updated_at = now;
}

-- WHERE id=? AND status='queued'
abbrev pub queued_as : String → Job → Bool
queued_as id j = j.id =? id && is_queued j

-- The job as the caller gets it: as it was read, with the three members that the claim sets.
abbrev pub claimed : Job → Job
claimed j = record j { status = JobStatus.running; phase = "starting"; progress = 1 }

-- The query, and the conditional update: nothing is claimed unless it changed one row.
unfoldable pub claim_next_job : Stamp → Db → Option Job × Db
claim_next_job now db = elim (earliest is_queued db.jobs) [
  | none ↦ (none, db)
  | some job ↦ (
    if Table.count (queued_as job.id) db.jobs == 1 then some (claimed job) else none,
    record db { jobs = Table.update (queued_as job.id) (started now) db.jobs },
  )
]

abbrev pub interrupted : Stamp → Job → Job
interrupted now j = record j {
  status = JobStatus.queued;
  phase = "waiting";
  progress = 0;
  error = "previous worker stopped before reporting completion";
  started_at = none;
  updated_at = now;
}

-- The number of rows that the update changed, and the database.
unfoldable pub requeue_interrupted_jobs : Stamp → Db → ℕ × Db
requeue_interrupted_jobs now db = (
  Table.count is_running db.jobs,
  record db { jobs = Table.update is_running (interrupted now) db.jobs },
)

abbrev pub waiting_again : String → Stamp → Job → Job
waiting_again detail now j = record j {
  status = JobStatus.queued;
  phase = "waiting";
  error = detail;
  updated_at = now;
}

abbrev pub is_site_change : JobKind → Bool
is_site_change site_domain_change = true
is_site_change site_delete = true
is_site_change _ = false

abbrev is_php_change : JobKind → Bool
is_php_change site_php_version = true
is_php_change _ = false

-- `RetrySiteLifecycleJob`
unfoldable pub retry_site_lifecycle_job : String → String → Stamp → Db → Db
retry_site_lifecycle_job job_id detail now db = record db {
  jobs =
      Table.update (λ (j : Job). j.id =? job_id && is_site_change j.kind && is_running j)
        (waiting_again detail now) db.jobs;
}

-- `RetryPHPVersionChange`
unfoldable pub retry_php_version_change : String → String → Stamp → Db → Db
retry_php_version_change job_id detail now db = record db {
  jobs =
      Table.update (λ (j : Job). j.id =? job_id && is_php_change j.kind && is_running j)
        (waiting_again detail now) db.jobs;
}
