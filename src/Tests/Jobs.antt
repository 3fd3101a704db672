-- ===== src/Tests/Jobs.antt =====
-- Runs of the queue, of the lifecycle of a site and of its end.
use wpx.Prelude.{
  Bool-cases, inl, inr, sym, ◌+◌, ℕ, String, ◌≤◌, ◌≡◌, ◌≢◌, ◌=?◌, refl, ok, false, [], ◌∷◌, none,
  eq_iff, arith,
}
use wpx.Prelude.Table
use wpx.Stamp.{Stamp}
use wpx.Store.Rows.{
  Db, Job, JobKind, JobStatus, running, queued, site_provision, site_enable, site_target,
  empty_object, Payload,
}
use wpx.Store.Statements.{has_site, insert_job, job_by_id, insert_site}
use wpx.Store.JobOrder.{earliest}
use wpx.Store.Sites.Finish.{failure, success, plain_error}
use wpx.Store.Jobs.{
  is_queued, is_running, claim_next_job, requeue_interrupted_jobs, FinishDraw, finish_site_job,
}
use wpx.Store.Jobs.Claim.{
  UniqueJobs, claim_next_job-none, claim_next_job_ne, requeue_interrupted_jobs_lem,
}
use wpx.Store.Jobs.Once.{finish_site_job_once}
use wpx.Tests.Data.{from_ok, second, no_url, site_id, start}

abbrev job : String → JobKind → JobStatus → Payload → ℕ → Job
job id kind status payload at = record {
  id = id;
  kind = kind;
  target_type = site_target;
  target_id = site_id;
  status = status;
  phase = "waiting";
  progress = 0;
  error = "";
  initiator_id = none;
  idempotency_key = record { kind = kind; target_id = site_id; job_id = id };
  payload = payload;
  result = "{}";
  created_at = second at;
  updated_at = second at;
  started_at = none;
  finished_at = none;
}

abbrev later_job : Job
later_job = job "j2" site_enable queued empty_object 20

abbrev first_job : Job
first_job = job "j1" site_provision queued empty_object 10

start_unique : (id : String) → Table.count (job_by_id id) start.jobs ≤ 1
unfolding Table.count
start_unique id = omega arith

abbrev two_jobs : Db
two_jobs = record start { jobs = later_job ∷ first_job ∷ [] }

two_jobs-UniqueJobs : UniqueJobs two_jobs
unfolding Table.count
two_jobs-UniqueJobs id = elim (Bool-cases ("j1" =? id)) [
  | inl e ↦ let same : "j1" ≡ id = ground (arith, e, eq_iff "j1" id) in rw (sym same) (omega arith)
  | inr e ↦ ground (arith, e)
]

abbrev claimed_job : Job
claimed_job = record first_job { status = running; phase = "starting"; progress = 1 }

claim_next_job_ne_example : claimed_job.id ≢ "j2"
unfolding claim_next_job earliest Table.count wpx.Store.JobOrder.job_before wpx.Stamp.sorts_before
    Table.update
claim_next_job_ne_example =
    claim_next_job_ne (second 30) (second 31) two_jobs claimed_job
      (record later_job { status = running; phase = "starting"; progress = 1 }) two_jobs-UniqueJobs
      refl refl

claim_next_job-none_example : Table.any is_queued start.jobs ≡ false
unfolding claim_next_job earliest
claim_next_job-none_example = claim_next_job-none (second 30) start (λ id. start_unique id) refl

abbrev in_progress : Db
in_progress = record start { jobs = record first_job { status = running } ∷ later_job ∷ [] }

requeue_interrupted_jobs_lem_example :
    let (n, db') = requeue_interrupted_jobs (second 40) in_progress in
    (Table.count is_running db'.jobs ≡ 0)
    × (Table.count is_queued db'.jobs ≡ Table.count is_queued in_progress.jobs + n)
    × ((id : String)
        → Table.count (job_by_id id) db'.jobs ≡ Table.count (job_by_id id) in_progress.jobs)
requeue_interrupted_jobs_lem_example = requeue_interrupted_jobs_lem (second 40) in_progress

abbrev draw : ℕ → String → FinishDraw
draw n audit_id = record {
  now = second n;
  audit_id = audit_id;
  certificate_job_id = "j9";
  certificate_audit_id = "a9";
}

abbrev finished : Db
unfolding finish_site_job
finished = from_ok (finish_site_job no_url (draw 50 "a1") first_job "" success in_progress) start

finished-ok : finish_site_job no_url (draw 50 "a1") first_job "" success in_progress ≡ ok finished
unfolding finish_site_job Table.count wpx.Store.Jobs.finish_kind wpx.Store.Statements.insert_audit
    Table.any
finished-ok = refl

finish_site_job_once_example :
    finish_site_job no_url (draw 60 "a2") first_job "late" (failure "lost" plain_error) finished
    ≡ ok finished
finish_site_job_once_example =
    finish_site_job_once no_url (draw 50 "a1") (draw 60 "a2") first_job "" "late" success
      (failure "lost" plain_error) in_progress finished refl finished-ok
