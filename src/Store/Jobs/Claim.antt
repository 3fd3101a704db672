-- ===== src/Store/Jobs/Claim.antt =====
-- What `ClaimNextJob` and `RequeueInterruptedJobs` of internal/store/store.go do to the queue.
use mathlib.Core.List.{Memᴰ}
use wpx.Prelude.{
  ◌+◌, ◌≤◌, String, true, false, ◌≡◌, ◌≢◌, none, some, List, [], ◌∷◌, arith, refl, inl, inr,
  eq_refl, Option-cases, ◌||◌, not, ◌&&◌, some,
}
use wpx.Prelude.Table
use wpx.Prelude.Table.Rows
use wpx.Text.{codes}
use wpx.Stamp.{Stamp, sorts_before, text_lt}
use wpx.Store.Rows.{Db, Job, JobStatus}
use wpx.Store.Statements.{job_by_id}
use wpx.Store.JobOrder.{earliest}
use wpx.Store.JobOrder.Least.{earliest-holds, earliest-meets, earliest-none}
use wpx.Store.Jobs.{
  is_queued, is_running, started, queued_as, claim_next_job, interrupted, requeue_interrupted_jobs,
}

-- The primary key of the table of jobs.
abbrev pub UniqueJobs : Db → Type 0
UniqueJobs db = (id : String) → Table.count (job_by_id id) db.jobs ≤ 1

count-queued_as-le :
    (id : String) (js : List Job) → Table.count (queued_as id) js ≤ Table.count (job_by_id id) js
unfolding Table.count
count-queued_as-le id [] = omega arith
count-queued_as-le id (x ∷ xs) = ground (arith, count-queued_as-le id xs)

meets-queued_as : (j : Job) → is_queued j ≡ true → queued_as j.id j ≡ true
meets-queued_as j h = ground (arith, eq_refl j.id)

-- The row of the job that the query returns is the only one that the update meets.
queued_as_unique :
    (db : Db) (j : Job)
    → UniqueJobs db
    → earliest is_queued db.jobs ≡ some j
    → Table.count (queued_as j.id) db.jobs ≡ 1
queued_as_unique db j u e =
    let found : Table.any (queued_as j.id) db.jobs ≡ true =
      earliest-meets is_queued (queued_as j.id) db.jobs j e
        (meets-queued_as j (earliest-holds is_queued db.jobs j e)) in
    let counted : Table.count (queued_as j.id) db.jobs ≢ 0 =
      λ z. cc (Table.any_of_count (queued_as j.id) db.jobs z) in
    omega (arith, u j.id, count-queued_as-le j.id db.jobs)

-- When job identifiers are unique and a claim returns no job, no job is queued.
pub claim_next_job-none :
    (now : Stamp) (db : Db)
    → UniqueJobs db
    → (claim_next_job now db).0 ≡ none
    → Table.any is_queued db.jobs ≡ false
unfolding claim_next_job
claim_next_job-none now db u h = elim (Option-cases (earliest is_queued db.jobs)) [
  | inl e ↦ earliest-none is_queued db.jobs e
  | inr (j, e) ↦ ground (arith, queued_as_unique db j u e)
]

-- What a claim at an instant from one database to another that returns a job comes to.
pub record ClaimSpec (now : Stamp) (db db' : Db) (j : Job) : Type 0 where
  pub row : Job
  pub in_table : Memᴰ row db.jobs
  pub was_queued : row.status ≡ JobStatus.queued
  pub returned : j ≡ record row { status = JobStatus.running; phase = "starting"; progress = 1 }
  pub held :
      Memᴰ
        (record row {
          status = JobStatus.running;
          phase = "starting";
          progress = 1;
          started_at = some now;
          updated_at = now;
        })
        db'.jobs
  pub others : Table.delete (job_by_id j.id) db'.jobs ≡ Table.delete (job_by_id j.id) db.jobs
  pub first :
      (x : Job)
      → Memᴰ x db.jobs
      → x.status ≡ JobStatus.queued
      → (sorts_before x.created_at row.created_at
          || not (sorts_before row.created_at x.created_at) && text_lt (codes x.id) (codes row.id))
        ≡ false
  pub one_less_queued : Table.count is_queued db'.jobs + 1 ≡ Table.count is_queued db.jobs
  pub one_more_running : Table.count is_running db'.jobs ≡ Table.count is_running db.jobs + 1
  pub same_size :
      (id : String) → Table.count (job_by_id id) db'.jobs ≡ Table.count (job_by_id id) db.jobs

-- When job identifiers are unique, two claims in a row, at any instants, return jobs of different
-- identifiers.
pub claim_next_job_ne :
    (now later : Stamp) (db : Db) (j k : Job)
    → UniqueJobs db
    → (claim_next_job now db).0 ≡ some j
    → (claim_next_job later (claim_next_job now db).1).0 ≡ some k
    → j.id ≢ k.id
unfolding claim_next_job
claim_next_job_ne now later db j k u h g same = elim (Option-cases (earliest is_queued db.jobs)) [
  | inl e ↦ ground arith
  | inr (r, e) ↦
      let jobs = Table.update (queued_as r.id) (started now) db.jobs in
      elim (Option-cases (earliest is_queued jobs)) [
        | inl f ↦ ground (arith, queued_as_unique db r u e)
        | inr (q, f) ↦ ground (
          arith,
          queued_as_unique db r u e,
          earliest-meets is_queued (queued_as q.id) jobs q f,
          meets-queued_as q (earliest-holds is_queued jobs q f),
          Rows.any-update (queued_as r.id) (queued_as r.id) (started now) db.jobs (λ x h. h)
              (λ x h. ground arith),
        )
      ]
]

-- Requeueing leaves no job running, lengthens the queue by the number that it returns, and keeps
-- the number of rows of every identifier.
pub requeue_interrupted_jobs_lem :
    (now : Stamp) (db : Db)
    → let (n, db') = requeue_interrupted_jobs now db in
      (Table.count is_running db'.jobs ≡ 0)
      × (Table.count is_queued db'.jobs ≡ Table.count is_queued db.jobs + n)
      × ((id : String) → Table.count (job_by_id id) db'.jobs ≡ Table.count (job_by_id id) db.jobs)
unfolding requeue_interrupted_jobs
requeue_interrupted_jobs_lem now db = (
  Table.count-zero_any is_running _
      (Rows.any-update is_running is_running (interrupted now) db.jobs (λ x h. h) (λ x h. refl)),
  ground (
    arith,
    Rows.count-update-shift is_queued is_running (interrupted now) false true db.jobs
        (λ x q. ground arith) (λ x q. refl),
  ),
  λ id. Table.count-update (job_by_id id) is_running (interrupted now) db.jobs (λ x q. refl),
)
