-- ===== src/Worker/Agreement.antt =====
-- The store and the host after a job that changes a domain (internal/worker/site_changes.go,
-- internal/store/site_changes.go, internal/provision/domain_change.go).
use mathlib.Core.Path.{subst}
use wpx.Prelude.{
  String, Bool, true, false, ◌≡◌, Option, some, List, Result, ok, refl, sym, ap, ◌∙◌, arith, ◌==◌,
  ◌>>=◌, none, >>=-eq-ok,
}
use wpx.Prelude.Table
use wpx.Prelude.Table.Rows
use wpx.Stamp.{Stamp}
use wpx.Model.Site.{domain_changing, Url, valid_domain_change}
use wpx.Provision.Attempt.{Answer}
use wpx.Provision.Journal.{Host}
use wpx.Provision.DomainChange.{is_awaiting}
use wpx.Provision.DomainChange.Phases.{Case, Consistent}
use wpx.Store.Rows.{Db, Job, Error, AuditEvent, site_domain_change, kind_name}
use wpx.Store.Jobs.{
  FinishDraw, running_as, queued_as, waiting_again, completed, finish_kind, finish_site_job,
  target_name, is_success, retry_site_lifecycle_job,
}
use wpx.Store.Statements.{has_site, insert_audit}
use wpx.Store.Sites.Enqueue.{load_site}
use wpx.Store.Sites.Finish.{
  Outcome, success, failure, plain_error, domain_change_error, decode_domain_change,
}
use wpx.Worker.{
  Response, changed_response, error_response, Connection, unavailable, response_lost, answered,
  told, valid_lifecycle_key, serve_change_domain, received, call_change_domain, key_text,
  run_domain_change, settle_domain_change,
}
use wpx.Worker.Replies.{Tells, run_domain_change-Tells}
use wpx.Worker.Outcomes.{FoundAgrees, Waits, by_outcome, held_as, ok_eq}

audited_sites :
    (row : AuditEvent) (db db2 : Db) → insert_audit row db ≡ ok db2 → db2.sites ≡ db.sites
unfolding insert_audit
audited_sites row db db2 k = ground arith

FoundAgrees-sites :
    (c : Case) (job : Job) (db db2 : Db) (host : Host)
    → db2.sites ≡ db.sites
    → FoundAgrees c job db host
    → FoundAgrees c job db2 host
FoundAgrees-sites c job db db2 host e (site, found, agrees) =
    (site, ap (λ sites. Table.first (has_site job.target_id) sites) e ∙ found, agrees)

-- A running job is finished with the outcome that the host has told.
told-Agrees :
    (c : Case) (parse_url : String → Option Url) (draw : FinishDraw) (job : Job) (host : Host)
    (outcome : Outcome) (db db2 : Db)
    → load_site job.target_id db ≡ some c.site
    → c.site.status ≡ domain_changing
    → decode_domain_change job.payload ≡ some c.change
    → job.kind ≡ site_domain_change
    → (Table.count (running_as job.id) db.jobs == 0) ≡ false
    → Tells c (host, told outcome)
    → finish_site_job parse_url draw job "{}" outcome db ≡ ok db2
    → FoundAgrees c job db2 host
unfolding finish_site_job finish_kind
told-Agrees c parse_url draw job host outcome db db2 found awaiting payload kind running t k =
    let ends : (finish_kind parse_url job.kind draw job outcome db1 >>= audits) ≡ ok db2 =
      rw running at k in
    let (db3, finished, audited) =
      >>=-eq-ok (finish_kind parse_url job.kind draw job outcome db1) audits ends in
    FoundAgrees-sites c job db3 db2 host (audited_sites row db3 db2 audited) (
      by_outcome c parse_url job draw.now db1 db3 found awaiting payload host outcome t
        (subst (λ x. finish_kind parse_url x draw job outcome db1 ≡ ok db3) kind finished))
  where
    db1 : Db
    db1 = record db {
      jobs = Table.update (running_as job.id) (completed job "{}" outcome draw.now) db.jobs;
    }

    row : AuditEvent
    row = record {
      id = draw.audit_id;
      actor_id = none;
      action = kind_name job.kind;
      target_type = target_name job.target_type;
      target_id = job.target_id;
      success = is_success outcome;
      created_at = draw.now;
    }

    audits : Db → Result Error Db
    audits d = insert_audit row d

retry_site_lifecycle_job-Waits :
    (c : Case) (job : Job) (detail : String) (now : Stamp) (db db2 : Db) (host : Host)
    → Consistent c host
    → Path (Result Error Db) (ok (retry_site_lifecycle_job job.id detail now db)) (ok db2)
    → Waits c job db db2 host
unfolding retry_site_lifecycle_job
retry_site_lifecycle_job-Waits c job detail now db db2 host s k =
    subst (λ d. Waits c job db d host) (ok_eq k)
      (
        refl,
        refl,
        Rows.any-update (held_as job.id) (held_as job.id) (waiting_again detail now) db.jobs
            (λ x h. h) (λ x h. ground arith),
        ground (
          arith,
          Rows.count-update-shift (queued_as job.id) (held_as job.id) (waiting_again detail now)
              false true db.jobs (λ x h. ground arith) (λ x h. ground arith),
        ),
        s,
      )

-- A response of the broker reaches the worker.
abbrev pub arrives : Connection → Option Response → Bool
arrives answered (some response) = true
arrives _ _ = false

-- With the response of the broker, store and host agree; without one, the job waits.
abbrev pub Settles : Bool → Case → Job → Db → Db → Host → Type 0
Settles true c job db db' host = FoundAgrees c job db' host
Settles false c job db db' host = Waits c job db db' host

received-Settles :
    (c : Case) (parse_url : String → Option Url) (connection : Connection) (text : String)
    (draw : FinishDraw) (job : Job) (host : Host) (served : Host × Option Response) (db db2 : Db)
    → load_site job.target_id db ≡ some c.site
    → c.site.status ≡ domain_changing
    → decode_domain_change job.payload ≡ some c.change
    → job.kind ≡ site_domain_change
    → (Table.count (running_as job.id) db.jobs == 0) ≡ false
    → Tells c (received connection host served text)
    → settle_domain_change parse_url draw job text (received connection host served text).1 db
      ≡ ok db2
    → Settles (arrives connection served.1) c job db db2 (received connection host served text).0
unfolding settle_domain_change
received-Settles c parse_url unavailable text draw job host served db db2 found awaiting payload
      kind running t e =
    retry_site_lifecycle_job-Waits c job _ draw.now db db2 host t e
received-Settles c parse_url response_lost text draw job host served db db2 found awaiting payload
      kind running t e =
    retry_site_lifecycle_job-Waits c job _ draw.now db db2 served.0 t e
received-Settles c parse_url answered text draw job host (after, none) db db2 found awaiting payload
      kind running t e =
    retry_site_lifecycle_job-Waits c job _ draw.now db db2 after t e
received-Settles c parse_url answered text draw job host (after, some changed_response) db db2 found
      awaiting payload kind running t e =
    told-Agrees c parse_url draw job after success db db2 found awaiting payload kind running t e
received-Settles c parse_url answered text draw job host (after, some (error_response none)) db db2
      found awaiting payload kind running t e =
    told-Agrees c parse_url draw job after (failure text plain_error) db db2 found awaiting payload
      kind running t e
received-Settles c parse_url answered text draw job host (after, some (error_response (some b))) db
      db2 found awaiting payload kind running t e =
    told-Agrees c parse_url draw job after (failure text (domain_change_error b)) db db2 found
      awaiting payload kind running t e

-- Let the store have the site of a case, awaiting the valid change of a job that is running and has
-- a valid key, and let the host fit that case. After the worker has run the job over the broker,
-- whatever the host's calls meet, and has settled it in the store without an error: when the broker
-- was out of reach, ended, or its response was lost, sites and reservations are untouched, the rows
-- of the job that were running are queued again, and the host fits its journal; and otherwise the
-- site is active under the new domain and the host serves it, or it is active under its old domain
-- and the host is as it was, or the change is recorded as failed and the host fits its journal.
pub run_domain_change-Agrees :
    (c : Case) (parse_url : String → Option Url) (connection : Connection) (text : String)
    (draw : FinishDraw) (job : Job) (host : Host) (answers : List Answer) (db db2 : Db)
    → load_site job.target_id db ≡ some c.site
    → c.site.status ≡ domain_changing
    → decode_domain_change job.payload ≡ some c.change
    → valid_domain_change parse_url c.site c.change ≡ true
    → valid_lifecycle_key (key_text job.idempotency_key) ≡ true
    → job.kind ≡ site_domain_change
    → (Table.count (running_as job.id) db.jobs == 0) ≡ false
    → Consistent c host
    → settle_domain_change parse_url draw job text
        (run_domain_change parse_url c.render connection text job db host answers).1
        db
      ≡ ok db2
    → Settles
        (arrives connection
          (serve_change_domain parse_url c.render c.site c.change
            (key_text job.idempotency_key)
            host
            answers).1)
        c
        job
        db
        db2
        (run_domain_change parse_url c.render connection text job db host answers).0
unfolding run_domain_change call_change_domain
run_domain_change-Agrees c parse_url connection text draw job host answers db db2 found awaiting
      payload valid valid_key kind running s k =
    subst
      (λ run.
        Tells c run
        → settle_domain_change parse_url draw job text run.1 db ≡ ok db2
        → Settles (arrives connection served.1) c job db db2 run.0)
      (sym sent)
      (received-Settles c parse_url connection text draw job host served db db2 found awaiting
        payload kind running)
      (run_domain_change-Tells c parse_url connection text host answers s job db payload found) k
  where
    served : Host × Option Response
    served =
        serve_change_domain parse_url c.render c.site c.change (key_text job.idempotency_key) host
          answers

    sent :
        run_domain_change parse_url c.render connection text job db host answers
        ≡ received connection host served text
    sent =
        let pending : is_awaiting c.site.status ≡ true = rw awaiting refl in
        rw payload (rw found (rw pending (rw valid (rw valid_key refl))))
