-- ===== src/Store/Sites/Guards.antt =====
-- What the operations on a site check first, of internal/store/site_changes.go.
use wpx.Prelude.{
  String, Bool, true, false, not, ◌&&◌, ◌||◌, Option, none, ◌=?◌, Result, guard, ◌>>=◌, require,
}
use wpx.Prelude.Table
use wpx.Stamp.{Stamp}
use wpx.Rbac.{is_owner, allows, manage_all_sites}
use wpx.Model.Site.{Site}
use wpx.Store.Rows.{
  Db, Job, JobKind, JobStatus, TargetType, site_target, dns_record_target, ftp_user_target, Key,
  Payload, Error, permission_denied, site_busy,
}
use wpx.Store.Statements.{has_site, reads_site, dns_of_site, ftp_of_site, insert_audit}
use wpx.Store.Users.Access.{by_id}

-- The role and the state of the actor as the database has them now.
unfoldable pub site_lifecycle_actor : String → Bool → Db → Result Error (Unit {0})
unfolding allows
site_lifecycle_actor actor_id owner_only db = do
  row ← require (Table.first (by_id actor_id) db.users) permission_denied
  guard
      (not (
        row.disabled
        || (owner_only && not (is_owner row.role))
        || (not owner_only && not (allows row.role manage_all_sites))))
      permission_denied

-- status IN ('queued','running')
abbrev pub is_pending : JobStatus → Bool
is_pending JobStatus.queued = true
is_pending JobStatus.running = true
is_pending _ = false

abbrev uses_target : TargetType → String → String → Db → Bool
uses_target site_target target site_id db = target =? site_id
uses_target dns_record_target target site_id db = dns_of_site target site_id db
uses_target ftp_user_target target site_id db = ftp_of_site target site_id db
uses_target _ target site_id db = false

-- A job that acts on the site, on one of its records or FTP users, or that reads the site.
unfoldable pub involves : String → Db → Job → Bool
involves site_id db job =
    uses_target job.target_type job.target_id site_id db || reads_site job.payload site_id

unfoldable pub site_has_pending_jobs : String → Db → Bool
unfolding involves
site_has_pending_jobs site_id db =
    Table.any (λ (j : Job). is_pending j.status && involves site_id db j) db.jobs

unfoldable pub require_site_idle : String → Db → Result Error (Unit {0})
unfolding site_has_pending_jobs
require_site_idle site_id db = guard (not (site_has_pending_jobs site_id db)) site_busy

-- What an operation on a site draws from the clock and the random source.
pub record Draw : Type 0 where
  pub now : Stamp
  pub job_id : String
  pub audit_id : String

-- The row of a job that is enqueued on a site.
abbrev pub queued_job : Draw → Option String → JobKind → String → Key → Payload → Job
queued_job draw initiator kind site_id key payload = record {
  id = draw.job_id;
  kind = kind;
  target_type = site_target;
  target_id = site_id;
  status = JobStatus.queued;
  phase = "waiting";
  progress = 0;
  error = "";
  initiator_id = initiator;
  idempotency_key = key;
  payload = payload;
  result = "{}";
  created_at = draw.now;
  updated_at = draw.now;
  started_at = none;
  finished_at = none;
}

-- The key `kind:site:job` of a job that may be enqueued again and again.
abbrev pub job_key : JobKind → String → String → Key
job_key kind site_id job_id = record { kind = kind; target_id = site_id; job_id = job_id }

abbrev pub audit_site : Draw → Option String → String → String → Db → Result Error Db
audit_site draw actor action site_id = insert_audit (record {
  id = draw.audit_id;
  actor_id = actor;
  action = action;
  target_type = "site";
  target_id = site_id;
  success = true;
  created_at = draw.now;
})

-- UPDATE sites SET …,updated_at=? WHERE id=?
abbrev pub update_site : String → (Site → Site) → Db → Db
update_site site_id f db = record db { sites = Table.update (has_site site_id) f db.sites }
