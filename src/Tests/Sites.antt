-- ===== src/Tests/Sites.antt =====
-- Runs of the requests on a site and of their completion.
use wpx.Prelude.{String, ◌≤◌, ◌≡◌, ◌≢◌, refl, ok, true, [], ◌∷◌, none, arith}
use wpx.Prelude.Table
use wpx.Text.{codes, Text}
use wpx.Rbac.{owner}
use wpx.Model.Site.{Site, active, domain_changing, deleting}
use wpx.Store.Rows.{
  Db, Job, JobKind, running, site_domain_change, site_delete, site_enable, site_target,
  empty_object, site_deletion, Payload, domain_change,
}
use wpx.Store.Statements.{has_site, insert_job}
use wpx.Store.Users.Access.{User, user_of}
use wpx.Store.Sites.Guards.{Draw}
use wpx.Store.Sites.Enqueue.{set_status, enqueue_domain_change, create_site, change_of}
use wpx.Store.Sites.Finish.{
  finish_domain_change, finish_site_delete, failure, success, domain_change_error,
}
use wpx.Store.Sites.Lock.{insert_job-IsHeld, changes_domain, acts_on}
use wpx.Store.Sites.Deleted.{Deleted, finish_site_delete-Deleted}
use wpx.Store.Sites.Undo.{touched, finish_domain_change-enqueue_domain_change}
use wpx.Tests.Data.{account, from_ok, second, no_url, site_id, shop, start}

abbrev job : String → JobKind → Payload → Job
job id kind payload = record {
  id = id;
  kind = kind;
  target_type = site_target;
  target_id = site_id;
  status = running;
  phase = "waiting";
  progress = 0;
  error = "";
  initiator_id = none;
  idempotency_key = record { kind = kind; target_id = site_id; job_id = id };
  payload = payload;
  result = "{}";
  created_at = second 10;
  updated_at = second 10;
  started_at = none;
  finished_at = none;
}

abbrev draw : Draw
draw = record { now = second 30; job_id = "j1"; audit_id = "a1" }

abbrev served : Db
served = record start { users = account "u1" (codes "owner") owner ∷ [] }

abbrev actor : User
actor = user_of (account "u1" (codes "owner") owner)

-- A domain change and its failure, which the host has undone.
abbrev moving : Job
moving = job "j1" site_domain_change (domain_change (change_of shop (codes "new.example.org")))

abbrev asked : String × Db
unfolding enqueue_domain_change
asked =
    from_ok (enqueue_domain_change no_url draw actor site_id (codes "New.Example.org.") served)
      ("", start)

asked-ok :
    enqueue_domain_change no_url draw actor site_id (codes "New.Example.org.") served
    ≡ ok ("j1", asked.1)
unfolding enqueue_domain_change wpx.Model.SiteId.valid_site_id
    wpx.Store.Sites.Guards.site_lifecycle_actor Table.first wpx.Store.Sites.Guards.require_site_idle
    wpx.Model.Site.valid_domain_change wpx.Model.Site.valid_site wpx.Model.Site.valid_domain
    wpx.Text.◌=ᵗ◌ wpx.Store.Sites.Enqueue.enqueue_lifecycle_job insert_job
    wpx.Store.Statements.insert_audit wpx.Store.Statements.insert_reservation Table.update
    Table.insert
asked-ok = refl

abbrev undone : Db
unfolding finish_domain_change
undone =
    from_ok
      (finish_domain_change no_url moving (second 40) (failure "lost" (domain_change_error true))
        asked.1)
      start

undone-ok :
    finish_domain_change no_url moving
      (second 40)
      (failure "lost" (domain_change_error true))
      asked.1
    ≡ ok undone
unfolding finish_domain_change
undone-ok = refl

one_shop : Table.count (has_site site_id) served.sites ≤ 1
unfolding Table.count
one_shop = omega arith

finish_domain_change-enqueue_domain_change_example :
    (undone.sites ≡ Table.update (has_site site_id) (touched (second 40)) served.sites)
    × (undone.reservations ≡ served.reservations)
finish_domain_change-enqueue_domain_change_example =
    finish_domain_change-enqueue_domain_change no_url draw actor (codes "New.Example.org.") moving
      "lost" (second 40) served asked.1 undone one_shop asked-ok undone-ok

-- A site that a domain change holds.
abbrev held : Db
held = record served { sites = set_status domain_changing shop ∷ [] }

insert_job-IsHeld_example : insert_job (job "j2" site_enable empty_object) held ≢ ok held
unfolding Table.first
insert_job-IsHeld_example =
    insert_job-IsHeld (job "j2" site_enable empty_object) site_id held held
      (set_status domain_changing shop, refl, changes_domain) (acts_on refl refl) (λ e. cc)
      (λ e. cc)

-- A deletion.
abbrev removal : Job
removal =
    job "j3" site_delete
      (site_deletion (record { site = set_status deleting shop; stop_php = true }))

abbrev leaving : Db
leaving = record served { sites = set_status deleting shop ∷ [] }

abbrev gone : Db
unfolding finish_site_delete
gone = from_ok (finish_site_delete removal (second 50) success leaving) start

gone-ok : finish_site_delete removal (second 50) success leaving ≡ ok gone
unfolding finish_site_delete Table.first wpx.Store.Sites.Enqueue.status_eq wpx.Text.◌=ᵗ◌
    wpx.Store.Statements.insert_deleted_site Table.any wpx.Store.Statements.delete_site_row
gone-ok = refl

finish_site_delete-Deleted_example : Deleted site_id gone
finish_site_delete-Deleted_example =
    finish_site_delete-Deleted removal (second 50) leaving gone gone-ok

gone-Deleted : Deleted site_id gone
gone-Deleted = finish_site_delete-Deleted removal (second 50) leaving gone gone-ok
