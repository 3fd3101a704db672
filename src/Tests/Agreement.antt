-- ===== src/Tests/Agreement.antt =====
-- A run of a domain change from the worker to the host and back.
use wpx.Prelude.{◌≡◌, refl, Option, some, none, List, [], ◌∷◌, Result, ok}
use wpx.Text.{Text, codes}
use wpx.Model.Site.{Site, active}
use wpx.Store.Rows.{Db, Job, Error, site_domain_change, site_target, JobStatus, domain_change}
use wpx.Store.Jobs.{FinishDraw}
use wpx.Worker.{answered, run_domain_change, settle_domain_change}
use wpx.Worker.Outcomes.{FoundAgrees}
use wpx.Worker.Agreement.{run_domain_change-Agrees}
use wpx.Tests.Data.{start, second, site_id, no_url, from_ok}
use wpx.Tests.Domain.{moving, change, case, host, host-AtRest, successes}

abbrev job : Job
job = record {
  id = "job_1";
  kind = site_domain_change;
  target_type = site_target;
  target_id = site_id;
  status = JobStatus.running;
  phase = "waiting";
  progress = 0;
  error = "";
  initiator_id = none;
  idempotency_key = record { kind = site_domain_change; target_id = site_id; job_id = "job_1" };
  payload = domain_change change;
  result = "{}";
  created_at = second 10;
  updated_at = second 10;
  started_at = none;
  finished_at = none;
}

abbrev db : Db
db = record start {
  sites = moving ∷ [];
  jobs = job ∷ [];
  reservations = record { domain = change.domain; site_id = site_id; job_id = "job_1" } ∷ [];
}

abbrev draw : FinishDraw
draw = record {
  now = second 30;
  audit_id = "audit_1";
  certificate_job_id = "job_2";
  certificate_audit_id = "audit_2";
}

abbrev finished : Result Error Db
finished =
    settle_domain_change no_url draw job ""
      (run_domain_change no_url case.render answered "" job db host (successes 40)).1 db

abbrev after : Db
after = from_ok finished db

went_well : finished ≡ ok after
unfolding settle_domain_change wpx.Store.Jobs.finish_site_job wpx.Store.Jobs.finish_kind
    wpx.Store.Statements.insert_audit wpx.Prelude.Table.count wpx.Prelude.Table.update
    wpx.Store.Sites.Finish.finish_domain_change run_domain_change wpx.Prelude.Table.first
    wpx.Model.Site.valid_domain_change wpx.Model.Site.valid_site wpx.Model.SiteId.valid_site_id
    wpx.Model.Site.valid_domain wpx.Text.◌=ᵗ◌ wpx.Text.contains wpx.Provision.Vhosts.inspect_vhost
    wpx.Text.Search.has_prefix wpx.Provision.DomainChange.can_begin wpx.Provision.DomainChange.gate
    wpx.Provision.DomainChange.maintenance_tls wpx.Store.Sites.Enqueue.status_eq
    wpx.Prelude.Table.any wpx.Store.Statements.update_domain
went_well = refl

run_domain_change-Agrees_example :
    FoundAgrees case job after
      (run_domain_change no_url case.render answered "" job db host (successes 40)).0
unfolding wpx.Prelude.Table.first wpx.Prelude.Table.count wpx.Model.Site.valid_domain_change
    wpx.Model.Site.valid_site wpx.Model.SiteId.valid_site_id wpx.Model.Site.valid_domain
    wpx.Text.◌=ᵗ◌ wpx.Text.contains wpx.Worker.valid_lifecycle_key wpx.Text.trim_space
    wpx.Worker.serve_change_domain wpx.Provision.Vhosts.inspect_vhost wpx.Text.Search.has_prefix
    wpx.Provision.DomainChange.can_begin wpx.Provision.DomainChange.gate
    wpx.Provision.DomainChange.maintenance_tls
run_domain_change-Agrees_example =
    run_domain_change-Agrees case no_url answered "" draw job host (successes 40) db after refl refl
      refl refl refl refl refl host-AtRest went_well
