-- ===== src/Store/Sites/Enqueue/Requests.antt =====
-- `CreateSite` of internal/store/store.go, the transitions of lifecycle.go, and the common body of
-- the requests of site_changes.go and php_version.go.
use Prim.Native.String.{◌++◌ as append_text}
use wpx.Prelude.{
  String, Bool, true, false, Option, none, some, Result, ok, guard, ◌>>=◌, ◌>>◌, require,
}
use wpx.Prelude.Table
use wpx.Model.SiteId.{valid_site_id}
use wpx.Model.Site.{
  Site, SiteStatus, active, disabled, disabling, disable_failed, enabling, enable_failed,
  not_configured, production, Url, is_word_press, normalized_domain, valid_site,
}
use wpx.Store.Rows.{
  Db, JobKind, site_provision, site_disable, site_enable, Payload, empty_object, kind_name, Error,
  invalid_site_id, site_missing, invalid_site, transition_not_permitted,
}
use wpx.Store.Statements.{has_site, insert_site, insert_job}
use wpx.Store.Users.Access.{User}
use wpx.Store.Sites.Guards.{
  Draw, site_lifecycle_actor, require_site_idle, queued_job, job_key, audit_site, update_site,
}

-- `SELECT status FROM sites` and the other columns of one site
abbrev pub load_site : String → Db → Option Site
load_site site_id db = Table.first (has_site site_id) db.sites

abbrev pub set_status : SiteStatus → Site → Site
set_status status s = record s { status = status }

-- The row that `CreateSite` inserts; the columns that it leaves out take their defaults.
abbrev new_site : Draw → Site → Site
new_site draw site = record {
  id = site.id;
  domain = normalized_domain site.domain;
  kind = site.kind;
  php_version = site.php_version;
  upstream = site.upstream;
  allow_eol = site.allow_eol;
  status = SiteStatus.queued;
  tls_status = not_configured;
  environment = production;
  parent_site_id = none;
  redis_enabled = is_word_press site.kind;
  fastcgi_cache_enabled = is_word_press site.kind;
  wordpress_multisite = site.wordpress_multisite;
  created_at = draw.now;
  updated_at = draw.now;
}

unfoldable pub create_site :
    (String → Option Url) → Draw → User → Site → Db → Result Error (String × Db)
create_site parse_url draw actor requested db = do
  let site = record requested { domain = normalized_domain requested.domain }
  guard (valid_site parse_url site) invalid_site
  db1 ← insert_site (new_site draw site) db
  db2 ←
      insert_job
        (queued_job draw (some actor.id) site_provision site.id (job_key site_provision site.id "")
          empty_object)
        db1
  db3 ← audit_site draw (some actor.id) "site.requested" site.id db2
  ok (draw.job_id, db3)

-- The common body of disabling, enabling and provisioning again.
unfoldable pub enqueue_site_transition :
    Draw
    → User
    → String
    → JobKind
    → (SiteStatus → Bool)
    → SiteStatus
    → Db
    → Result Error (String × Db)
enqueue_site_transition draw actor site_id kind allowed transition db = do
  guard (valid_site_id site_id) invalid_site_id
  site_lifecycle_actor actor.id false db
  require_site_idle site_id db
  site ← require (load_site site_id db) site_missing
  guard (allowed site.status) transition_not_permitted
  db1 ←
      insert_job
        (queued_job draw (some actor.id) kind site_id (job_key kind site_id draw.job_id)
          empty_object)
        (update_site site_id (λ s. record s { status = transition; updated_at = draw.now }) db)
  db2 ← audit_site draw (some actor.id) (append_text (kind_name kind) ".requested") site_id db1
  ok (draw.job_id, db2)

abbrev pub can_disable : SiteStatus → Bool
can_disable active = true
can_disable disable_failed = true
can_disable _ = false

abbrev pub can_enable : SiteStatus → Bool
can_enable disabled = true
can_enable enable_failed = true
can_enable _ = false

abbrev pub can_provision_again : SiteStatus → Bool
can_provision_again SiteStatus.failed = true
can_provision_again _ = false

unfoldable pub enqueue_site_disable : Draw → User → String → Db → Result Error (String × Db)
unfolding enqueue_site_transition
enqueue_site_disable draw actor site_id =
    enqueue_site_transition draw actor site_id site_disable can_disable disabling

unfoldable pub enqueue_site_enable : Draw → User → String → Db → Result Error (String × Db)
unfolding enqueue_site_transition
enqueue_site_enable draw actor site_id =
    enqueue_site_transition draw actor site_id site_enable can_enable enabling

unfoldable pub enqueue_site_provision_retry : Draw → User → String → Db → Result Error (String × Db)
unfolding enqueue_site_transition
enqueue_site_provision_retry draw actor site_id =
    enqueue_site_transition draw actor site_id site_provision can_provision_again SiteStatus.queued

-- `enqueueLifecycleJob`: the reservation of the site's status, the job and the audit event.
unfoldable pub enqueue_lifecycle_job :
    Draw → User → String → JobKind → Payload → SiteStatus → Db → Result Error Db
enqueue_lifecycle_job draw actor site_id kind payload status db = do
  db1 ←
      insert_job
        (queued_job draw (some actor.id) kind site_id (job_key kind site_id draw.job_id) payload)
        (update_site site_id (λ s. record s { status = status; updated_at = draw.now }) db)
  audit_site draw (some actor.id) (append_text (kind_name kind) ".requested") site_id db1
