-- ===== src/Store/Sites/Enqueue/Domain.antt =====
-- The change of a site's domain: internal/store/site_changes.go.
use wpx.Prelude.{
  String, Bool, true, false, not, ◌||◌, Option, Result, ok, guard, ◌>>=◌, ◌>>◌, require,
}
use wpx.Prelude.Table
use wpx.Text.{Text, ◌=ᵗ◌}
use wpx.Model.SiteId.{valid_site_id}
use wpx.Model.Site.{
  Site, SiteStatus, active, domain_changing, domain_change_failed, DomainChange, Url,
  normalized_domain, valid_domain_change,
}
use wpx.Store.Rows.{
  Db, site_domain_change, domain_change, Reservation, Error, invalid_site_id, site_missing,
  site_not_active, invalid_change, domain_taken,
}
use wpx.Store.Statements.{same_domain, sql_normalized, insert_reservation}
use wpx.Store.Users.Access.{User}
use wpx.Store.Sites.Guards.{Draw, site_lifecycle_actor, require_site_idle}
use wpx.Store.Sites.Enqueue.Requests.{load_site, set_status, enqueue_lifecycle_job}
use wpx.Store.Sites.Enqueue.Retry.{retry_failed_lifecycle_job}

abbrev pub change_of : Site → Text → DomainChange
change_of site domain = record {
  previous_domain = site.domain;
  domain = domain;
  previous_tls_status = site.tls_status;
}

abbrev pub is_active : SiteStatus → Bool
is_active active = true
is_active _ = false

-- A site has the domain already, or a reservation holds it.
abbrev pub domain_is_taken : Text → Db → Bool
domain_is_taken domain db =
    Table.any (λ (s : Site). sql_normalized s.domain =ᵗ domain) db.sites
    || Table.any (λ (r : Reservation). same_domain r.domain domain) db.reservations

unfoldable pub enqueue_domain_change :
    (String → Option Url) → Draw → User → String → Text → Db → Result Error (String × Db)
enqueue_domain_change parse_url draw actor site_id requested db = do
  guard (valid_site_id site_id) invalid_site_id
  let domain = normalized_domain requested
  site_lifecycle_actor actor.id false db
  site ← require (load_site site_id db) site_missing
  guard (is_active site.status) site_not_active
  require_site_idle site.id db
  guard (valid_domain_change parse_url (set_status domain_changing site) (change_of site domain))
      invalid_change
  guard (not (domain_is_taken domain db)) domain_taken
  db1 ←
      enqueue_lifecycle_job draw actor site_id site_domain_change
        (domain_change (change_of site domain)) domain_changing db
  db2 ← insert_reservation (record { domain = domain; site_id = site_id; job_id = draw.job_id }) db1
  ok (draw.job_id, db2)

unfoldable pub retry_domain_change : Draw → User → String → Db → Result Error (String × Db)
retry_domain_change draw actor site_id db = do
  site_lifecycle_actor actor.id false db
  retry_failed_lifecycle_job draw actor site_id site_domain_change domain_change_failed
      domain_changing db
