-- ===== src/Store/Sites/Enqueue/Php.antt =====
-- The change of a site's PHP branch, internal/store/php_version.go, and `EnqueueCertificate` of
-- store.go.
use wpx.Prelude.{
  String, Bool, true, false, not, ◌&&◌, Option, some, ◌=?◌, Result, ok, guard, ◌>>=◌, ◌>>◌, require,
  ◌==◌,
}
use wpx.Prelude.Table
use wpx.Model.SiteId.{valid_site_id}
use wpx.Model.Site.{
  Site, SiteStatus, active, php_changing, php_change_failed, tls_queued, PhpVersionChange, Url,
  valid_php_version_change,
}
use wpx.Store.Rows.{
  Db, Job, site_php_version, site_certificate, empty_object, php_version_change, Error,
  invalid_site_id, site_missing, site_not_active, site_busy, invalid_change,
}
use wpx.Store.Statements.{insert_job}
use wpx.Store.Users.Access.{User}
use wpx.Store.Sites.Guards.{Draw, site_lifecycle_actor, is_pending, queued_job, job_key, audit_site}
use wpx.Store.Sites.Enqueue.Requests.{load_site, enqueue_lifecycle_job}
use wpx.Store.Sites.Enqueue.Retry.{targets_site}
use wpx.Store.Sites.Enqueue.Domain.{is_active}

-- status IN ('active','php_change_failed')
abbrev pub can_change_php : SiteStatus → Bool
can_change_php active = true
can_change_php php_change_failed = true
can_change_php _ = false

abbrev pub php_change_of : Site → String → Bool → PhpVersionChange
php_change_of site version allow_eol = record {
  previous_version = site.php_version;
  version = version;
  allow_eol = allow_eol;
}

unfoldable pub enqueue_php_version_change :
    (String → Option Url) → Draw → User → String → String → Bool → Db → Result Error (String × Db)
enqueue_php_version_change parse_url draw actor site_id version allow_eol db = do
  guard (valid_site_id site_id) invalid_site_id
  site_lifecycle_actor actor.id false db
  site ← require (load_site site_id db) site_missing
  guard (can_change_php site.status) site_not_active
  guard
      (not (
        Table.any
          (λ (j : Job). is_pending j.status && targets_site site_id j.target_type j.target_id)
          db.jobs))
      site_busy
  guard (valid_php_version_change parse_url site (php_change_of site version allow_eol))
      invalid_change
  db1 ←
      enqueue_lifecycle_job draw actor site_id site_php_version
        (php_version_change (php_change_of site version allow_eol)) php_changing db
  ok (draw.job_id, db1)

unfoldable pub enqueue_certificate : Draw → User → String → Db → Result Error (String × Db)
enqueue_certificate draw actor site_id db = do
  guard (valid_site_id site_id) invalid_site_id
  let idle = λ (s : Site). s.id =? site_id && is_active s.status
  guard (Table.count idle db.sites == 1) site_not_active
  db1 ←
      insert_job
        (queued_job draw (some actor.id) site_certificate site_id
          (job_key site_certificate site_id draw.job_id) empty_object)
        (record db {
          sites =
              Table.update idle (λ s. record s { tls_status = tls_queued; updated_at = draw.now })
                db.sites;
        })
  db2 ← audit_site draw (some actor.id) "certificate.requested" site_id db1
  ok (draw.job_id, db2)
