-- ===== src/Store/Sites/Enqueue/Deletion.antt =====
-- The deletion of a site: internal/store/site_changes.go.
use wpx.Prelude.{
  String, Bool, true, false, not, ◌&&◌, ◌=?◌, Result, ok, guard, ◌>>=◌, ◌>>◌, require,
  if◌then◌else◌,
}
use wpx.Prelude.Table
use wpx.Text.{Text, ◌=ᵗ◌}
use wpx.Model.SiteId.{valid_site_id}
use wpx.Model.Site.{
  Site, SiteStatus, active, disabled, disable_failed, enable_failed, php_change_failed, deleting,
  delete_failed, runs_php,
}
use wpx.Store.Rows.{
  Db, site_delete, site_deletion, Schedule, Error, invalid_site_id, site_missing, unconfirmed,
  has_staging_copies, not_deletable,
}
use wpx.Store.Statements.{matches_id}
use wpx.Store.Users.Access.{User}
use wpx.Store.Sites.Guards.{Draw, site_lifecycle_actor, require_site_idle}
use wpx.Store.Sites.Enqueue.Requests.{load_site, set_status, enqueue_lifecycle_job}
use wpx.Store.Sites.Enqueue.Retry.{retry_failed_lifecycle_job}

abbrev pub can_delete : SiteStatus → Bool
can_delete active = true
can_delete disabled = true
can_delete SiteStatus.failed = true
can_delete disable_failed = true
can_delete enable_failed = true
can_delete php_change_failed = true
can_delete _ = false

abbrev is_delete_failed : SiteStatus → Bool
is_delete_failed delete_failed = true
is_delete_failed _ = false

-- status NOT IN ('disabled','failed','delete_failed')
abbrev keeps_php_for_delete : SiteStatus → Bool
keeps_php_for_delete disabled = false
keeps_php_for_delete SiteStatus.failed = false
keeps_php_for_delete delete_failed = false
keeps_php_for_delete _ = true

-- Another site that may still run on the PHP branch of this one.
abbrev pub php_in_use : Site → Db → Bool
php_in_use site db =
    runs_php site.kind
    && Table.any
        (λ (s : Site).
          not (s.id =? site.id)
          && runs_php s.kind
          && s.php_version =? site.php_version
          && keeps_php_for_delete s.status)
        db.sites

-- The end of `EnqueueSiteDelete`, for a site whose deletion has not been tried.
unfoldable pub request_deletion : Draw → User → Site → Db → Result Error (String × Db)
request_deletion draw actor site db = do
  guard (can_delete site.status) not_deletable
  db1 ←
      enqueue_lifecycle_job draw actor site.id site_delete
        (site_deletion
          (record { site = set_status deleting site; stop_php = not (php_in_use site db) }))
        deleting db
  let db2 = record db1 {
    schedules =
        Table.update (λ (s : Schedule). s.site_id =? site.id)
          (λ s. record s { enabled = false; updated_at = draw.now }) db1.schedules;
  }
  ok (draw.job_id, db2)

unfoldable pub enqueue_site_delete : Draw → User → String → Text → Db → Result Error (String × Db)
enqueue_site_delete draw actor site_id confirmation db = do
  guard (valid_site_id site_id) invalid_site_id
  site_lifecycle_actor actor.id true db
  site ← require (load_site site_id db) site_missing
  guard (confirmation =ᵗ site.domain) unconfirmed
  require_site_idle site_id db
  guard (not (Table.any (λ (s : Site). matches_id s.parent_site_id site_id) db.sites))
      has_staging_copies
  if is_delete_failed site.status
      then retry_failed_lifecycle_job draw actor site_id site_delete delete_failed deleting db
      else request_deletion draw actor site db
