-- ===== src/Store/Sites/Finish.antt =====
-- What the completion of a job does to its site: `finishDomainChange` and `finishSiteDelete` of
-- internal/store/site_changes.go, `finishPHPVersionChange` of php_version.go, and the branches of
-- `FinishJob` of store.go for the jobs that act on sites.
use wpx.Prelude.{
  ℕ, String, Bool, true, false, ◌&&◌, Option, none, some, [], ◌=?◌, ◌==◌, Result, ok, guard, ◌>>=◌,
  ◌>>◌, require,
}
use wpx.Prelude.Table
use wpx.Text.{◌=ᵗ◌}
use wpx.Stamp.{Stamp}
use wpx.Model.Site.{
  Site, SiteKind, other_kind, SiteStatus, active, php_changing, php_change_failed, domain_changing,
  domain_change_failed, deleting, delete_failed, not_configured, DomainChange, PhpVersionChange,
  Url, valid_domain_change, valid_php_version_change,
}
use wpx.Store.Rows.{
  Db, Job, Payload, domain_change, site_deletion, php_version_change, malformed, SiteDeletion,
  Reservation, Error, site_missing, bad_payload, stale_job, invalid_change, reservation_lost,
}
use wpx.Store.Statements.{same_domain, update_domain, insert_deleted_site, delete_site_row}
use wpx.Store.Sites.Guards.{update_site}
use wpx.Store.Sites.Enqueue.{load_site, status_eq}

-- The error that an operation of the host ended with, as far as `errors.As` looks into it.
pub data Restored : Type 0 where
  plain_error : Restored
  domain_change_error : Bool → Restored
  php_change_error : Bool → Restored

-- `operationErr`
pub data Outcome : Type 0 where
  success : Outcome
  failure : String → Restored → Outcome

abbrev pub of_job : String → String → Reservation → Bool
of_job site_id job_id r = r.site_id =? site_id && r.job_id =? job_id

abbrev drop_reservation : String → String → Db → Db
drop_reservation site_id job_id db = record db {
  reservations = Table.delete (of_job site_id job_id) db.reservations;
}

-- UPDATE sites SET status=? WHERE id=? AND status=?
abbrev pub leave_status : String → SiteStatus → SiteStatus → Stamp → Db → Db
leave_status site_id from to now db = record db {
  sites =
      Table.update (λ (s : Site). s.id =? site_id && status_eq s.status from)
        (λ s. record s { status = to; updated_at = now }) db.sites;
}

-- json.Unmarshal into a `DomainChange`: an object of another shape has none of its members.
abbrev pub decode_domain_change : Payload → Option DomainChange
decode_domain_change (domain_change c) = some c
decode_domain_change (malformed _) = none
decode_domain_change _ =
    some (record { previous_domain = []; domain = []; previous_tls_status = not_configured })

unfoldable pub finish_domain_change :
    (String → Option Url) → Job → Stamp → Outcome → Db → Result Error Db
finish_domain_change parse_url job now (failure _ (domain_change_error true)) db = ok (
    leave_status job.target_id domain_changing active now
      (drop_reservation job.target_id job.id db))
finish_domain_change parse_url job now (failure _ _) db =
    ok (leave_status job.target_id domain_changing domain_change_failed now db)
finish_domain_change parse_url job now success db = do
  change ← require (decode_domain_change job.payload) bad_payload
  site ← require (load_site job.target_id db) site_missing
  guard (status_eq site.status domain_changing) stale_job
  guard (valid_domain_change parse_url site change) invalid_change
  guard
      (Table.any
        (λ (r : Reservation). of_job site.id job.id r && same_domain r.domain change.domain)
        db.reservations)
      reservation_lost
  db1 ←
      update_domain site.id change.domain
        (λ s. record s {
          domain = change.domain;
          tls_status = not_configured;
          status = active;
          updated_at = now;
        })
        db
  ok (drop_reservation site.id job.id db1)

-- json.Unmarshal into a `SiteDeletion`: without its member, the site is empty and matches no job.
abbrev decode_deletion : Payload → Option SiteDeletion
decode_deletion (site_deletion d) = some d
decode_deletion _ = none

abbrev kind_index : SiteKind → ℕ
kind_index SiteKind.word_press = 0
kind_index SiteKind.php = 1
kind_index SiteKind.python = 2
kind_index SiteKind.static = 3
kind_index SiteKind.reverse_proxy = 4
kind_index (other_kind _) = 5

abbrev kind_text : SiteKind → String
kind_text (other_kind t) = t
kind_text _ = ""

abbrev same_kind : SiteKind → SiteKind → Bool
same_kind a b = kind_index a == kind_index b && kind_text a =? kind_text b

unfoldable pub finish_site_delete : Job → Stamp → Outcome → Db → Result Error Db
finish_site_delete job now (failure _ _) db =
    ok (leave_status job.target_id deleting delete_failed now db)
finish_site_delete job now success db = do
  deletion ← require (decode_deletion job.payload) bad_payload
  guard (deletion.site.id =? job.target_id) bad_payload
  site ← require (load_site job.target_id db) site_missing
  guard
      (status_eq site.status deleting
        && site.domain =ᵗ deletion.site.domain
        && same_kind site.kind deletion.site.kind)
      stale_job
  db1 ←
      insert_deleted_site
        (record { id = site.id; domain = site.domain; site = site; deleted_at = now }) db
  delete_site_row site.id db1

-- json.Unmarshal into a `PHPVersionChange`
abbrev decode_php_change : Payload → Option PhpVersionChange
decode_php_change (php_version_change c) = some c
decode_php_change (malformed _) = none
decode_php_change _ = some (record { previous_version = ""; version = ""; allow_eol = false })

unfoldable pub finish_php_version_change :
    (String → Option Url) → Job → Stamp → Outcome → Db → Result Error Db
finish_php_version_change parse_url job now (failure _ (php_change_error true)) db =
    ok (leave_status job.target_id php_changing active now db)
finish_php_version_change parse_url job now (failure _ _) db =
    ok (leave_status job.target_id php_changing php_change_failed now db)
finish_php_version_change parse_url job now success db = do
  change ← require (decode_php_change job.payload) bad_payload
  site ← require (load_site job.target_id db) site_missing
  guard (status_eq site.status php_changing && site.php_version =? change.previous_version)
      stale_job
  guard (valid_php_version_change parse_url site change) invalid_change
  ok (
      update_site job.target_id
        (λ s. record s {
          status = active;
          php_version = change.version;
          allow_eol = change.allow_eol;
          updated_at = now;
        })
        db)
