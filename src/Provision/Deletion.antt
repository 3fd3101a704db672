-- ===== src/Provision/Deletion.antt =====
-- `DeleteSite` of internal/provision/delete_site.go: the resources of one site under one job. Reads
-- between which nothing changes are taken together, each group as one call that may fail. The
-- directory of the records is taken as prepared; the host is Linux.
pub mod Files
pub mod Names
pub mod Account
pub mod Cron
pub mod Hosting
pub mod Php
pub mod Checks
pub mod Listing
pub mod Steps
pub mod Removal
pub mod Lines
pub mod Quiet
pub mod Effects
pub mod Stages
pub mod Stability
pub mod Stopping
pub mod Pools
pub mod Services
pub mod Erasing
pub mod Unlinking
pub mod Closing
pub mod Conclusion
pub mod Erasure
pub mod Crash
pub mod Runs
pub mod Series
pub mod Order
pub mod Refusals
pub mod Flaws
pub mod Objections
pub mod Completion
pub mod Bound
pub mod Resumption
use wpx.Prelude.{
  ℕ, String, Bool, true, false, not, ◌&&◌, ◌||◌, Option, none, some, List, [], ◌∷◌, leb,
  if◌then◌else◌,
}
use wpx.Text.{Text, codes, ◌=ᵗ◌, contains}
use wpx.Model.Site.{
  Site, SiteStatus, deleting, delete_failed, byte_length, is_word_press, valid_site,
}
use wpx.Provision.Attempt.{Ending, succeeds, Answer, give_back}
use wpx.Provision.Deletion.Files.{DeletionFile, lookup, is_present, remove_tree, is_valid_tree}
use wpx.Provision.Deletion.Names.{
  Identity, Record, Setup, Resources, P, Verdict, deleted, failed, traffic, python_socket,
  python_service, database, database_user, step, reads, check, remove_path, stop, write_record,
  site_dir, http_link, tls_link, secret_path, database_name, account_name, cron_prefix,
}
use wpx.Provision.Deletion.Account.{
  Inspection, refused, not_found, found, inspect_account, same_identity, stop_site, remove_site,
}
use wpx.Provision.Deletion.Cron.{remove_site_cron}
use wpx.Provision.Deletion.Hosting.{delete_site_hosting}
use wpx.Provision.Deletion.Php.{release_pools, wait_stopped}
use wpx.Provision.Deletion.Checks.{
  is_python, all_versions, all_deletable, is_configured, deletion_configuration, is_journal_safe,
}
use wpx.Provision.Deletion.Listing.{
  site_deletion_files, site_versions, can_list, inspect_deletion_database, has_own_links,
  is_own_record,
}
use wpx.Provision.Deletion.Steps.{stop_traffic, stop_runtime, erase, with_stopped}

abbrev pub owner : Option Identity → Option (ℕ × ℕ)
owner none = none
owner (some i) = some (i.uid, i.gid)

-- The account is still the recorded one, or gone.
abbrev pub is_recorded : Option Identity → Inspection → Bool
is_recorded expected refused = false
is_recorded expected not_found = true
is_recorded none (found i) = false
is_recorded (some expected) (found i) = same_identity i expected

abbrev pub awaits_deletion : SiteStatus → Bool
awaits_deletion deleting = true
awaits_deletion delete_failed = true
awaits_deletion _ = false

unfoldable pub valid_deletion_key : String → Bool
valid_deletion_key key =
    not (codes key =ᵗ [])
    && leb (byte_length (codes key)) 160
    && not (contains 13 (codes key) || contains 10 (codes key))

module _ (setup : Setup) (site : Site) where
  -- With the record written: nothing is undone from here on.
  unfoldable pub carry_out_deletion : List DeletionFile → Record → P
  unfolding stop_traffic stop_runtime erase
  carry_out_deletion files r = stop_traffic setup site (
      if r.is_runtime_stopped
      then erase setup site files r
      else stop_runtime setup site r.php_versions
          (write_record (with_stopped r) (erase setup site files (with_stopped r))))

  abbrev pub is_verified : Record → Resources → Bool
  is_verified r w =
      is_valid_tree (site_dir setup site) w.mounts w.files (owner r.identity)
      && can_list setup site w.files
      && all_versions r.php_versions
      && all_deletable setup.euid w.files (site_deletion_files setup site w.files)
      && has_own_links setup site w.files

  -- The last checks of a run that finds its record, or of one that has just made it up.
  unfoldable pub resume_record : Record → P
  unfolding carry_out_deletion is_valid_tree can_list all_versions all_deletable has_own_links
      site_deletion_files
  resume_record r w =
      check (is_verified r) (carry_out_deletion (site_deletion_files setup site w.files) r) w

  unfoldable pub begin_record : Record → P
  unfolding carry_out_deletion is_valid_tree can_list all_versions all_deletable has_own_links
      site_deletion_files
  begin_record r w =
      check (is_verified r)
        (write_record r (carry_out_deletion (site_deletion_files setup site w.files) r)) w

  abbrev pub inspection : Resources → Inspection
  inspection w = inspect_account (account_name setup site) (site_dir setup site) w.account

  unfoldable pub resume_deletion : Text → Record → P
  unfolding is_own_record inspect_account same_identity resume_record
  resume_deletion configuration r =
      if not (is_own_record setup site configuration r)
      then give_back failed
      else if r.is_done
      then give_back deleted
      else reads (check (λ w. is_recorded r.identity (inspection w)) (resume_record r))

  abbrev pub new_record : Text → Option Identity → Text → List Text → Record
  new_record configuration identity name versions = record {
    site_id = site.id;
    domain = site.domain;
    kind = site.kind;
    site_dir = site_dir setup site;
    configuration = configuration;
    identity = identity;
    database = name;
    php_versions = versions;
    is_runtime_stopped = false;
    is_done = false;
  }

  abbrev pub begin_for : Text → Option Identity → Text → P
  begin_for configuration identity name w =
      begin_record (new_record configuration identity name (site_versions setup site w.files)) w

  abbrev pub begin_with_identity : Text → Inspection → Option Text → P
  begin_with_identity configuration refused name = give_back failed
  begin_with_identity configuration _ none = give_back failed
  begin_with_identity configuration not_found (some name) = begin_for configuration none name
  begin_with_identity configuration (found i) (some name) = begin_for configuration (some i) name

  unfoldable pub begin_deletion : Text → P
  unfolding begin_record inspect_account inspect_deletion_database site_versions
  begin_deletion configuration = reads (λ w.
      begin_with_identity configuration (inspection w)
        (if is_word_press site.kind then inspect_deletion_database setup site w.files else some [])
        w)

  abbrev pub start_with : Option Text → Option Record → P
  start_with none saved = give_back failed
  start_with (some configuration) none = begin_deletion configuration
  start_with (some configuration) (some r) = resume_deletion configuration r

  -- `DeleteSite`; the saved record is the one of the job's key.
  unfoldable pub delete_site : String → P
  unfolding valid_site valid_deletion_key is_configured is_journal_safe deletion_configuration
      begin_deletion resume_deletion
  delete_site job_key =
      if valid_site setup.parse_url site
        && awaits_deletion site.status
        && valid_deletion_key job_key
        && is_configured setup
      then reads (
          check (λ w. is_journal_safe setup site w.files)
            (reads (λ w. start_with (deletion_configuration setup site w.files) w.saved w)))
      else give_back failed
