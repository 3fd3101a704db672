-- ===== src/Tests/Resumption.antt =====
-- A run of the deletion that resumes after the runtime has stopped.
use wpx.Prelude.{
  ℕ, zero, suc, ◌+◌, ◌≤◌, arith, true, false, ◌≡◌, refl, some, List, [], ◌∷◌, ◌++◌, ◌&&◌,
}
use wpx.Text.{Text, codes, ◌=ᵗ◌, length, split, trim_space}
use wpx.Text.Paths.{join_with}
use wpx.Model.Site.{Site, deleting, active, Url}
use wpx.Provision.Attempt.{Answer, returned}
use wpx.Provision.Vhosts.{ownership_marker}
use wpx.Provision.Deletion.Files.{
  Entry, Files, Node, regular, directory, symlink, socket, lookup, php_ownership_marker,
}
use wpx.Provision.Deletion.Names.{Resources, Record, deleted, site_dir, ftp_home, database_name}
use wpx.Provision.Deletion.Refusals.{may_start}
use wpx.Provision.Deletion.Account.{identity_in}
use wpx.Provision.Deletion.Checks.{configured_paths, is_journal_safe, deletion_configuration}
use wpx.Provision.Deletion.Listing.{site_deletion_files, is_own_record}
use wpx.Provision.Deletion.Hosting.{without_access, marker_line}
use wpx.Provision.Deletion.Lines.{split-without_access}
use wpx.Provision.Deletion.Completion.{AllSucceed}
use wpx.Provision.Deletion.Resumption.{Resumable, delete_site_completes}
use wpx.Provision.Deletion.{delete_site, is_recorded, inspection, is_verified}
use wpx.Tests.Deletion.{going, setup, files, account, start, successes}

abbrev half_way : Record
half_way = record {
  site_id = going.id;
  domain = going.domain;
  kind = going.kind;
  site_dir = site_dir setup going;
  configuration = join_with (0 ∷ []) (configured_paths setup going);
  identity = some (identity_in account);
  database = database_name setup going;
  php_versions = codes "8.3" ∷ [];
  is_runtime_stopped = true;
  is_done = false;
}

abbrev stopped_half_way : Resources
stopped_half_way = record start { saved = some half_way }

going_may : may_start setup going "job" ≡ true
unfolding wpx.Model.Site.valid_site wpx.Model.SiteId.valid_site_id wpx.Model.Site.valid_domain
    wpx.Provision.Deletion.valid_deletion_key ◌=ᵗ◌ wpx.Text.contains
    wpx.Provision.Deletion.Checks.is_configured wpx.Text.starts_with
going_may = refl

going_is_safe : is_journal_safe setup going stopped_half_way.files ≡ true
unfolding is_journal_safe wpx.Text.starts_with ◌=ᵗ◌
going_is_safe = refl

going_is_configured :
    deletion_configuration setup going stopped_half_way.files
    ≡ some (join_with (0 ∷ []) (configured_paths setup going))
unfolding deletion_configuration wpx.Text.starts_with ◌=ᵗ◌
going_is_configured = refl

going_is_own :
    is_own_record setup going (join_with (0 ∷ []) (configured_paths setup going)) half_way ≡ true
unfolding is_own_record ◌=ᵗ◌ join_with configured_paths
going_is_own = refl

going-is_recorded : is_recorded half_way.identity (inspection setup going stopped_half_way) ≡ true
unfolding wpx.Provision.Deletion.Account.inspect_account ◌=ᵗ◌
    wpx.Provision.Deletion.Account.same_identity
going-is_recorded = refl

going_can : is_verified setup going half_way stopped_half_way ≡ true
unfolding wpx.Provision.Deletion.Files.is_valid_tree ◌=ᵗ◌ wpx.Provision.Deletion.Listing.can_list
    wpx.Text.starts_with wpx.Provision.Deletion.Checks.all_versions
    wpx.Provision.Deletion.Checks.all_deletable site_deletion_files
    wpx.Provision.Deletion.Listing.has_own_links
going_can = refl

going_can_drop : (true && half_way.database =ᵗ database_name setup going) ≡ true
unfolding ◌=ᵗ◌
going_can_drop = refl

going_enough :
    length (site_deletion_files setup going files) ≡ 6
    → length (site_deletion_files setup going files) + 23 ≤ 29
going_enough e = omega (arith, e)

successes-AllSucceed : (n : ℕ) → AllSucceed (successes n)
successes-AllSucceed zero = tt
successes-AllSucceed (suc n) = (refl, refl, successes-AllSucceed n)

half_way-Resumable : Resumable setup going "job" stopped_half_way
half_way-Resumable = record {
  record_of = half_way;
  configuration = join_with (0 ∷ []) (configured_paths setup going);
  started = going_may;
  journal_safe = going_is_safe;
  configured = going_is_configured;
  saved = refl;
  own = going_is_own;
  is_open = refl;
  is_stopped = refl;
  recorded = going-is_recorded;
  verified = going_can;
  can_drop = λ _. going_can_drop;
}

going_files : length (site_deletion_files setup going files) ≡ 6
unfolding site_deletion_files wpx.Text.Search.has_prefix wpx.Text.contains ◌=ᵗ◌ wpx.Text.split
going_files = refl

delete_site_completes_example :
    (v : Resources) × (rest : List Answer) × (delete_site setup going "job" stopped_half_way
        (successes 29)
      ≡ returned deleted v rest)
delete_site_completes_example =
    delete_site_completes setup going "job" stopped_half_way (successes 29) half_way-Resumable
      (successes-AllSucceed 29) (going_enough going_files)

split-without_access_example :
    split 10
      (without_access (ftp_home setup going) (ownership_marker ++ codes "a:x:1:1::/srv:/bin\n"))
    ≡ marker_line ∷ (codes "a:x:1:1::/srv:/bin" ∷ ([] ∷ []))
unfolding split wpx.Text.contains wpx.Prelude.Table.delete ◌=ᵗ◌ trim_space wpx.Text.starts_with
    wpx.Text.Paths.clean
split-without_access_example =
    split-without_access (ftp_home setup going) (ownership_marker ++ codes "a:x:1:1::/srv:/bin\n")
