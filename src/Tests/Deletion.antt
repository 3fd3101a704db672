-- ===== src/Tests/Deletion.antt =====
-- Runs of the deletion of a WordPress site on a host that has it.
use wpx.Prelude.{ℕ, zero, suc, true, ◌≡◌, ◌⊎◌, refl, Option, some, none, List, [], ◌∷◌, ◌++◌}
use wpx.Text.{Text, codes, ◌=ᵗ◌, length, split, trim_space}
use wpx.Text.Paths.{join, join_with}
use wpx.Model.Site.{Site, deleting, active, Url}
use wpx.Provision.Attempt.{Answer, Run, stopped, returned, Holds}
use wpx.Provision.Vhosts.{ownership_marker}
use wpx.Provision.DomainChange.Verdicts.{success}
use wpx.Provision.Deletion.Files.{
  Entry, Files, Node, regular, directory, symlink, socket, lookup, php_ownership_marker,
}
use wpx.Provision.Deletion.Names.{
  Setup, Resources, Record, Account, Credentials, Verdict, deleted, site_dir, http_link, http_name,
  pool, socket_path, secret_path, node_unit, account_name, cron_prefix,
}
use wpx.Provision.Deletion.Stages.{Apart, FitsRecord, Reported}
use wpx.Provision.Deletion.Quiet.{Spared}
use wpx.Provision.Deletion.Runs.{Untouched, after_deletions}
use wpx.Provision.Deletion.Series.{delete_site-Reported}
use wpx.Provision.Deletion.Order.{Halted, Emptied, after_deletions-Spared, after_deletions-account}
use wpx.Provision.Deletion.Refusals.{Refuses, Idles, Any, delete_site_over}
use wpx.Provision.Deletion.Objections.{bad_request, not_deleting, delete_site-Refuses}
use wpx.Provision.Deletion.Lines.{split-without_access}
use wpx.Provision.Deletion.{delete_site, is_recorded, inspection, is_verified}
use wpx.Tests.Data.{shop, no_url}

abbrev pub going : Site
going = record shop { status = deleting }

-- A digest that shows its text.
abbrev plain_digest : Text → Text
plain_digest t = t

abbrev credentials : Credentials
credentials = record {
  name = codes "wpx_0b0e2b0e-1111-42";
  user = codes "wpx_0b0e2b0e-1111-42";
  password = codes "secret";
  host = codes "localhost";
}

abbrev pub setup : Setup
setup = record {
  site_root = codes "/srv/sites";
  access_root = codes "/etc/wpx/access";
  security_root = codes "/etc/wpx/security";
  certificate_root = codes "/etc/wpx/certificates";
  data_root = codes "/var/lib/wpx";
  nginx_available = codes "/etc/nginx/available";
  nginx_enabled = codes "/etc/nginx/enabled";
  nginx_snippets = codes "/etc/nginx/wpx";
  php_snippets = codes "/etc/php/wpx";
  staging_auth = codes "/etc/wpx/staging";
  php_config = codes "/etc/php";
  php_run = codes "/run/php";
  python_units = codes "/etc/systemd/system";
  secrets_root = codes "/var/lib/wpx/secrets";
  hosting_units = codes "/etc/systemd/system";
  has_php = true;
  has_python = true;
  has_database = true;
  euid = 0;
  digest = plain_digest;
  decode = λ content. some credentials;
  parse_url = no_url;
}

abbrev entry : Node → Entry
entry node = record { node = node; uid = 0; gid = 0; mode = 0x180; device = 1 }

abbrev root_of_site : Entry
root_of_site = record { node = directory; uid = 700; gid = 700; mode = 0x1c0; device = 1 }

abbrev pub files : Files
files =
    (site_dir setup going, root_of_site)
    ∷ (join (site_dir setup going) (codes "index.php"), entry (regular []))
    ∷ (http_link setup going, entry (symlink (join setup.nginx_available (http_name setup going))))
    ∷ (join setup.nginx_available (http_name setup going), entry (regular ownership_marker))
    ∷ (join setup.php_config (codes "8.3"), entry directory)
    ∷ (pool setup going (codes "8.3"), entry (regular php_ownership_marker))
    ∷ (socket_path setup going, entry socket)
    ∷ (secret_path setup going, entry (regular []))
    ∷ (node_unit setup going, entry (regular ownership_marker))
    ∷ []

abbrev pub account : Account
account = record {
  username = account_name setup going;
  uid = 700;
  gid = 700;
  home = site_dir setup going;
  group = account_name setup going;
}

abbrev pub job : Text
job = cron_prefix setup going ++ codes "1"

abbrev pub start : Resources
start = record {
  files = files;
  sources = (job, entry (regular ownership_marker)) ∷ [];
  targets = (job, entry (regular ownership_marker)) ∷ [];
  ftp_users = some (
      ownership_marker
      ++ codes
          "ftp:x:700:700::/srv/sites/0b0e2b0e-1111-4222-8333-444455556666/public:/bin/false\n");
  mounts = codes "22 1 8:1 / / rw\n";
  runs = λ x. true;
  account = some account;
  saved = none;
}

abbrev pub successes : ℕ → List Answer
successes zero = []
successes (suc n) = success [] ∷ successes n

abbrev verdict_of : Run Resources Verdict → Option Verdict
verdict_of (stopped w) = none
verdict_of (returned r w answers) = some r

delete_site_deleted : verdict_of (delete_site setup going "job" start (successes 80)) ≡ some deleted
unfolding delete_site wpx.Model.SiteId.valid_site_id wpx.Model.Site.valid_domain ◌=ᵗ◌
    wpx.Text.starts_with wpx.Provision.Deletion.Files.remove
delete_site_deleted = refl

start-Apart : Apart setup going
unfolding wpx.Text.Paths.is_within ◌=ᵗ◌
start-Apart = record {
  http = refl;
  tls = refl;
  pool = λ v. refl;
  unit = refl;
  secret = refl;
  http_unit = refl;
  tls_unit = refl;
  pool_unit = λ v. refl;
}

start-Untouched : Untouched setup going start
unfolding lookup ◌=ᵗ◌ wpx.Provision.Deletion.Cron.names_of wpx.Provision.Deletion.Lines.is_subset
start-Untouched = record {
  saved = refl;
  covered = refl;
  node = λ gone. cc;
  rooted = λ gone path h. cc;
}

-- Two runs that the end of the process cuts short.
abbrev cut_short : List (List Answer)
cut_short = successes 26 ∷ (successes 30 ∷ [])

delete_site-Reported_example : Holds (FitsRecord setup going start) (Reported setup going start) (
    delete_site setup going "job"
      (after_deletions setup going "job" cut_short start)
      (successes 80))
delete_site-Reported_example =
    delete_site-Reported setup going start start-Apart start-Untouched "job" cut_short
      (successes 80)

after_deletions-Spared_example :
    Spared setup going start (after_deletions setup going "job" cut_short start)
    ⊎ Halted setup going (after_deletions setup going "job" cut_short start)
after_deletions-Spared_example =
    after_deletions-Spared setup going start start-Apart start-Untouched "job" cut_short

after_deletions-account_example :
    ((after_deletions setup going "job" cut_short start).account ≡ some account)
    ⊎ Emptied setup going (after_deletions setup going "job" cut_short start)
after_deletions-account_example =
    after_deletions-account setup going start start-Apart start-Untouched "job" cut_short

delete_site-Refuses_example :
    Refuses setup shop start (delete_site setup shop "job" start (successes 80))
delete_site-Refuses_example =
    delete_site-Refuses setup shop "job" start (successes 80)
      (bad_request (not_deleting (λ e. cc) (λ e. cc)))

abbrev finished_record : Record
finished_record = record {
  site_id = going.id;
  domain = going.domain;
  kind = going.kind;
  site_dir = site_dir setup going;
  configuration = [];
  identity = none;
  database = [];
  php_versions = [];
  is_runtime_stopped = true;
  is_done = true;
}

abbrev finished : Resources
finished = record start { saved = some finished_record }

delete_site_over_example :
    Idles setup going Any finished (delete_site setup going "job" finished (successes 80))
delete_site_over_example =
    delete_site_over setup going "job" finished (successes 80) finished_record refl refl

-- After the runs that were cut short, a further one ends the deletion.
delete_site_resumed :
    verdict_of (
      delete_site setup going "job"
        (after_deletions setup going "job" cut_short start)
        (successes 80))
    ≡ some deleted
unfolding delete_site wpx.Model.SiteId.valid_site_id wpx.Model.Site.valid_domain ◌=ᵗ◌
    wpx.Text.starts_with after_deletions wpx.Provision.Deletion.Files.remove
delete_site_resumed = refl
