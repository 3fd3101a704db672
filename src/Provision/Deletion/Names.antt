-- ===== src/Provision/Deletion/Names.antt =====
-- The deletion of a site on the host (internal/provision/delete_site.go): its record, the resources
-- of the site, and the names that it derives from the site and from the configuration of the host.
use wpx.Prelude.{ℕ, String, Bool, false, ◌&&◌, Option, some, List, ◌++◌, ◌==◌, if◌then◌else◌}
use wpx.Text.{Text, codes, take}
use wpx.Text.Paths.{join}
use wpx.Model.Site.{Site, SiteKind, Url}
use wpx.Provision.Attempt.{Answer, Program, give_back, attempt, inspects}
use wpx.Provision.Deletion.Files.{Files, remove}

-- `Identity`
pub record Identity : Type 0 where
  pub name : Text
  pub uid : ℕ
  pub gid : ℕ

-- An account as `user.Lookup` and `user.LookupGroupId` return it.
pub record Account : Type 0 where
  pub username : Text
  pub uid : ℕ
  pub gid : ℕ
  pub home : Text
  pub group : Text

-- `DatabaseCredentials`, as far as it is read
pub record Credentials : Type 0 where
  pub name : Text
  pub user : Text
  pub password : Text
  pub host : Text

-- `siteDeletionRecord`; an empty `Database` is the empty text.
pub record Record : Type 0 where
  pub site_id : String
  pub domain : Text
  pub kind : SiteKind
  pub site_dir : Text
  pub configuration : Text
  pub identity : Option Identity
  pub database : Text
  pub php_versions : List Text
  pub is_runtime_stopped : Bool
  pub is_done : Bool

-- What runs, or is served, for the site; the last two are its database and the database's user.
pub data Activity : Type 0 where
  traffic python_socket python_service listener node_service processes : Activity
  database database_user : Activity

abbrev pub index : Activity → ℕ
index traffic = 0
index python_socket = 1
index python_service = 2
index listener = 3
index node_service = 4
index processes = 5
index database = 6
index database_user = 7

-- The resources of the site on the host. `sources` and `targets` are the directories of scheduled
-- commands by name, `ftp_users` the password file of ProFTPD, `mounts` the table of mounts.
pub record Resources : Type 0 where
  pub files : Files
  pub sources : Files
  pub targets : Files
  pub ftp_users : Option Text
  pub mounts : Text
  pub runs : Activity → Bool
  pub account : Option Account
  pub saved : Option Record

-- The configuration of the host, with `os.Geteuid`, and what is no part of the program: the hexadecimal
-- SHA-256 digest, the decoding of stored credentials and `url.Parse`.
pub record Setup : Type 0 where
  pub site_root : Text
  pub access_root : Text
  pub security_root : Text
  pub certificate_root : Text
  pub data_root : Text
  pub nginx_available : Text
  pub nginx_enabled : Text
  pub nginx_snippets : Text
  pub php_snippets : Text
  pub staging_auth : Text
  pub php_config : Text
  pub php_run : Text
  pub python_units : Text
  pub secrets_root : Text
  pub hosting_units : Text
  pub has_php : Bool
  pub has_python : Bool
  pub has_database : Bool
  pub euid : ℕ
  pub digest : Text → Text
  pub decode : Text → Option Credentials
  pub parse_url : String → Option Url

pub data Verdict : Type 0 where
  deleted failed : Verdict

abbrev pub P : Type 0
P = Program Resources Verdict

-- if err := …; err != nil { return err }; next
abbrev pub step : (Answer → Resources → Resources) → P → P
step effect next = attempt effect (give_back failed) next

-- A call that only reads.
abbrev pub reads : P → P
reads next = inspects (give_back failed) next

-- A test of what the host is.
abbrev pub check : (Resources → Bool) → P → P
check test next w = (if test w then next else give_back failed) w

-- `removeDeletionFile`
abbrev pub remove_path : Text → P → P
remove_path path next = step (λ a w. record w { files = remove path w.files }) next

-- What still runs after it has been told to stop is the host's.
abbrev pub turned_off : Activity → Bool → (Activity → Bool) → Activity → Bool
turned_off x remaining runs y = if index y == index x then runs y && remaining else runs y

abbrev pub stop : Activity → P → P
stop x next = step (λ a w. record w { runs = turned_off x false w.runs }) next

abbrev pub set_saved : Record → Resources → Resources
set_saved r w = record w { saved = some r }

-- `writeSiteDeletion`
abbrev pub write_record : Record → P → P
write_record r next = step (λ a w. set_saved r w) next

module _ (setup : Setup) (site : Site) where
  -- `siteDir`
  abbrev pub site_dir : Text
  site_dir = join setup.site_root (codes site.id)

  abbrev pub http_name : Text
  http_name = codes "wpx-" ++ (codes site.id ++ codes ".conf")

  abbrev pub tls_name : Text
  tls_name = codes "wpx-" ++ (codes site.id ++ codes "-tls.conf")

  abbrev pub http_link : Text
  http_link = join setup.nginx_enabled http_name

  abbrev pub tls_link : Text
  tls_link = join setup.nginx_enabled tls_name

  abbrev pub pool_dir : Text → Text
  pool_dir version = join (join (join setup.php_config version) (codes "fpm")) (codes "pool.d")

  -- The pool of the site on a PHP branch.
  abbrev pub pool : Text → Text
  pool version = join (pool_dir version) http_name

  abbrev pub socket_path : Text
  socket_path = join setup.php_run (codes "wpx-" ++ (codes site.id ++ codes ".sock"))

  abbrev pub node_unit : Text
  node_unit = join setup.hosting_units (codes "wpx-node-" ++ (codes site.id ++ codes ".service"))

  abbrev pub secret_path : Text
  secret_path = join setup.secrets_root (codes site.id ++ codes ".json")

  -- `deletionDatabaseName`
  abbrev pub database_name : Text
  database_name = codes "wpx_" ++ take 16 (setup.digest (codes site.id))

  -- `accountName`
  abbrev pub account_name : Text
  account_name = codes "wpx" ++ take 12 (setup.digest (codes site.id))

  -- `cronSitePrefix`
  abbrev pub cron_prefix : Text
  cron_prefix = codes "wpx-" ++ (take 12 (setup.digest (codes site.id)) ++ codes "-")

  -- The directory that an FTP user of the site has.
  abbrev pub ftp_home : Text
  ftp_home = join site_dir (codes "public")
