-- ===== src/Provision/Deletion/Listing.antt =====
-- What `DeleteSite` of internal/provision/delete_site.go lists and verifies of a site: its files, its
-- PHP branches, its database, its links and its record.
use wpx.Prelude.{
  Bool, true, false, not, ◌&&◌, ◌||◌, ◌=?◌, Option, none, some, List, [], ◌∷◌, ◌++◌, if◌then◌else◌,
}
use wpx.Text.{Text, codes, ◌=ᵗ◌}
use wpx.Text.Paths.{join}
use wpx.Model.Site.{Site, runs_php, is_staging}
use wpx.Provision.Vhosts.{ownership_marker}
use wpx.Provision.Deletion.Files.{
  Node, regular, directory, socket, symlink, Entry, Files, lookup, is_present, children,
  DeletionFile, is_safe_path, is_private, php_ownership_marker,
}
use wpx.Provision.Deletion.Names.{
  Setup, Record, Credentials, site_dir, http_name, tls_name, pool, secret_path, database_name,
}
use wpx.Provision.Deletion.Checks.{is_version, is_python, is_same_kind}

module _ (setup : Setup) (site : Site) where
  abbrev managed : Text → DeletionFile
  managed path = record { path = path; marker = ownership_marker }

  -- The files that every site, or every site of its kind, may have.
  unfoldable pub fixed_files : List DeletionFile
  fixed_files =
      managed (join setup.nginx_available (http_name setup site))
      ∷ managed (join setup.nginx_available (tls_name setup site))
      ∷ managed (join setup.nginx_snippets (codes site.id ++ codes ".conf"))
      ∷ record {
        path = join setup.php_snippets (codes site.id ++ codes ".conf");
        marker = php_ownership_marker;
      }
      ∷ (if is_staging site.environment
          then record {
            path = join setup.staging_auth (codes site.id ++ codes ".htpasswd");
            marker = [];
          }
            ∷ []
          else [])

  -- The pool on a PHP branch, and the copy that a change of the branch leaves.
  unfoldable pub pool_files : List Text → List DeletionFile
  pool_files [] = []
  pool_files (v ∷ vs) =
      record { path = pool setup site v; marker = php_ownership_marker }
      ∷ record { path = pool setup site v ++ codes ".wpx-previous"; marker = php_ownership_marker }
      ∷ pool_files vs

  unfoldable pub unit_files : List DeletionFile
  unit_files =
      managed (join setup.python_units (codes "wpx-python-" ++ (codes site.id ++ codes ".socket")))
      ∷ managed
          (join setup.python_units (codes "wpx-python-" ++ (codes site.id ++ codes ".service")))
      ∷ []

  unfoldable pub valid_names : List Text → List Text
  unfolding is_version
  valid_names [] = []
  valid_names (name ∷ names) =
      let rest = valid_names names in if is_version name then name ∷ rest else rest

  abbrev branches : Files → List Text
  branches files = if runs_php site.kind then valid_names (children setup.php_config files) else []

  -- The files of `siteDeletionFiles`
  unfoldable pub site_deletion_files : Files → List DeletionFile
  unfolding fixed_files pool_files unit_files valid_names children
  site_deletion_files files =
      fixed_files
      ++ (pool_files (branches files) ++ (if is_python site.kind then unit_files else []))

  -- The versions of `siteDeletionFiles` among those with a directory
  unfoldable pub with_pool : Files → List Text → List Text
  unfolding lookup
  with_pool files [] = []
  with_pool files (v ∷ vs) =
      let rest = with_pool files vs in
      if is_present (pool setup site v) files || v =ᵗ codes site.php_version then v ∷ rest else rest

  unfoldable pub site_versions : Files → List Text
  unfolding with_pool valid_names children
  site_versions files = with_pool files (branches files)

  -- `siteDeletionFiles` succeeds.
  unfoldable pub can_list : Files → Bool
  unfolding is_safe_path
  can_list files =
      (not (runs_php site.kind) || (setup.has_php && is_safe_path files setup.php_config))
      && (not (is_python site.kind) || setup.has_python)

  abbrev is_generated : Credentials → Bool
  is_generated c =
      c.name =ᵗ database_name setup site
      && c.user =ᵗ database_name setup site
      && c.host =ᵗ codes "localhost"
      && not (c.password =ᵗ [])

  abbrev database_in : Node → Option Text
  database_in (regular content) = elim (setup.decode content) [
    | none ↦ none
    | some c ↦ if is_generated c then some (database_name setup site) else none
  ]
  database_in _ = none

  -- `inspectDeletionDatabase`; the empty text where the site has no database
  unfoldable pub inspect_deletion_database : Files → Option Text
  unfolding is_safe_path is_private lookup
  inspect_deletion_database files =
      if not setup.has_database || not (is_safe_path files (secret_path setup site))
      then none
      else elim (lookup (secret_path setup site) files) [
        | none ↦
            if is_present
              (join (join (site_dir setup site) (codes "public")) (codes "wp-config.php")) files
            then none
            else some []
        | some e ↦ if is_private setup.euid false e then database_in e.node else none
      ]

  -- What the code asks of an enabled link: `os.Readlink` of what is no link is an error.
  abbrev leads_to : Text → Option Entry → Bool
  leads_to target none = true
  leads_to target (some e) = elim e.node [
    | symlink path ↦ path =ᵗ target
    | regular content ↦ false
    | directory ↦ false
    | socket ↦ false
  ]

  abbrev is_own_link : Files → Text → Bool
  is_own_link files name =
      is_safe_path files setup.nginx_enabled
      && leads_to (join setup.nginx_available name) (lookup (join setup.nginx_enabled name) files)

  unfoldable pub has_own_links : Files → Bool
  unfolding is_safe_path lookup
  has_own_links files =
      is_own_link files (http_name setup site) && is_own_link files (tls_name setup site)

  -- The record is this operation's.
  unfoldable pub is_own_record : Text → Record → Bool
  unfolding is_same_kind
  is_own_record configuration r =
      r.site_id =? site.id
      && r.domain =ᵗ site.domain
      && is_same_kind r.kind site.kind
      && r.site_dir =ᵗ site_dir setup site
      && r.configuration =ᵗ configuration
