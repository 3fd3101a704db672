-- ===== src/Provision/Deletion/Checks.antt =====
-- What `DeleteSite` of internal/provision/delete_site.go reads and derives before it changes
-- anything: the configured roots, the files of the site, its PHP branches, its database.
use wpx.Prelude.{
  ℕ, String, Bool, true, false, not, ◌&&◌, ◌||◌, ◌=?◌, Option, none, some, List, [], ◌∷◌, ◌++◌,
  if◌then◌else◌,
}
use wpx.Text.{Text, codes, ◌=ᵗ◌}
use wpx.Text.Paths.{join, join_with, is_plain_path, is_within}
use wpx.Model.Site.{
  Site, SiteKind, word_press, php, python, static, reverse_proxy, other_kind, is_word_press,
  runs_php, is_staging,
}
use wpx.Provision.Deletion.Files.{Files, DeletionFile, is_safe_path, is_deletable}
use wpx.Provision.Deletion.Names.{Setup, site_dir}

-- The names that `ValidPHPVersion` accepts, for the name of a directory
unfoldable pub is_version : Text → Bool
is_version name =
    name =ᵗ codes "8.0"
    || name =ᵗ codes "8.1"
    || name =ᵗ codes "8.2"
    || name =ᵗ codes "8.3"
    || name =ᵗ codes "8.4"
    || name =ᵗ codes "8.5"
    || name =ᵗ codes "7.1"
    || name =ᵗ codes "7.2"
    || name =ᵗ codes "7.3"
    || name =ᵗ codes "7.4"

abbrev pub is_python : SiteKind → Bool
is_python python = true
is_python _ = false

abbrev site_kind_name : SiteKind → String
site_kind_name word_press = "wordpress"
site_kind_name php = "php"
site_kind_name python = "python"
site_kind_name static = "static"
site_kind_name reverse_proxy = "reverse_proxy"
site_kind_name (other_kind name) = name

unfoldable pub is_same_kind : SiteKind → SiteKind → Bool
is_same_kind a b = site_kind_name a =? site_kind_name b

unfoldable pub all_versions : List Text → Bool
unfolding is_version
all_versions [] = true
all_versions (v ∷ vs) = is_version v && all_versions vs

unfoldable pub all_safe : Files → List Text → Bool
unfolding is_safe_path
all_safe files [] = true
all_safe files (path ∷ paths) = is_safe_path files path && all_safe files paths

unfoldable pub all_deletable : ℕ → Files → List DeletionFile → Bool
unfolding is_deletable
all_deletable euid files [] = true
all_deletable euid files (file ∷ rest) =
    is_deletable euid files file && all_deletable euid files rest

module _ (setup : Setup) where
  -- `validate`
  unfoldable pub is_configured : Bool
  unfolding is_plain_path
  is_configured =
      is_plain_path setup.access_root
      && is_plain_path setup.security_root
      && is_plain_path setup.site_root
      && is_plain_path setup.nginx_available
      && is_plain_path setup.nginx_enabled
      && is_plain_path setup.certificate_root
      && is_plain_path setup.data_root
      && is_plain_path setup.nginx_snippets
      && is_plain_path setup.php_snippets

  abbrev pub journal_root : Text
  journal_root = join setup.data_root (codes "deletions")

module _ (setup : Setup) (site : Site) where
  -- The paths of `deletionConfiguration`, in its order
  unfoldable pub configured_paths : List Text
  configured_paths =
      setup.site_root
      ∷ setup.nginx_available
      ∷ setup.nginx_enabled
      ∷ setup.nginx_snippets
      ∷ setup.php_snippets
      ∷ ((if is_staging site.environment then setup.staging_auth ∷ [] else [])
          ++ ((if runs_php site.kind then setup.php_config ∷ (setup.php_run ∷ []) else [])
              ++ ((if is_python site.kind then setup.python_units ∷ [] else [])
                  ++ (if is_word_press site.kind then setup.secrets_root ∷ [] else []))))

  -- The managers that the kind of the site needs are there.
  abbrev has_managers : Bool
  has_managers =
      (not (runs_php site.kind) || setup.has_php)
      && (not (is_python site.kind) || setup.has_python)
      && (not (is_word_press site.kind) || setup.has_database)

  -- `deletionConfiguration`
  unfoldable pub deletion_configuration : Files → Option Text
  unfolding configured_paths all_safe join_with
  deletion_configuration files =
      if has_managers && all_safe files configured_paths
      then some (setup.digest (join_with (0 ∷ []) configured_paths))
      else none

  -- Directories that the code refuses to work in.
  unfoldable pub is_journal_safe : Files → Bool
  unfolding is_safe_path is_within
  is_journal_safe files =
      is_safe_path files (site_dir setup site)
      && not (is_within (site_dir setup site) (journal_root setup))
      && is_safe_path files (journal_root setup)
