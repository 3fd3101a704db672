-- ===== src/Provision/Deletion/Steps.antt =====
-- The parts of `DeleteSite` of internal/provision/delete_site.go that change the host: the end of the
-- traffic and of the runtimes, and the erasure.
use wpx.Prelude.{Bool, true, false, ◌&&◌, ◌||◌, Option, none, some, List, [], ◌∷◌, if◌then◌else◌}
use wpx.Text.{Text, ◌=ᵗ◌}
use wpx.Model.Site.{Site}
use wpx.Provision.Attempt.{succeeds, Answer, give_back}
use wpx.Provision.Deletion.Files.{DeletionFile, lookup, is_present, remove_tree}
use wpx.Provision.Deletion.Names.{
  Record, Setup, Resources, P, deleted, failed, traffic, python_socket, python_service, database,
  database_user, step, reads, remove_path, stop, write_record, site_dir, http_link, tls_link,
  secret_path, database_name, account_name, cron_prefix,
}
use wpx.Provision.Deletion.Account.{stop_site, remove_site}
use wpx.Provision.Deletion.Cron.{remove_site_cron}
use wpx.Provision.Deletion.Hosting.{delete_site_hosting}
use wpx.Provision.Deletion.Php.{release_pools, wait_stopped}
use wpx.Provision.Deletion.Checks.{is_python}

-- The paths that a removal of the tree has left. The directory itself goes last: where it is gone, all
-- is gone.
abbrev pub left_by : Text → Answer → Text → Bool
left_by root a path = elim a.ending [
  | succeeds ↦ false
  | _ ↦ a.leaves root && (path =ᵗ root || a.leaves path)
]

unfoldable pub remove_files : List DeletionFile → P → P
remove_files [] next = next
remove_files (file ∷ files) next = remove_path file.path (remove_files files next)

abbrev pub if_some : {A : Type 0} → Option A → (A → P → P) → P → P
if_some none program next = next
if_some (some a) program next = program a next

abbrev pub is_empty : {A : Type 0} → List A → Bool
is_empty [] = true
is_empty (x ∷ xs) = false

abbrev pub with_stopped : Record → Record
with_stopped r = record r { is_runtime_stopped = true }

abbrev pub with_done : Record → Record
with_done r = record r { is_done = true }

module _ (setup : Setup) (site : Site) where
  -- Nginx serves what is linked.
  abbrev pub load_links : Resources → Resources
  load_links w = record w {
    runs = λ x. elim x [
      | traffic ↦
          is_present (http_link setup site) w.files || is_present (tls_link setup site) w.files
      | y ↦ w.runs y
    ];
  }

  unfoldable pub stop_traffic : P → P
  unfolding lookup
  stop_traffic next =
      remove_path (http_link setup site)
        (remove_path (tls_link setup site) (reads (step (λ a w. load_links w) next)))

  unfoldable pub stop_python : P → P
  stop_python next =
      if is_python site.kind then stop python_socket (stop python_service next) else next

  -- From the Python units to the pools, their listener, and what the commands and users of the site
  -- have.
  unfoldable pub stop_runtime : List Text → P → P
  unfolding stop_python release_pools wait_stopped remove_site_cron delete_site_hosting
  stop_runtime versions next = stop_python (
      release_pools setup site versions (
        (if is_empty versions then (λ (p : P). p) else wait_stopped setup site versions)
          (remove_site_cron (cron_prefix setup site) (delete_site_hosting setup site next))))

  -- The two statements of one call, of which the first may be the last one carried out.
  unfoldable pub drop_database : Text → P → P
  drop_database name next =
      if name =ᵗ []
      then next
      else if setup.has_database && name =ᵗ database_name setup site
      then stop database (stop database_user (remove_path (secret_path setup site) next))
      else give_back failed

  abbrev pub erase_tree : Answer → Resources → Resources
  erase_tree a w = record w {
    files = remove_tree (site_dir setup site) (left_by (site_dir setup site) a) w.files;
  }

  unfoldable pub remove_site_tree : P → P
  unfolding remove_tree lookup
  remove_site_tree next = reads (λ w.
      (if is_present (site_dir setup site) w.files then reads (step erase_tree next) else next) w)

  unfoldable pub finish_account : Record → P → P
  unfolding remove_site
  finish_account r next =
      if_some r.identity (remove_site (account_name setup site) (site_dir setup site)) next

  -- From the record that the runtime is stopped to the one that the site is gone.
  unfoldable pub erase : List DeletionFile → Record → P
  unfolding stop_site drop_database remove_site_tree remove_files finish_account
  erase files r = if_some r.identity (stop_site (account_name setup site) (site_dir setup site)) (
      drop_database r.database (
        remove_site_tree (
          remove_files files (
            (if is_python site.kind then reads else (λ (p : P). p))
              (finish_account r (write_record (with_done r) (give_back deleted)))))))
