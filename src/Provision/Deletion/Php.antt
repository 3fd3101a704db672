-- ===== src/Provision/Deletion/Php.antt =====
-- The release of the PHP pools of a deleted site (internal/provision/delete_site.go and
-- `reloadOrStopUnused` of internal/provision/php_version.go).
use wpx.Prelude.{
  ℕ, zero, suc, Bool, true, false, not, ◌&&◌, ◌||◌, Option, none, some, List, [], ◌∷◌,
  if◌then◌else◌,
}
use wpx.Prelude.Table.{any}
use wpx.Text.{Text, codes, ◌=ᵗ◌}
use wpx.Text.Paths.{has_suffix}
use wpx.Model.Site.{Site}
use wpx.Provision.Attempt.{Answer, give_back}
use wpx.Provision.Deletion.Files.{
  Node, socket, Entry, Files, lookup, is_present, children, is_safe_path,
}
use wpx.Provision.Deletion.Names.{
  Setup, Resources, P, failed, listener, step, reads, check, remove_path, turned_off, pool_dir,
  pool, socket_path,
}

-- A pool other than the distribution's.
abbrev is_pool_name : Text → Bool
is_pool_name name = has_suffix (codes ".conf") name && not (name =ᵗ codes "www.conf")

unfoldable pub is_in_use : Text → Files → Bool
unfolding any children has_suffix
is_in_use path files = any is_pool_name (children path files)

abbrev pub rounds : ℕ
rounds = 200

module _ (setup : Setup) (site : Site) where
  -- The old listener may go, at once or later, when no pool of the site is left on these branches.
  unfoldable pub let_go : List Text → Answer → Resources → Resources
  unfolding any lookup
  let_go versions a w = record w {
    runs =
        turned_off listener
          (any (λ v. is_present (pool setup site v) w.files) versions || a.remaining) w.runs;
  }

  -- `reloadOrStopUnused`
  unfoldable pub reload_or_stop_unused : Text → P → P
  unfolding is_in_use let_go
  reload_or_stop_unused version next = reads (λ w.
      (if is_in_use (pool_dir setup site version) w.files
          then reads (step (let_go (version ∷ [])) next)
          else step (let_go (version ∷ [])) next)
        w)

  unfoldable pub release_pools : List Text → P → P
  unfolding reload_or_stop_unused
  release_pools [] next = next
  release_pools (version ∷ versions) next =
      remove_path (pool setup site version)
        (reload_or_stop_unused version (release_pools versions next))

  -- One look at the socket; `again` is the next one.
  abbrev pub dial : Node → Bool → P → P → P
  dial socket true again next = again
  dial socket false again next = next
  dial _ running again next = give_back failed

  abbrev pub look : Option Entry → Bool → P → P → P
  look none running again next = next
  look (some e) running again next = dial e.node running again next

  -- The loop of `waitDeletionSocketStopped`: ten seconds at a look every fifty milliseconds.
  unfoldable pub wait_rounds : ℕ → List Text → P → P
  unfolding let_go lookup
  wait_rounds zero versions next = give_back failed
  wait_rounds (suc n) versions next =
      let again = wait_rounds n versions next in
      step (let_go versions)
        (λ w. look (lookup (socket_path setup site) w.files) (w.runs listener) again next w)

  -- `waitDeletionSocketStopped`
  unfoldable pub wait_stopped : List Text → P → P
  unfolding wait_rounds is_safe_path
  wait_stopped versions next = reads (
      check (λ w. is_safe_path w.files (socket_path setup site)) (wait_rounds rounds versions next))
