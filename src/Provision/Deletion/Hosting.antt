-- ===== src/Provision/Deletion/Hosting.antt =====
-- `deleteSiteHostingLocked` of internal/provision/hosting.go and `removeSiteFTPAccess` of
-- internal/provision/hosting_ftp.go.
use wpx.Prelude.{
  Bool, false, not, ◌&&◌, ◌||◌, Option, none, some, List, [], ◌∷◌, ◌++◌, if◌then◌else◌,
}
use wpx.Text.{Text, codes, ◌=ᵗ◌, split, contains, trim_space}
use wpx.Text.Paths.{is_plain_path, clean, join_with}
use wpx.Model.Site.{Site}
use wpx.Provision.Vhosts.{ownership_marker}
use wpx.Provision.Attempt.{give_back}
use wpx.Provision.Deletion.Files.{Node, regular, Entry, lookup, has_marker}
use wpx.Provision.Deletion.Names.{
  Setup, Resources, P, failed, node_service, step, reads, stop, remove_path, node_unit, ftp_home,
}

-- `safeHostingRoot`
unfoldable pub is_safe_root : Text → Bool
unfolding is_plain_path contains
is_safe_root path =
    is_plain_path path
    && not (contains b' ' path || contains 9 path || contains 13 path || contains 10 path)

-- The line without a final line break, which is how the code writes and compares the marker.
abbrev pub marker_line : Text
marker_line = codes "# Managed by WPX. Manual changes will be replaced."

-- The sixth part of a line of the password file.
abbrev pub home_part : List Text → Option Text
home_part (a ∷ (b ∷ (c ∷ (d ∷ (e ∷ (home ∷ rest)))))) = some home
home_part _ = none

-- The line gives access below `home`.
unfoldable pub is_access_to : Text → Text → Bool
unfolding split clean
is_access_to home line = elim (home_part (split b':' line)) [
  | none ↦ false
  | some path ↦ clean path =ᵗ home
]

-- The loop over the lines.
unfoldable pub kept_lines : Text → List Text → List Text
unfolding is_access_to
kept_lines home [] = []
kept_lines home (line ∷ lines) =
    let rest = kept_lines home lines in
    if not (line =ᵗ marker_line) && not (is_access_to home line) then line ∷ rest else rest

-- The password file without the users of the site.
unfoldable pub without_access : Text → Text → Text
unfolding kept_lines join_with split trim_space
without_access home content =
    join_with (10 ∷ []) (marker_line ∷ kept_lines home (split 10 (trim_space content))) ++ (10 ∷ [])

abbrev pub set_users : Text → Resources → Resources
set_users content w = record w { ftp_users = some content }

-- The writing, `chown` and the reload, for the content that was read.
abbrev pub rewrite_users : Text → Text → P → P
rewrite_users home content next =
    if has_marker ownership_marker content
    then step (λ a w. set_users (without_access home content) w) (reads (reads next))
    else give_back failed

abbrev pub access_in : Text → Option Text → P → P
access_in home none next = next
access_in home (some content) next = rewrite_users home content next

-- `removeSiteFTPAccess`
unfoldable pub remove_ftp_access : Text → P → P
unfolding without_access has_marker
remove_ftp_access home next = reads (λ w. access_in home w.ftp_users next w)

abbrev pub has_managed_unit : Node → Bool
has_managed_unit (regular content) = has_marker ownership_marker content
has_managed_unit _ = false

abbrev pub stop_unit : Option Entry → P → P
stop_unit none next = next
stop_unit (some e) next =
    if has_managed_unit e.node then stop node_service next else give_back failed

-- `stopNodeRuntime`
unfoldable pub stop_node_runtime : Setup → Site → P → P
unfolding is_safe_root lookup has_marker
stop_node_runtime setup site next =
    if is_safe_root setup.hosting_units
    then reads (λ w. stop_unit (lookup (node_unit setup site) w.files) next w)
    else give_back failed

-- `deleteSiteHostingLocked`
unfoldable pub delete_site_hosting : Setup → Site → P → P
unfolding stop_node_runtime remove_ftp_access
delete_site_hosting setup site next =
    stop_node_runtime setup site
      (remove_ftp_access (ftp_home setup site) (remove_path (node_unit setup site) (reads next)))
