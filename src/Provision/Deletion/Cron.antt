-- ===== src/Provision/Deletion/Cron.antt =====
-- `RemoveSiteCron` of internal/provision/cron.go: the directory of sources, which the panel keeps,
-- and the one of targets, which cron reads.
use wpx.Prelude.{Bool, true, false, not, ◌&&◌, none, some, List, [], ◌∷◌, if◌then◌else◌}
use wpx.Text.{Text}
use wpx.Text.Search.{has_prefix}
use wpx.Provision.Vhosts.{ownership_marker}
use wpx.Provision.Deletion.Files.{Node, regular, Files, lookup, remove, is_directory}
use wpx.Provision.Deletion.Names.{Resources, P, step, reads, check}

-- A regular file that begins with `cronMarker`.
abbrev pub is_managed_node : Node → Bool
is_managed_node (regular content) = has_prefix ownership_marker content
is_managed_node _ = false

-- `inspectCronSource(path) == nil`
unfoldable pub is_source : Text → Files → Bool
unfolding lookup has_prefix
is_source name files = elim (lookup name files) [ none ↦ false | some e ↦ is_managed_node e.node ]

-- What `secureSetCronTarget` asks of the target that is there.
unfoldable pub is_replaceable : Text → Files → Bool
unfolding lookup has_prefix
is_replaceable name files = elim (lookup name files) [
  | none ↦ true
  | some e ↦ is_managed_node e.node
]

-- The entries of the site in os.ReadDir.
unfoldable pub names_of : Text → Files → List Text
unfolding has_prefix
names_of prefix [] = []
names_of prefix (file ∷ files) =
    let rest = names_of prefix files in
    if not (is_directory file.1.node) && has_prefix prefix file.0 then file.0 ∷ rest else rest

abbrev pub remove_source : Text → Resources → Resources
remove_source name w = record w { sources = remove name w.sources }

abbrev pub remove_target : Text → Resources → Resources
remove_target name w = record w { targets = remove name w.targets }

-- `secureSetCronTarget` with nothing to install
unfoldable pub clear_target : Text → P → P
unfolding is_replaceable
clear_target name next =
    reads (check (λ w. is_replaceable name w.targets) (step (λ a w. remove_target name w) next))

-- The loop of `SetSiteCronEnabled(…, false)`
unfoldable pub clear_targets : List Text → P → P
unfolding clear_target is_source
clear_targets [] next = next
clear_targets (name ∷ names) next =
    reads (check (λ w. is_source name w.sources) (clear_target name (clear_targets names next)))

unfoldable pub clear_sources : List Text → P → P
clear_sources [] next = next
clear_sources (name ∷ names) next = step (λ a w. remove_source name w) (clear_sources names next)

unfoldable pub remove_site_cron : Text → P → P
unfolding clear_targets clear_sources names_of
remove_site_cron prefix next = reads (λ w.
    clear_targets (names_of prefix w.sources)
      (reads (λ v. clear_sources (names_of prefix v.sources) next v)) w)
