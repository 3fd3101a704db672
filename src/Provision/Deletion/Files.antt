-- ===== src/Provision/Deletion/Files.antt =====
-- The files of the host as far as internal/provision/delete_site.go and host.go look at them: what
-- `os.Lstat` and `os.ReadDir` return, and the checks of paths, private files and managed files.
use Prim.Native.Nat.{bit_and}
use wpx.Prelude.{
  ℕ, Bool, true, false, not, ◌&&◌, ◌||◌, Option, none, some, List, [], ◌∷◌, ◌++◌, ◌==◌,
  if◌then◌else◌,
}
use wpx.Prelude.Table.{delete, any}
use wpx.Text.{Text, codes, ◌=ᵗ◌, split, contains}
use wpx.Text.Search.{has_prefix, drop_as}
use wpx.Text.Paths.{join, is_plain_path, is_within, fields}
use wpx.Provision.Vhosts.{ownership_marker}

pub data Node : Type 0 where
  regular : Text → Node
  directory socket : Node
  symlink : Text → Node

pub record Entry : Type 0 where
  pub node : Node
  pub uid : ℕ
  pub gid : ℕ
  pub mode : ℕ
  pub device : ℕ

-- A path, or a name within one directory, with what stands there.
abbrev pub Files : Type 0
Files = List (Text × Entry)

-- os.Lstat; `none` is os.IsNotExist
unfoldable pub lookup : Text → Files → Option Entry
lookup path [] = none
lookup path (file ∷ files) = if file.0 =ᵗ path then some file.1 else lookup path files

-- os.Remove
unfoldable pub remove : Text → Files → Files
unfolding delete
remove path files = delete (λ file. file.0 =ᵗ path) files

abbrev pub is_present : Text → Files → Bool
is_present path files = elim (lookup path files) [ none ↦ false | some e ↦ true ]

-- Root.RemoveAll of a directory, except for the paths that were not reached
unfoldable pub remove_tree : Text → (Text → Bool) → Files → Files
unfolding delete is_within
remove_tree path kept files = delete (λ file. is_within path file.0 && not (kept file.0)) files

abbrev put_name : Text → List Text → List Text
put_name [] names = names
put_name (c ∷ name) names = if contains b'/' (c ∷ name) then names else (c ∷ name) ∷ names

-- The names in os.ReadDir
unfoldable pub children : Text → Files → List Text
unfolding has_prefix contains
children path [] = []
children path (file ∷ files) =
    let rest = children path files in
    if has_prefix (path ++ codes "/") file.0
    then put_name (drop_as (path ++ codes "/") file.0) rest
    else rest

abbrev pub is_regular : Node → Bool
is_regular (regular content) = true
is_regular _ = false

abbrev pub is_directory : Node → Bool
is_directory directory = true
is_directory _ = false

-- The loop of `deletionSafePath`, from `current` on. Below what is not a directory `os.Lstat`
-- returns another error than that nothing is there.
abbrev safe_at : Node → List Text → Bool → Bool
safe_at (symlink target) parts rest = false
safe_at directory parts rest = rest
safe_at (regular content) [] rest = true
safe_at (regular content) (part ∷ parts) rest = false
safe_at socket [] rest = true
safe_at socket (part ∷ parts) rest = false

unfoldable pub is_safe_below : Files → Text → List Text → Bool
unfolding lookup
is_safe_below files current [] = true
is_safe_below files current (part ∷ parts) =
    let rest = is_safe_below files (join current part) parts in
    elim (lookup (join current part) files) [ none ↦ true | some e ↦ safe_at e.node parts rest ]

-- `deletionSafePath(path) == nil`. `path` is split after its first slash.
unfoldable pub is_safe_path : Files → Text → Bool
unfolding is_plain_path is_safe_below split
is_safe_path files path =
    is_plain_path path && is_safe_below files [] (split b'/' (drop_as (codes "/") path))

-- What `deletionPrivateFile` asks of an entry that is there.
unfoldable pub is_private : ℕ → Bool → Entry → Bool
is_private euid wants_directory e =
    e.uid == euid
    && bit_and e.mode 0x3f == 0
    && (if wants_directory then is_directory e.node else is_regular e.node)

abbrev pub php_ownership_marker : Text
php_ownership_marker = codes "; Managed by WPX. Manual changes will be replaced.\n"

-- `managedFileStateWithMarker` of the content of a file that is there
unfoldable pub has_marker : Text → Text → Bool
unfolding has_prefix
has_marker marker content =
    has_prefix marker content
    || (marker =ᵗ php_ownership_marker && has_prefix ownership_marker content)

-- `deletionFile`
pub record DeletionFile : Type 0 where
  pub path : Text
  pub marker : Text

abbrev has_marker_in : Text → Node → Bool
has_marker_in marker (regular content) = marker =ᵗ [] || has_marker marker content
has_marker_in marker _ = false

-- `inspectDeletionFile(file) == nil`
unfoldable pub is_deletable : ℕ → Files → DeletionFile → Bool
unfolding is_safe_path lookup has_marker
is_deletable euid files file = is_safe_path files file.path && elim (lookup file.path files) [
  | none ↦ true
  | some e ↦ e.uid == euid && bit_and e.mode 0x12 == 0 && has_marker_in file.marker e.node
]

-- strings.NewReplacer of `validateDeletionMounts`
unfoldable pub unescape : Text → Text
unescape (a ∷ (b ∷ (c ∷ (d ∷ t)))) =
    let after = unescape t in
    let next = a ∷ unescape (b ∷ (c ∷ (d ∷ t))) in
    if (a ∷ (b ∷ (c ∷ (d ∷ [])))) =ᵗ codes "\\040"
    then b' ' ∷ after
    else if (a ∷ (b ∷ (c ∷ (d ∷ [])))) =ᵗ codes "\\011"
    then 9 ∷ after
    else if (a ∷ (b ∷ (c ∷ (d ∷ [])))) =ᵗ codes "\\012"
    then 10 ∷ after
    else if (a ∷ (b ∷ (c ∷ (d ∷ [])))) =ᵗ codes "\\134"
    then 92 ∷ after
    else next
unescape t = t

-- The fields of a line of the mount table: the mount point is the fifth.
abbrev mounts_within : Text → List Text → Bool
mounts_within path (a ∷ (b ∷ (c ∷ (d ∷ (mount ∷ rest))))) = is_within path (unescape mount)
mounts_within path _ = false

-- `validateDeletionMounts(path, mountinfo) == nil`
unfoldable pub has_no_mount : Text → Text → Bool
unfolding any split fields unescape is_within
has_no_mount path mountinfo =
    not (any (λ line. mounts_within path (fields line)) (split 10 mountinfo))

-- A directory below `path` on another device than `device`
abbrev pub is_foreign : Text → ℕ → Text × Entry → Bool
is_foreign path device (p, e) = is_within path p && is_directory e.node && not (e.device == device)

-- The rest of `validateDeletionTree(path, identity) == nil` for the account's numbers
abbrev is_own_tree : Text → Files → ℕ × ℕ → Entry → Bool
is_own_tree path files (uid, gid) e =
    is_directory e.node
    && e.uid == uid
    && e.gid == gid
    && not (any (is_foreign path e.device) files)

-- `validateDeletionTree(path, identity) == nil` on Linux
unfoldable pub is_valid_tree : Text → Text → Files → Option (ℕ × ℕ) → Bool
unfolding lookup has_no_mount any is_within
is_valid_tree path mountinfo files owner = elim (lookup path files) [
  | none ↦ true
  | some e ↦ elim owner [
    | none ↦ false
    | some numbers ↦ is_own_tree path files numbers e && has_no_mount path mountinfo
  ]
]
