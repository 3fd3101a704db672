-- ===== src/Provision/Deletion/Flaws.antt =====
-- Single things that make the tests of internal/provision/delete_site.go fail.
use mathlib.Core.List.{Memᴰ}
use wpx.Prelude.{
  ℕ, Bool, true, false, ◌&&◌, ◌≡◌, ◌≢◌, refl, ◌∙◌, ap, sym, arith, Option, none, some, List, [],
  ◌∷◌,
}
use wpx.Prelude.Table.{any}
use wpx.Text.{Text, ◌=ᵗ◌}
use wpx.Text.Paths.{is_plain_path}
use wpx.Provision.Deletion.Files.{
  Entry, Files, regular, lookup, has_marker, DeletionFile, is_deletable, is_valid_tree, is_foreign,
}
use wpx.Provision.Deletion.Names.{Identity, Account}
use wpx.Provision.Deletion.Account.{inspect_account, same_identity}
use wpx.Provision.Deletion.Checks.{is_version, all_versions, all_deletable}
use wpx.Provision.Deletion.{is_recorded}

pub any-meets {ℓ} :
    {A : Type ℓ} (p : A → Bool) (x : A) (xs : List A) → Memᴰ x xs → p x ≡ true → any p xs ≡ true
unfolding any
any-meets p x [] m h = elim m [ ]
any-meets p x (y ∷ ys) (Memᴰ.head same) h =
    let here : p y ≡ true = ap p (sym same) ∙ h in rw here refl
any-meets p x (y ∷ ys) (Memᴰ.tail m) h = ground (arith, any-meets p x ys m h)

unfoldable pub all_are_plain : List Text → Bool
all_are_plain [] = true
all_are_plain (path ∷ paths) = is_plain_path path && all_are_plain paths

pub all_plain :
    (paths : List Text) (path : Text)
    → Memᴰ path paths
    → is_plain_path path ≡ false
    → all_are_plain paths ≡ false
unfolding all_are_plain
all_plain [] path m h = elim m [ ]
all_plain (x ∷ xs) path (Memᴰ.head same) h =
    let here : is_plain_path x ≡ false = ap is_plain_path (sym same) ∙ h in rw here refl
all_plain (x ∷ xs) path (Memᴰ.tail m) h = ground (arith, all_plain xs path m h)

pub all_versions-unknown :
    (v : Text) (vs : List Text) → Memᴰ v vs → is_version v ≡ false → all_versions vs ≡ false
unfolding all_versions
all_versions-unknown v [] m h = elim m [ ]
all_versions-unknown v (x ∷ xs) (Memᴰ.head same) h =
    let here : is_version x ≡ false = ap is_version (sym same) ∙ h in rw here refl
all_versions-unknown v (x ∷ xs) (Memᴰ.tail m) h = ground (arith, all_versions-unknown v xs m h)

pub and_false : (a b : Bool) → b ≡ false → (a && b) ≡ false
and_false a b h = ground arith

pub all_deletable-foreign :
    (euid : ℕ) (files : Files) (file : DeletionFile) (list : List DeletionFile)
    → Memᴰ file list
    → is_deletable euid files file ≡ false
    → all_deletable euid files list ≡ false
unfolding all_deletable
all_deletable-foreign euid files file [] m h = elim m [ ]
all_deletable-foreign euid files file (x ∷ xs) (Memᴰ.head same) h =
    let here : is_deletable euid files x ≡ false = ap (is_deletable euid files) (sym same) ∙ h in
    rw here refl
all_deletable-foreign euid files file (x ∷ xs) (Memᴰ.tail m) h =
    and_false (is_deletable euid files x) (all_deletable euid files xs)
      (all_deletable-foreign euid files file xs m h)

pub is_deletable-unmarked :
    (euid : ℕ) (files : Files) (file : DeletionFile) (e : Entry) (content : Text)
    → lookup file.path files ≡ some e
    → e.node ≡ regular content
    → (file.marker =ᵗ []) ≡ false
    → has_marker file.marker content ≡ false
    → is_deletable euid files file ≡ false
unfolding is_deletable
is_deletable-unmarked euid files file e content there node marked unmarked =
    rw there (rw node (rw marked (rw unmarked (ground arith))))

pub is_recorded-other :
    (name home : Text) (a : Account) (i : Identity)
    → same_identity (record { name = a.username; uid = a.uid; gid = a.gid }) i ≡ false
    → is_recorded (some i) (inspect_account name home (some a)) ≡ false
unfolding inspect_account
is_recorded-other name home a i h = ground arith

pub is_recorded-unknown :
    (name home : Text) (a : Account) → is_recorded none (inspect_account name home (some a)) ≡ false
unfolding inspect_account
is_recorded-unknown name home a = ground arith

pub is_valid_tree-owner :
    (path mounts : Text) (files : Files) (e : Entry) (uid gid : ℕ)
    → lookup path files ≡ some e
    → e.uid ≢ uid
    → is_valid_tree path mounts files (some (uid, gid)) ≡ false
unfolding is_valid_tree
is_valid_tree-owner path mounts files e uid gid there other =
    rw (is_valid_tree, there) (ground arith)

pub is_valid_tree-device :
    (path mounts : Text) (files : Files) (e : Entry) (numbers : Option (ℕ × ℕ))
    → lookup path files ≡ some e
    → any (is_foreign path e.device) files ≡ true
    → is_valid_tree path mounts files numbers ≡ false
unfolding is_valid_tree
is_valid_tree-device path mounts files e none there foreign = rw (is_valid_tree, there) refl
is_valid_tree-device path mounts files e (some (uid, gid)) there foreign =
    rw (is_valid_tree, there, foreign) (ground arith)
