-- ===== src/Provision/Deletion/Removal.antt =====
-- Removals from the files, the scheduled commands and the FTP users of
-- internal/provision/delete_site.go, cron.go and hosting_ftp.go.
use wpx.Prelude.{Bool, true, false, ◌≡◌, refl, none, [], ◌∷◌, arith}
use wpx.Prelude.Table.{delete}
use wpx.Text.{Text, ◌=ᵗ◌}
use wpx.Text.Laws.{=ᵗ_eq}
use wpx.Text.Paths.{is_within}
use wpx.Provision.Deletion.Files.{Files, lookup, remove, remove_tree}
use wpx.Provision.Deletion.Cron.{names_of}

pub lookup-remove-none :
    (p q : Text) (files : Files) → lookup q files ≡ none → lookup q (remove p files) ≡ none
unfolding lookup remove delete
lookup-remove-none p q [] h = refl
lookup-remove-none p q (file ∷ files) h = ground (arith, lookup-remove-none p q files)

pub lookup-remove : (p : Text) (files : Files) → lookup p (remove p files) ≡ none
unfolding lookup remove delete
lookup-remove p [] = refl
lookup-remove p (file ∷ files) = ground (arith, lookup-remove p files)

pub lookup-remove_ne :
    (p q : Text) (files : Files) → (p =ᵗ q) ≡ false → lookup q (remove p files) ≡ lookup q files
unfolding lookup remove delete
lookup-remove_ne p q [] h = refl
lookup-remove_ne p q (file ∷ files) h = ground (arith, lookup-remove_ne p q files h, =ᵗ_eq file.0 p)

pub lookup-remove_tree-none :
    (p : Text) (kept : Text → Bool) (q : Text) (files : Files)
    → lookup q files ≡ none
    → lookup q (remove_tree p kept files) ≡ none
unfolding lookup remove_tree delete
lookup-remove_tree-none p kept q [] h = refl
lookup-remove_tree-none p kept q (file ∷ files) h =
    ground (arith, lookup-remove_tree-none p kept q files)

-- A removal that leaves nothing of the tree.
pub lookup-remove_tree :
    (p : Text) (kept : Text → Bool) (q : Text) (files : Files)
    → ((path : Text) → kept path ≡ false)
    → is_within p q ≡ true
    → lookup q (remove_tree p kept files) ≡ none
unfolding lookup remove_tree delete
lookup-remove_tree p kept q [] none_kept h = refl
lookup-remove_tree p kept q (file ∷ files) none_kept h =
    ground (arith, lookup-remove_tree p kept q files none_kept h, =ᵗ_eq file.0 q, none_kept file.0)

pub lookup-remove_tree_kept :
    (p : Text) (kept : Text → Bool) (q : Text) (files : Files)
    → kept q ≡ true
    → lookup q (remove_tree p kept files) ≡ lookup q files
unfolding lookup remove_tree delete
lookup-remove_tree_kept p kept q [] h = refl
lookup-remove_tree_kept p kept q (file ∷ files) h =
    ground (arith, lookup-remove_tree_kept p kept q files h, =ᵗ_eq file.0 q)

pub names_of-remove :
    (prefix name : Text) (files : Files)
    → names_of prefix files ≡ []
    → names_of prefix (remove name files) ≡ []
unfolding names_of remove delete
names_of-remove prefix name [] h = refl
names_of-remove prefix name (file ∷ files) h = ground (arith, names_of-remove prefix name files)
