-- ===== src/Provision/Deletion/Lines.antt =====
-- The lines of the password file of ProFTPD (internal/provision/hosting_ftp.go) and the names of
-- scheduled commands (internal/provision/cron.go), as lists.
use mathlib.Core.List.{append_assoc}
use wpx.Prelude.{
  ℕ, zero, suc, none, some, Bool, true, false, ◌&&◌, ◌||◌, ◌≡◌, refl, ◌∙◌, ap, inl, inr, Bool-cases,
  List, [], ◌∷◌, ◌++◌, arith, ◌==◌,
}
use wpx.Prelude.Table.{delete, any}
use wpx.Text.{Text, codes, ◌=ᵗ◌, split, push, contains, trim_space}
use wpx.Text.Laws.{=ᵗ_refl}
use wpx.Text.Paths.{join_with, clean}
use wpx.Provision.Deletion.Files.{Files, remove}
use wpx.Provision.Deletion.Cron.{names_of}
use wpx.Provision.Deletion.Hosting.{
  home_part, is_access_to, kept_lines, without_access, marker_line,
}

unfoldable pub member : Text → List Text → Bool
member name [] = false
member name (x ∷ xs) = name =ᵗ x || member name xs

unfoldable pub is_subset : List Text → List Text → Bool
unfolding member
is_subset [] names = true
is_subset (x ∷ xs) names = member x names && is_subset xs names

is_subset-cons :
    (x : Text) (xs names : List Text) → is_subset xs names ≡ true → is_subset xs (x ∷ names) ≡ true
unfolding is_subset
is_subset-cons x [] names h = refl
is_subset-cons x (y ∷ ys) names h = ground (arith, is_subset-cons x ys names)

pub is_subset_refl : (xs : List Text) → is_subset xs xs ≡ true
unfolding is_subset
is_subset_refl [] = refl
is_subset_refl (x ∷ xs) = ground (arith, =ᵗ_refl x, is_subset-cons x xs xs (is_subset_refl xs))

pub is_subset-of_nil : (names : List Text) → is_subset [] names ≡ true
unfolding is_subset
is_subset-of_nil names = refl

pub is_subset-nil : (xs : List Text) → is_subset xs [] ≡ true → xs ≡ []
unfolding is_subset
is_subset-nil [] h = refl
is_subset-nil (x ∷ xs) h = ground arith

pub names_of-remove_subset :
    (prefix name : Text) (names : List Text) (files : Files)
    → is_subset (names_of prefix files) (name ∷ names) ≡ true
    → is_subset (names_of prefix (remove name files)) names ≡ true
unfolding is_subset names_of remove delete
names_of-remove_subset prefix name names [] h = refl
names_of-remove_subset prefix name names (file ∷ files) h =
    ground (arith, names_of-remove_subset prefix name names files)

-- What is left of parts without so many.
abbrev pub drop_parts : ℕ → List Text → List Text
drop_parts zero parts = parts
drop_parts (suc n) [] = []
drop_parts (suc n) (part ∷ parts) = drop_parts n parts

-- A text up to the first separator is the first part.
split_line :
    (d : ℕ) (line t : Text) → contains d line ≡ false → split d (line ++ (d ∷ t)) ≡ line ∷ split d t
unfolding split contains
split_line d [] t h = ground arith
split_line d (c ∷ line) t h = ground (arith, split_line d line t)

any-contains-push :
    (d c : ℕ) (parts : List Text)
    → (c == d) ≡ false
    → any (contains d) parts ≡ false
    → any (contains d) (push c parts) ≡ false
unfolding any contains
any-contains-push d c [] h k = ground arith
any-contains-push d c (part ∷ parts) h k = ground arith

-- No part of a split contains the separator.
any-contains-split : (d : ℕ) (t : Text) → any (contains d) (split d t) ≡ false
unfolding any contains split
any-contains-split d [] = refl
any-contains-split d (c ∷ t) = elim (Bool-cases (c == d)) [
  | inl e ↦ rw e (any-contains-split d t)
  | inr e ↦ rw e (any-contains-push d c (split d t) e (any-contains-split d t))
]

any-kept_lines :
    (home : Text) (d : ℕ) (lines : List Text)
    → any (contains d) lines ≡ false
    → any (contains d) (kept_lines home lines) ≡ false
unfolding any kept_lines
any-kept_lines home d [] h = refl
any-kept_lines home d (line ∷ lines) h = ground (arith, any-kept_lines home d lines)

any-access-kept_lines :
    (home : Text) (lines : List Text) → any (is_access_to home) (kept_lines home lines) ≡ false
unfolding any kept_lines
any-access-kept_lines home [] = refl
any-access-kept_lines home (line ∷ lines) = ground (arith, any-access-kept_lines home lines)

-- The lines of joined lines, with the empty one after the final line break.
split-join_with :
    (d : ℕ) (line : Text) (lines : List Text)
    → contains d line ≡ false
    → any (contains d) lines ≡ false
    → split d (join_with (d ∷ []) (line ∷ lines) ++ (d ∷ [])) ≡ line ∷ (lines ++ ([] ∷ []))
unfolding join_with any split
split-join_with d line [] h k = split_line d line [] h
split-join_with d line (next ∷ lines) h k =
    rw (append_assoc line ((d ∷ []) ++ join_with (d ∷ []) (next ∷ lines)) (d ∷ [])) (
      split_line d line (join_with (d ∷ []) (next ∷ lines) ++ (d ∷ [])) h
      ∙ ap (λ parts. line ∷ parts) (split-join_with d next lines (ground arith) (ground arith)))

-- The sixth part of the line, between colons, is a path that cleans to the directory.
abbrev pub gives_access : Text → Text → Bool
gives_access home line = elim (drop_parts 5 (split b':' line)) [
  | [] ↦ false
  | path ∷ rest ↦ clean path =ᵗ home
]

is_access_to-gives_access : (home line : Text) → is_access_to home line ≡ gives_access home line
unfolding is_access_to
is_access_to-gives_access home line = by_parts (split b':' line)
  where
    by_parts :
        (parts : List Text)
        → (elim (home_part parts) [ none ↦ false | some path ↦ clean path =ᵗ home ])
          ≡ (elim (drop_parts 5 parts) [ [] ↦ false | path ∷ rest ↦ clean path =ᵗ home ])
    by_parts [] = refl
    by_parts (a ∷ []) = refl
    by_parts (a ∷ (b ∷ [])) = refl
    by_parts (a ∷ (b ∷ (c ∷ []))) = refl
    by_parts (a ∷ (b ∷ (c ∷ (d ∷ [])))) = refl
    by_parts (a ∷ (b ∷ (c ∷ (d ∷ (e ∷ []))))) = refl
    by_parts (a ∷ (b ∷ (c ∷ (d ∷ (e ∷ (path ∷ rest)))))) = refl

-- The loop keeps all but the marker and the lines that give access.
kept_lines-delete :
    (home : Text) (lines : List Text)
    → kept_lines home lines
      ≡ delete
          (λ line.
            line =ᵗ codes "# Managed by WPX. Manual changes will be replaced."
            || gives_access home line)
          lines
unfolding kept_lines delete
kept_lines-delete home [] = refl
kept_lines-delete home (line ∷ lines) =
    ground (arith, is_access_to-gives_access home line, kept_lines-delete home lines)

-- The lines of the rewritten password file, by the loop.
lines-without_access :
    (home content : Text)
    → split 10 (without_access home content)
      ≡ marker_line ∷ (kept_lines home (split 10 (trim_space content)) ++ ([] ∷ []))
unfolding without_access contains
lines-without_access home content =
    split-join_with 10 marker_line (kept_lines home (split 10 (trim_space content))) refl (
      any-kept_lines home 10 (split 10 (trim_space content))
        (any-contains-split 10 (trim_space content)))

-- The lines of the rewritten password file are the marker, then those lines of the old content,
-- without surrounding space, that are not the marker and whose sixth part between colons does not
-- clean to the directory of the site, in their order, and an empty one at the end.
pub split-without_access :
    (home content : Text)
    → split 10 (without_access home content)
      ≡ codes "# Managed by WPX. Manual changes will be replaced."
        ∷ (delete
              (λ line.
                line =ᵗ codes "# Managed by WPX. Manual changes will be replaced."
                || gives_access home line)
              (split 10 (trim_space content))
            ++ ([] ∷ []))
split-without_access home content =
    lines-without_access home content
    ∙ ap (λ lines. marker_line ∷ (lines ++ ([] ∷ [])))
        (kept_lines-delete home (split 10 (trim_space content)))

any-append_nil :
    (p : Text → Bool) (xs : List Text)
    → any p xs ≡ false
    → p [] ≡ false
    → any p (xs ++ ([] ∷ [])) ≡ false
unfolding any
any-append_nil p [] h k = ground arith
any-append_nil p (x ∷ xs) h k = ground (arith, any-append_nil p xs)

-- After the rewriting no line gives access to the directory.
pub any-without_access :
    (home content : Text) → any (is_access_to home) (split 10 (without_access home content)) ≡ false
unfolding any is_access_to split
any-without_access home content = rw (lines-without_access home content) (
    any-append_nil (is_access_to home) (kept_lines home (split 10 (trim_space content)))
      (any-access-kept_lines home (split 10 (trim_space content))) refl)

pub names_of-remove_within :
    (prefix name : Text) (names : List Text) (files : Files)
    → is_subset (names_of prefix files) names ≡ true
    → is_subset (names_of prefix (remove name files)) names ≡ true
unfolding is_subset names_of remove delete
names_of-remove_within prefix name names [] h = refl
names_of-remove_within prefix name names (file ∷ files) h =
    ground (arith, names_of-remove_within prefix name names files)
