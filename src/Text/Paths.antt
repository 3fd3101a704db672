-- ===== src/Text/Paths.antt =====
-- The functions of Go's `path/filepath` and the further ones of `strings` that
-- internal/provision/delete_site.go and hosting_ftp.go use.
use wpx.Prelude.{Bool, not, ◌&&◌, ◌||◌, List, [], ◌∷◌, ◌++◌, if◌then◌else◌}
use wpx.Text.{Text, codes, ◌=ᵗ◌, split, starts_with, is_space}
use wpx.Text.Search.{has_prefix}

-- strings.Join
unfoldable pub join_with : Text → List Text → Text
join_with separator [] = []
join_with separator (part ∷ []) = part
join_with separator (part ∷ (next ∷ parts)) =
    part ++ (separator ++ join_with separator (next ∷ parts))

-- filepath.Join of a clean path other than the root and a plain name
abbrev pub join : Text → Text → Text
join root name = root ++ (b'/' ∷ name)

-- filepath.IsAbs
abbrev pub is_abs : Text → Bool
is_abs = starts_with b'/'

-- What one component does to the components that a clean path has so far, the last one first.
unfoldable pub apply_part : Bool → List Text → Text → List Text
apply_part rooted [] part = if part =ᵗ codes ".." && rooted then [] else part ∷ []
apply_part rooted (top ∷ stack) part =
    if part =ᵗ codes ".." && not (top =ᵗ codes "..") then stack else part ∷ (top ∷ stack)

abbrev is_empty_part : Text → Bool
is_empty_part part = part =ᵗ [] || part =ᵗ codes "."

unfoldable pub clean_onto : Bool → List Text → List Text → List Text
unfolding apply_part
clean_onto rooted stack [] = stack
clean_onto rooted stack (part ∷ parts) =
    clean_onto rooted (if is_empty_part part then stack else apply_part rooted stack part) parts

abbrev backwards : List Text → List Text → List Text
backwards done [] = done
backwards done (part ∷ parts) = backwards (part ∷ done) parts

abbrev or_dot : Text → Text
or_dot [] = codes "."
or_dot (c ∷ path) = c ∷ path

-- filepath.Clean
unfoldable pub clean : Text → Text
unfolding clean_onto join_with
clean path =
    let parts =
      join_with (codes "/") (backwards [] (clean_onto (is_abs path) [] (split b'/' path))) in
    if is_abs path then b'/' ∷ parts else or_dot parts

-- Absolute, clean and not the root.
unfoldable pub is_plain_path : Text → Bool
unfolding clean
is_plain_path path = is_abs path && clean path =ᵗ path && not (path =ᵗ codes "/")

-- The path itself, or one below it.
unfoldable pub is_within : Text → Text → Bool
unfolding has_prefix
is_within directory path = path =ᵗ directory || has_prefix (directory ++ codes "/") path

-- strings.HasSuffix
unfoldable pub has_suffix : Text → Text → Bool
has_suffix part [] = part =ᵗ []
has_suffix part (c ∷ s) = part =ᵗ (c ∷ s) || has_suffix part s

abbrev put_field : Text → List Text → List Text
put_field [] fields = fields
put_field (c ∷ field) fields = (c ∷ field) ∷ fields

-- strings.Fields: the field that a text begins with, which may be empty, and those that follow it.
unfoldable pub fields_of : Text → Text × List Text
fields_of [] = ([], [])
fields_of (c ∷ t) =
    let (field, rest) = fields_of t in
    if is_space c then ([], put_field field rest) else (c ∷ field, rest)

unfoldable pub fields : Text → List Text
unfolding fields_of is_space
fields t = put_field (fields_of t).0 (fields_of t).1
