-- ===== src/Text/Search.antt =====
-- The functions of Go's `strings` that look for a text in a text.
use wpx.Prelude.{ℕ, ◌+◌, Bool, true, false, ◌&&◌, ◌||◌, [], ◌∷◌, ◌++◌, ◌==◌, if◌then◌else◌}
use wpx.Text.{Text}

-- strings.HasPrefix(s, prefix)
unfoldable pub has_prefix : Text → Text → Bool
has_prefix [] s = true
has_prefix (p ∷ ps) [] = false
has_prefix (p ∷ ps) (c ∷ s) = p == c && has_prefix ps s

-- strings.Contains(s, part)
unfoldable pub contains_text : Text → Text → Bool
unfolding has_prefix
contains_text part [] = has_prefix part []
contains_text part (c ∷ s) = has_prefix part (c ∷ s) || contains_text part s

-- strings.Count(s, part), for a part that is not empty and does not overlap itself
unfoldable pub count_text : Text → Text → ℕ
unfolding has_prefix
count_text part [] = 0
count_text part (c ∷ s) = (if has_prefix part (c ∷ s) then 1 else 0) + count_text part s

abbrev pub drop_as : Text → Text → Text
drop_as [] s = s
drop_as (p ∷ ps) [] = []
drop_as (p ∷ ps) (c ∷ s) = drop_as ps s

-- strings.Replace(s, old, new, 1), for an old part that is not empty
unfoldable pub replace_first : Text → Text → Text → Text
unfolding has_prefix
replace_first old new [] = []
replace_first old new (c ∷ s) =
    let rest = replace_first old new s in
    if has_prefix old (c ∷ s) then new ++ drop_as old (c ∷ s) else c ∷ rest
