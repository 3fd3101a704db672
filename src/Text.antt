-- ===== src/Text.antt =====
-- The functions of Go's `strings` and the regular expression classes that the program uses. A text
-- is the list of its runes.
pub mod Laws
pub mod Search
pub mod Paths
use Prim.Native.Char.{code}
use wpx.Prelude.{
  ℕ, zero, suc, ◌+◌, ◌-◌, ◌≤◌, String, Bool, true, false, not, ◌&&◌, ◌||◌, List, [], ◌∷◌, ◌++◌, ◌≡◌,
  ◌↔◌, refl, arith, ltb, leb, ◌==◌, if◌then◌else◌,
}

abbrev pub Text : Type 0
Text = List ℕ

-- The runes of a string.
abbrev pub codes : String → Text
codes String.[] = []
codes (String.◌∷◌ c s) = code c ∷ codes s

abbrev pub length {ℓ} : {A : Type ℓ} → List A → ℕ
length [] = 0
length (x ∷ xs) = suc (length xs)

abbrev pub take {ℓ} : {A : Type ℓ} → ℕ → List A → List A
take zero xs = []
take (suc n) [] = []
take (suc n) (x ∷ xs) = x ∷ take n xs

infix 50 ◌=ᵗ◌
unfoldable pub ◌=ᵗ◌ : Text → Text → Bool
[] =ᵗ [] = true
[] =ᵗ (y ∷ ys) = false
(x ∷ xs) =ᵗ [] = false
(x ∷ xs) =ᵗ (y ∷ ys) = x == y && xs =ᵗ ys

-- Every rune passes the test: a class followed by `*` between anchors.
unfoldable pub all : (ℕ → Bool) → Text → Bool
all p [] = true
all p (c ∷ t) = p c && all p t

-- strings.ContainsRune
unfoldable pub contains : ℕ → Text → Bool
contains d [] = false
contains d (c ∷ t) = c == d || contains d t

-- strings.Contains for the two-rune text `dd`
unfoldable pub contains_twice : ℕ → Text → Bool
contains_twice d [] = false
contains_twice d (c ∷ []) = false
contains_twice d (c ∷ (e ∷ t)) = (c == d && e == d) || contains_twice d (e ∷ t)

-- strings.HasPrefix for one rune
unfoldable pub starts_with : ℕ → Text → Bool
starts_with d [] = false
starts_with d (c ∷ t) = c == d

-- strings.HasSuffix for one rune
unfoldable pub ends_with : ℕ → Text → Bool
ends_with d [] = false
ends_with d (c ∷ []) = c == d
ends_with d (c ∷ (e ∷ t)) = ends_with d (e ∷ t)

-- strings.Count for one rune
unfoldable pub occurrences : ℕ → Text → ℕ
occurrences d [] = 0
occurrences d (c ∷ t) = (if c == d then 1 else 0) + occurrences d t

-- strings.Cut at the first rune `d`: what stands before and after it, and whether it was found
unfoldable pub cut : ℕ → Text → Text × Text × Bool
cut d [] = ([], [], false)
cut d (c ∷ t) =
    let (before, after, found) = cut d t in
    if c == d then ([], t, true) else (c ∷ before, after, found)

-- The first part of a split gets one more rune at its front.
abbrev pub push : ℕ → List Text → List Text
push c [] = (c ∷ []) ∷ []
push c (part ∷ parts) = (c ∷ part) ∷ parts

-- strings.Split at the rune `d`
unfoldable pub split : ℕ → Text → List Text
split d [] = [] ∷ []
split d (c ∷ t) = let rest = split d t in if c == d then [] ∷ rest else push c rest

-- unicode.IsSpace
unfoldable pub is_space : ℕ → Bool
is_space c =
    (leb 9 c && leb c 13)
    || c == 32
    || c == 0x85
    || c == 0xa0
    || c == 0x1680
    || (leb 0x2000 c && leb c 0x200a)
    || c == 0x2028
    || c == 0x2029
    || c == 0x202f
    || c == 0x205f
    || c == 0x3000

unfoldable pub trim_left : Text → Text
unfolding is_space
trim_left [] = []
trim_left (c ∷ t) = let rest = trim_left t in if is_space c then rest else c ∷ t

-- The last rune before the trimmed end stays unless it is a space.
put_back : ℕ → Text → Text
unfolding is_space
put_back c [] = if is_space c then [] else c ∷ []
put_back c (d ∷ u) = c ∷ (d ∷ u)

unfoldable pub trim_right : Text → Text
unfolding put_back
trim_right [] = []
trim_right (c ∷ t) = put_back c (trim_right t)

-- strings.TrimSpace
unfoldable pub trim_space : Text → Text
unfolding trim_left trim_right
trim_space t = trim_right (trim_left t)

-- strings.TrimSuffix for one rune
unfoldable pub trim_suffix : ℕ → Text → Text
trim_suffix d [] = []
trim_suffix d (c ∷ []) = if c == d then [] else c ∷ []
trim_suffix d (c ∷ (e ∷ t)) = c ∷ trim_suffix d (e ∷ t)

-- unicode.ToLower. Outside ASCII only the Kelvin sign and the dotted capital I have a lower case in
-- ASCII; every other rune stays outside ASCII, where all patterns refuse it, and is left as it is.
unfoldable pub lower_rune : ℕ → ℕ
lower_rune c =
    if leb b'A' c && leb c b'Z'
    then c + 32
    else if c == 0x212a
    then b'k'
    else if c == 0x130
    then b'i'
    else c

-- strings.ToLower
unfoldable pub to_lower : Text → Text
unfolding lower_rune
to_lower [] = []
to_lower (c ∷ t) = lower_rune c ∷ to_lower t

-- [a-z]
abbrev pub is_lower : ℕ → Bool
is_lower c = leb b'a' c && leb c b'z'

-- [0-9]
abbrev pub is_digit : ℕ → Bool
is_digit c = leb b'0' c && leb c b'9'

-- [a-z0-9]
abbrev pub is_alphanumeric : ℕ → Bool
is_alphanumeric c = is_lower c || is_digit c
