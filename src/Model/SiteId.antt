-- ===== src/Model/SiteId.antt =====
-- internal/model/site_id.go, and `ValidateSiteID` of internal/model/site.go.
pub mod Fresh
use Prim.Native.Nat.{bit_and, bit_or}
use wpx.Prelude.{
  ℕ, ◌+◌, ◌/◌, ◌%◌, ◌≤◌, ◌<◌, String, Bool, true, false, not, ◌&&◌, ◌||◌, List, [], ◌∷◌, ◌++◌, leb,
  ltb, ◌==◌, if◌then◌else◌,
}
use wpx.Text.{Text, codes, length, all, contains_twice, ends_with, is_lower, is_digit}

-- [0-9a-f]
abbrev pub is_hex : ℕ → Bool
is_hex c = is_digit c || (leb b'a' c && leb c b'f')

-- An anchored pattern that is a row of classes, one for each rune.
unfoldable pub matches : List (ℕ → Bool) → Text → Bool
matches [] [] = true
matches [] (c ∷ t) = false
matches (p ∷ ps) [] = false
matches (p ∷ ps) (c ∷ t) = p c && matches ps t

abbrev pub is_dash : ℕ → Bool
is_dash c = c == b'-'

abbrev pub hex2 : List (ℕ → Bool)
hex2 = is_hex ∷ is_hex ∷ []

-- [89ab]
abbrev pub is_variant : ℕ → Bool
is_variant c = c == b'8' || c == b'9' || c == b'a' || c == b'b'

-- ^[0-9a-f]{8}-[0-9a-f]{4}-4[0-9a-f]{3}-[89ab][0-9a-f]{3}-[0-9a-f]{12}$
abbrev pub uuid_classes : List (ℕ → Bool)
uuid_classes =
    (hex2 ++ hex2 ++ hex2 ++ hex2)
    ++ (is_dash ∷ [])
    ++ (hex2 ++ hex2)
    ++ (is_dash ∷ (λ c. c == b'4') ∷ is_hex ∷ hex2)
    ++ (is_dash ∷ is_variant ∷ is_hex ∷ hex2)
    ++ (is_dash ∷ [])
    ++ (hex2 ++ hex2 ++ hex2 ++ hex2 ++ hex2 ++ hex2)

-- ^[a-z][a-z0-9-]{2,47}$
abbrev matches_slug : Text → Bool
matches_slug [] = false
matches_slug (c ∷ t) =
    is_lower c
    && leb 2 (length t)
    && leb (length t) 47
    && all (λ d. is_lower d || is_digit d || d == b'-') t

unfoldable pub valid_site_id_text : Text → Bool
unfolding matches all contains_twice ends_with
valid_site_id_text id =
    matches uuid_classes id
    || not (not (matches_slug id) || contains_twice b'-' id || ends_with b'-' id)

-- `ValidateSiteID(id) == nil`
unfoldable pub valid_site_id : String → Bool
unfolding valid_site_id_text
valid_site_id id = valid_site_id_text (codes id)

-- One digit of `%x`.
abbrev hex_digit : ℕ → ℕ
hex_digit n = if ltb n 10 then b'0' + n else 0x57 + n

-- `%x` of a row of bytes
abbrev hex_text : List ℕ → Text
hex_text [] = []
hex_text (v ∷ vs) = hex_digit (v / 16) ∷ hex_digit (v % 16) ∷ hex_text vs

-- The 16 random bytes of `NewSiteID`.
pub record Bytes16 : Type 0 where
  pub b0 : ℕ
  pub b1 : ℕ
  pub b2 : ℕ
  pub b3 : ℕ
  pub b4 : ℕ
  pub b5 : ℕ
  pub b6 : ℕ
  pub b7 : ℕ
  pub b8 : ℕ
  pub b9 : ℕ
  pub b10 : ℕ
  pub b11 : ℕ
  pub b12 : ℕ
  pub b13 : ℕ
  pub b14 : ℕ
  pub b15 : ℕ

-- `NewSiteID` over the bytes that `rand.Read` returns.
unfoldable pub new_site_id : Bytes16 → Text
new_site_id v =
    hex_text (v.b0 ∷ v.b1 ∷ v.b2 ∷ v.b3 ∷ [])
    ++ b'-' ∷ hex_text (v.b4 ∷ v.b5 ∷ [])
    ++ b'-' ∷ hex_text (bit_or (bit_and v.b6 0x0f) 0x40 ∷ v.b7 ∷ [])
    ++ b'-' ∷ hex_text (bit_or (bit_and v.b8 0x3f) 0x80 ∷ v.b9 ∷ [])
    ++ b'-' ∷ hex_text (v.b10 ∷ v.b11 ∷ v.b12 ∷ v.b13 ∷ v.b14 ∷ v.b15 ∷ [])
