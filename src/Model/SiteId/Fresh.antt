-- ===== src/Model/SiteId/Fresh.antt =====
-- `NewSiteID` of internal/model/site_id.go under `ValidateSiteID` of site.go.
use Prim.Native.Nat.{bit_and, bit_or}
use wpx.Prelude.{ℕ, zero, suc, ◌/◌, ◌%◌, ◌<◌, Bool, true, ◌&&◌, [], ◌∷◌, ◌≡◌, refl, arith, ◌==◌}
use wpx.Model.SiteId.{
  is_hex, matches, hex2, is_variant, hex_digit, Bytes16, new_site_id, valid_site_id_text,
  uuid_classes,
}

is_hex-hex_digit : (n : ℕ) → n < 16 → is_hex (hex_digit n) ≡ true
is_hex-hex_digit n h = ground arith

-- The test holds of all the values under a bound.
holds_under : (ℕ → Bool) → ℕ → Bool
holds_under test zero = true
holds_under test (suc bound) = holds_under test bound && test bound

holds_under_sound :
    (test : ℕ → Bool) (bound v : ℕ) → v < bound → holds_under test bound ≡ true → test v ≡ true
unfolding holds_under
holds_under_sound test zero v lt all = absurd (omega arith)
holds_under_sound test (suc bound) v lt all =
    ground (arith, lt, all, holds_under_sound test bound v)

version_table :
    holds_under
      (λ v.
        let w = bit_or (bit_and v 0x0f) 0x40 in
        hex_digit (w / 16) == b'4' && is_hex (hex_digit (w % 16)))
      256
    ≡ true
unfolding holds_under
version_table = refl

variant_table :
    holds_under
      (λ v.
        let w = bit_or (bit_and v 0x3f) 0x80 in
        is_variant (hex_digit (w / 16)) && is_hex (hex_digit (w % 16)))
      256
    ≡ true
unfolding holds_under
variant_table = refl

-- Two hexadecimal digits for each byte.
hex_byte : (v : ℕ) → v < 256 → matches hex2 (hex_digit (v / 16) ∷ hex_digit (v % 16) ∷ []) ≡ true
unfolding matches
hex_byte v h =
    ground (arith, is_hex-hex_digit (v / 16) (omega arith), is_hex-hex_digit (v % 16) (omega arith))

-- The 16 bytes are bytes.
pub record IsBytes (v : Bytes16) : Type 0 where
  pub r0 : v.b0 < 256
  pub r1 : v.b1 < 256
  pub r2 : v.b2 < 256
  pub r3 : v.b3 < 256
  pub r4 : v.b4 < 256
  pub r5 : v.b5 < 256
  pub r6 : v.b6 < 256
  pub r7 : v.b7 < 256
  pub r8 : v.b8 < 256
  pub r9 : v.b9 < 256
  pub r10 : v.b10 < 256
  pub r11 : v.b11 < 256
  pub r12 : v.b12 < 256
  pub r13 : v.b13 < 256
  pub r14 : v.b14 < 256
  pub r15 : v.b15 < 256

-- Whatever bytes the random source gives, `NewSiteID` returns an identifier that `ValidateSiteID`
-- accepts as a UUID of version 4.
pub matches-new_site_id : (v : Bytes16) → IsBytes v → matches uuid_classes (new_site_id v) ≡ true
unfolding matches new_site_id
matches-new_site_id v h = ground (
  arith,
  holds_under_sound _ 256 v.b6 h.r6 version_table,
  holds_under_sound _ 256 v.b8 h.r8 variant_table,
  hex_byte v.b0 h.r0,
  hex_byte v.b1 h.r1,
  hex_byte v.b2 h.r2,
  hex_byte v.b3 h.r3,
  hex_byte v.b4 h.r4,
  hex_byte v.b5 h.r5,
  hex_byte v.b7 h.r7,
  hex_byte v.b9 h.r9,
  hex_byte v.b10 h.r10,
  hex_byte v.b11 h.r11,
  hex_byte v.b12 h.r12,
  hex_byte v.b13 h.r13,
  hex_byte v.b14 h.r14,
  hex_byte v.b15 h.r15,
)

-- Whatever sixteen bytes the random source gives, the identifier made of them is one that the
-- validation of site identifiers accepts.
pub new_site_id-valid : (v : Bytes16) → IsBytes v → valid_site_id_text (new_site_id v) ≡ true
unfolding valid_site_id_text
new_site_id-valid v h = ground (arith, matches-new_site_id v h)
