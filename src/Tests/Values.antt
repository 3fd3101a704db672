-- ===== src/Tests/Values.antt =====
-- Runs of the roles, the identifiers, the domains and the instants.
use wpx.Prelude.{◌^◌, ◌*◌, ◌≡◌, refl, true, ◌∷◌, arith}
use wpx.Text.{codes}
use wpx.Rbac.{administrator, collaborator, view_site, allows}
use wpx.Rbac.Laws.{allows_mono}
use wpx.Stamp.{Stamp, before, sorts_before}
use wpx.Stamp.Order.{sorts_before-inverted, sorts_before-second}
use wpx.Model.SiteId.{Bytes16, new_site_id, valid_site_id_text}
use wpx.Model.SiteId.Fresh.{IsBytes, new_site_id-valid}
use wpx.Model.Site.{valid_domain}
use wpx.Tests.Data.{second}

abbrev whole : Stamp
whole = second 7

abbrev half : Stamp
half = record { second = 7; nano = 5 * 10 ^ 8 }

sorts_before-inverted_example : (before whole half ≡ true) × (sorts_before half whole ≡ true)
sorts_before-inverted_example = sorts_before-inverted whole half refl refl (omega arith)

sorts_before-second_example :
    (sorts_before half (second 8) ≡ true) × (before half (second 8) ≡ true)
sorts_before-second_example =
    sorts_before-second half (second 8) (omega arith) (omega arith) (omega arith)

allows_mono_example : allows administrator view_site ≡ true
unfolding allows
allows_mono_example = allows_mono collaborator administrator view_site (omega arith) refl

-- The domain pattern ignores case as Unicode does: U+017F, the long s, stands for an s in a domain
-- that is to be an ASCII hostname.
long_s : valid_domain (383 ∷ codes "hop.example.org") ≡ true
unfolding valid_domain
long_s = refl

abbrev bytes : Bytes16
bytes = record {
  b0 = 0;
  b1 = 1;
  b2 = 2;
  b3 = 3;
  b4 = 250;
  b5 = 251;
  b6 = 252;
  b7 = 253;
  b8 = 254;
  b9 = 255;
  b10 = 17;
  b11 = 34;
  b12 = 51;
  b13 = 68;
  b14 = 85;
  b15 = 102;
}

bytes-IsBytes : IsBytes bytes
bytes-IsBytes = record {
  r0 = omega arith;
  r1 = omega arith;
  r2 = omega arith;
  r3 = omega arith;
  r4 = omega arith;
  r5 = omega arith;
  r6 = omega arith;
  r7 = omega arith;
  r8 = omega arith;
  r9 = omega arith;
  r10 = omega arith;
  r11 = omega arith;
  r12 = omega arith;
  r13 = omega arith;
  r14 = omega arith;
  r15 = omega arith;
}

new_site_id-valid_example : valid_site_id_text (new_site_id bytes) ≡ true
new_site_id-valid_example = new_site_id-valid bytes bytes-IsBytes

-- The identifier itself.
new_site_id-bytes : new_site_id bytes ≡ codes "00010203-fafb-4cfd-beff-112233445566"
unfolding new_site_id
new_site_id-bytes = refl
