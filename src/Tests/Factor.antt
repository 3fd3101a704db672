-- ===== src/Tests/Factor.antt =====
-- A run of the second factor.
use wpx.Prelude.{◌=?◌, ◌++◌, List, map, ℕ, ◌≡◌, refl, err, ok, some, none, true, [], ◌∷◌, inr}
use wpx.Prelude.Table
use wpx.Text.{Text, codes, length}
use wpx.Rbac.{customer}
use wpx.Store.Rows.{Db, RecoveryCode, invalid_second_factor, factor_unavailable}
use wpx.Store.SecondFactor.Enrolment.{
  usable, four_groups, code_row, confirm_totp_enrollment-usable, verify_second_factor-disable_totp,
}
use wpx.Store.SecondFactor.{
  Draw, disable_totp, confirm_totp_enrollment, Primitives, verify_second_factor, normalize_code,
}
use wpx.Store.SecondFactor.Once.{verify_second_factor_twice}
use wpx.Tests.Data.{account, from_ok, second, start}

-- A sum of twenty zero bytes gives the code of six zeros.
abbrev primitives : Primitives
primitives = record {
  has_key = true;
  seal = λ t. "sealed";
  unseal = λ s. some (codes "SECRET");
  decode_base32 = λ t. some [];
  counter_mac = λ key n. [];
  code_mac = λ t. "mac";
  to_upper = λ t. t;
}

abbrev enrolled : Db
enrolled = record start {
  users = record (account "u1" (codes "client") customer) { totp_secret = some "sealed" } ∷ [];
}

abbrev verified : Db
unfolding verify_second_factor
verified =
    from_ok (verify_second_factor primitives (second 3000) "u1" (codes " 000-000") enrolled) start

verified-ok :
    verify_second_factor primitives (second 3000) "u1" (codes " 000-000") enrolled ≡ ok verified
unfolding verify_second_factor wpx.Prelude.Table.first wpx.Store.SecondFactor.valid_totp_counter
    normalize_code wpx.Text.◌=ᵗ◌ wpx.Store.SecondFactor.totp_code wpx.Prelude.Table.count
verified-ok = refl

verify_second_factor_twice_example :
    verify_second_factor primitives (second 3029) "u1" (codes " 000-000") verified
    ≡ err invalid_second_factor
verify_second_factor_twice_example =
    verify_second_factor_twice primitives (second 3000) (second 3029) "u1" (codes " 000-000")
      enrolled verified (inr refl) verified-ok

abbrev draw : Draw
draw = record {
  now = second 3000;
  secret = codes "SECRET";
  recovery = codes "0123456789ABCDEF" ∷ [];
  audit_id = "a1";
}

abbrev removed : Db
unfolding disable_totp
removed = from_ok (disable_totp draw "u1" enrolled) start

removed-ok : disable_totp draw "u1" enrolled ≡ ok removed
unfolding disable_totp Table.count wpx.Store.Statements.insert_audit Table.any Table.update
removed-ok = refl

verify_second_factor-disable_totp_example :
    verify_second_factor primitives (second 3001) "u1" (codes "000000") removed
    ≡ err factor_unavailable
verify_second_factor-disable_totp_example =
    verify_second_factor-disable_totp primitives draw (second 3001) "u1" (codes "000000") enrolled
      removed removed-ok

abbrev pending : Db
pending = record start {
  users = record (account "u1" (codes "client") customer) { totp_pending = some "sealed" } ∷ [];
}

abbrev confirmed : List Text × Db
unfolding confirm_totp_enrollment
confirmed =
    from_ok (confirm_totp_enrollment primitives draw "u1" (codes "000000") pending) ([], start)

confirmed-ok :
    confirm_totp_enrollment primitives draw "u1" (codes "000000") pending
    ≡ ok (codes "0123-4567-89AB-CDEF" ∷ [], confirmed.1)
unfolding confirm_totp_enrollment Table.first wpx.Store.SecondFactor.valid_totp_counter
    normalize_code wpx.Text.◌=ᵗ◌ wpx.Store.SecondFactor.totp_code
    wpx.Store.SecondFactor.insert_recovery_codes Table.any Table.delete
    wpx.Store.Statements.insert_audit Table.update
confirmed-ok = refl

confirm_totp_enrollment-usable_example :
    ((codes "0123-4567-89AB-CDEF" ∷ []) ≡ map four_groups draw.recovery)
    × (confirmed.1.recovery_codes
        ≡ Table.delete (λ (r : RecoveryCode). r.user_id =? "u1") pending.recovery_codes
          ++ map (code_row draw.now "u1") (
              map
                (λ c. primitives.code_mac (normalize_code primitives c))
                (codes "0123-4567-89AB-CDEF" ∷ [])))
    × (Table.count (usable "u1") confirmed.1.recovery_codes
        ≡ length (codes "0123-4567-89AB-CDEF" ∷ []))
confirm_totp_enrollment-usable_example =
    confirm_totp_enrollment-usable primitives draw "u1" (codes "000000") pending confirmed.1
      (codes "0123-4567-89AB-CDEF" ∷ []) confirmed-ok
