-- ===== src/Store/SecondFactor.antt =====
-- The second factor of a login: internal/store/totp.go. Counters are stored plus one, so that the
-- default -1 is 0.
pub mod Once
pub mod Enrolment
use Prim.Native.Nat.{bit_and}
use wpx.Prelude.{
  ℕ, zero, suc, ◌+◌, ◌*◌, ◌-◌, ◌/◌, ◌%◌, ◌^◌, String, Bool, true, false, not, ◌&&◌, ◌||◌, ◌=?◌,
  ◌==◌, ltb, Option, none, some, List, [], ◌∷◌, ◌++◌, map, if◌then◌else◌, Result, ok, err, guard,
  require, ◌>>=◌, ◌>>◌,
}
use wpx.Prelude.Table
use wpx.Text.{Text, ◌=ᵗ◌, trim_space}
use wpx.Stamp.{Stamp}
use wpx.Model.Site.{byte_length}
use wpx.Store.Rows.{
  Db, UserRow, TokenRow, RecoveryCode, Error, constraint, no_pending_enrollment, totp_enabled,
  totp_not_enabled, no_secret_key, bad_ciphertext, invalid_code, factor_unavailable,
  invalid_second_factor, user_missing,
}
use wpx.Store.Statements.{insert_audit}
use wpx.Store.Users.Access.{by_id, of_user, is_some}

-- What the program calls: AES-GCM under the key of the application, if one is configured, base32,
-- HMAC-SHA1 over a counter, HMAC-SHA256 over the text of a recovery code, and `strings.ToUpper`.
pub record Primitives : Type 0 where
  pub has_key : Bool
  pub seal : Text → String
  pub unseal : String → Option Text
  pub decode_base32 : Text → Option (List ℕ)
  pub counter_mac : List ℕ → ℕ → List ℕ
  pub code_mac : Text → String
  pub to_upper : Text → Text

abbrev without : ℕ → Text → Text
without d [] = []
without d (c ∷ t) = let rest = without d t in if c == d then rest else c ∷ rest

unfoldable pub normalize_code : Primitives → Text → Text
unfolding trim_space
normalize_code p code = p.to_upper (without 32 (without b'-' (trim_space code)))

abbrev pub encrypt : Primitives → Text → Result Error String
encrypt p plain = guard p.has_key no_secret_key >> ok (p.seal plain)

abbrev pub decrypt : Primitives → String → Result Error Text
decrypt p sealed = guard p.has_key no_secret_key >> require (p.unseal sealed) bad_ciphertext

-- The byte at an index; the sum has twenty bytes, so that every index that is used is in range.
abbrev byte_at : ℕ → List ℕ → ℕ
byte_at n [] = 0
byte_at zero (b ∷ bs) = b
byte_at (suc n) (b ∷ bs) = byte_at n bs

-- %06d of a number below a million
abbrev six_digits : ℕ → Text
six_digits n =
    (b'0' + n / 10 ^ 5 % 10)
    ∷ (b'0' + n / 10 ^ 4 % 10)
    ∷ (b'0' + n / 10 ^ 3 % 10)
    ∷ (b'0' + n / 100 % 10)
    ∷ (b'0' + n / 10 % 10)
    ∷ (b'0' + n % 10)
    ∷ []

-- `totpCode` of the counter that is one less, as a 64-bit word.
unfoldable pub totp_code : Primitives → List ℕ → ℕ → Text
totp_code p secret counter_plus_one =
    let sum = p.counter_mac secret ((counter_plus_one + 2 ^ 64 - 1) % 2 ^ 64) in
    let offset = bit_and (byte_at 19 sum) 0x0f in
    let value =
      bit_and (byte_at offset sum) 0x7f * 2 ^ 24
      + byte_at (offset + 1) sum * 2 ^ 16
      + byte_at (offset + 2) sum * 2 ^ 8
      + byte_at (offset + 3) sum in
    six_digits (value % 10 ^ 6)

-- The first of the counters whose code it is.
abbrev first_match : (ℕ → Text) → Text → List ℕ → Option ℕ
first_match code_of code [] = none
first_match code_of code (c ∷ cs) =
    let rest = first_match code_of code cs in if code_of c =ᵗ code then some c else rest

-- The step before the current one, the current one and the next one, each plus one.
unfoldable pub valid_totp_counter : Primitives → Text → Text → Stamp → Option ℕ
valid_totp_counter p secret code now = elim (p.decode_base32 (p.to_upper secret)) [
  | none ↦ none
  | some key ↦
      if not (byte_length code == 6)
      then none
      else (let current = now.second / 30 in
          first_match (totp_code p key) code (current ∷ (current + 1) ∷ (current + 2) ∷ []))
]

abbrev pub is_unused : Option Stamp → Bool
is_unused none = true
is_unused (some _) = false

-- WHERE user_id=? AND code_hash=? AND used_at IS NULL
abbrev pub unused_code : String → String → RecoveryCode → Bool
unused_code user_id hash r = r.user_id =? user_id && r.code_hash =? hash && is_unused r.used_at

unfoldable pub consume_recovery_code : Primitives → Stamp → String → Text → Db → Result Error Db
consume_recovery_code p now user_id code db = do
  guard (byte_length code == 16) invalid_second_factor
  let unused = unused_code user_id (p.code_mac code)
  guard (Table.count unused db.recovery_codes == 1) invalid_second_factor
  ok (record db {
    recovery_codes = Table.update unused (λ r. record r { used_at = some now }) db.recovery_codes;
  })

-- WHERE id=? AND totp_last_counter<?
abbrev pub counted_below : String → ℕ → UserRow → Bool
counted_below user_id counter u = u.id =? user_id && ltb u.totp_last_counter_plus_one counter

abbrev pub counted : String → ℕ → Db → Db
counted user_id counter db = record db {
  users =
      Table.update (counted_below user_id counter)
        (λ u. record u { totp_last_counter_plus_one = counter }) db.users;
}

-- The code is an authenticator's of a later step than the last one, or a recovery code.
unfoldable pub verify_second_factor : Primitives → Stamp → String → Text → Db → Result Error Db
verify_second_factor p now user_id code db = do
  let normalized = normalize_code p code
  row ← require (Table.first (by_id user_id) db.users) factor_unavailable
  sealed ← require row.totp_secret factor_unavailable
  guard (not (sealed =? "")) factor_unavailable
  secret ← decrypt p sealed
  elim (valid_totp_counter p secret normalized now) [
    | none ↦ consume_recovery_code p now user_id normalized db
    | some counter ↦
        if not (ltb row.totp_last_counter_plus_one counter)
        then consume_recovery_code p now user_id normalized db
        else if Table.count (counted_below user_id counter) db.users == 1
        then ok (counted user_id counter db)
        else consume_recovery_code p now user_id normalized (counted user_id counter db)
  ]

-- What an enrolment draws: the secret in base32, and the bytes of ten recovery codes in upper-case
-- hexadecimal.
pub record Draw : Type 0 where
  pub now : Stamp
  pub secret : Text
  pub recovery : List Text
  pub audit_id : String

-- `BeginTOTPEnrollment` returns the secret; a row that is gone is an error of the query.
unfoldable pub begin_totp_enrollment : Primitives → Draw → String → Db → Result Error (Text × Db)
begin_totp_enrollment p draw user_id db = do
  row ← require (Table.first (by_id user_id) db.users) user_missing
  guard (not (is_some row.totp_secret)) totp_enabled
  sealed ← encrypt p draw.secret
  ok (
    draw.secret,
    record db {
      users =
          Table.update (by_id user_id)
            (λ u. record u { totp_pending = some sealed; updated_at = draw.now }) db.users;
    },
  )

abbrev same_code : RecoveryCode → RecoveryCode → Bool
same_code a b = a.user_id =? b.user_id && a.code_hash =? b.code_hash

unfoldable pub insert_recovery_codes : Stamp → String → List String → Db → Result Error Db
insert_recovery_codes now user_id [] db = ok db
insert_recovery_codes now user_id (hash ∷ hashes) db =
    let row : RecoveryCode = record {
      user_id = user_id;
      code_hash = hash;
      created_at = now;
      used_at = none;
    } in
    guard (not (Table.any (same_code row) db.recovery_codes)) constraint
    >> insert_recovery_codes now user_id hashes
        (record db { recovery_codes = Table.insert row db.recovery_codes })

abbrev group : ℕ → ℕ → Text → Text
group width left [] = []
group width zero (c ∷ t) = b'-' ∷ c ∷ group width (width - 1) t
group width (suc left) (c ∷ t) = c ∷ group width left t

-- Four groups of four, which dashes separate.
abbrev pub dashed : Text → Text
dashed raw = group 4 4 raw

abbrev audit_factor : Draw → String → String → Db → Result Error Db
audit_factor draw action user_id = insert_audit (record {
  id = draw.audit_id;
  actor_id = some user_id;
  action = action;
  target_type = "user";
  target_id = user_id;
  success = true;
  created_at = draw.now;
})

-- A pending secret that is empty counts as none. The codes that are returned are the dashed ones.
unfoldable pub confirm_totp_enrollment :
    Primitives → Draw → String → Text → Db → Result Error (List Text × Db)
confirm_totp_enrollment p draw user_id code db = do
  row ← require (Table.first (by_id user_id) db.users) no_pending_enrollment
  sealed ← require row.totp_pending no_pending_enrollment
  guard (not (sealed =? "")) no_pending_enrollment
  secret ← decrypt p sealed
  guard (is_some (valid_totp_counter p secret (normalize_code p code) draw.now)) invalid_code
  let codes = map dashed draw.recovery
  let hashes = map (λ c. p.code_mac (normalize_code p c)) codes
  db1 ← insert_recovery_codes draw.now user_id hashes (record db {
    users =
        Table.update (by_id user_id)
          (λ u. record u {
            totp_secret = u.totp_pending;
            totp_pending = none;
            totp_last_counter_plus_one = 0;
            updated_at = draw.now;
          })
          db.users;
    recovery_codes = Table.delete (λ (r : RecoveryCode). r.user_id =? user_id) db.recovery_codes;
  })
  db2 ← audit_factor draw "totp.enabled" user_id db1
  ok (codes, db2)

-- WHERE id=? AND totp_secret_ciphertext IS NOT NULL
abbrev pub has_factor : String → UserRow → Bool
has_factor user_id u = u.id =? user_id && is_some u.totp_secret

unfoldable pub disable_totp : Draw → String → Db → Result Error Db
disable_totp draw user_id db = do
  guard (Table.count (has_factor user_id) db.users == 1) totp_not_enabled
  audit_factor draw "totp.disabled" user_id (record db {
    users =
        Table.update (has_factor user_id)
          (λ u. record u {
            totp_secret = none;
            totp_pending = none;
            totp_last_counter_plus_one = 0;
            updated_at = draw.now;
          })
          db.users;
    recovery_codes = Table.delete (λ (r : RecoveryCode). r.user_id =? user_id) db.recovery_codes;
    login_challenges = Table.delete (of_user user_id) db.login_challenges;
  })
