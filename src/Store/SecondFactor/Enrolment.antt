-- ===== src/Store/SecondFactor/Enrolment.antt =====
-- `ConfirmTOTPEnrollment` and `DisableTOTP` of internal/store/totp.go and the rows that they leave.
use mathlib.Core.List.{append-nil, append_assoc}
use wpx.Prelude.{
  ◌+◌, String, Bool, ◌≡◌, ◌=?◌, ◌&&◌, none, List, [], ◌∷◌, ◌++◌, map, ap, sym, ◌∙◌, inl, inr, arith,
  refl, Option-cases, Result-cases, ok, err, eq_refl,
}
use wpx.Prelude.Table
use wpx.Prelude.Table.Rows
use wpx.Text.{Text, length}
use wpx.Stamp.{Stamp}
use wpx.Store.Rows.{Db, UserRow, RecoveryCode, factor_unavailable}
use wpx.Store.Statements.{insert_audit}
use wpx.Store.Users.Access.{by_id}
use wpx.Store.SecondFactor.{
  Primitives, Draw, is_unused, dashed, has_factor, decrypt, normalize_code, insert_recovery_codes,
  confirm_totp_enrollment, disable_totp, verify_second_factor,
}

-- A recovery code of the user that has not been used.
abbrev pub usable : String → RecoveryCode → Bool
usable user_id r = r.user_id =? user_id && is_unused r.used_at

insert_recovery_codes-usable :
    (now : Stamp) (user_id : String) (hashes : List String) (db db' : Db)
    → insert_recovery_codes now user_id hashes db ≡ ok db'
    → Table.count (usable user_id) db'.recovery_codes
      ≡ Table.count (usable user_id) db.recovery_codes + length hashes
unfolding insert_recovery_codes
insert_recovery_codes-usable now user_id [] db db' h = ground (arith, h)
insert_recovery_codes-usable now user_id (hash ∷ hashes) db db' h =
    let row : RecoveryCode = record {
      user_id = user_id;
      code_hash = hash;
      created_at = now;
      used_at = none;
    } in
    let db1 : Db = record db { recovery_codes = Table.insert row db.recovery_codes } in
    ground (
      arith,
      h,
      insert_recovery_codes-usable now user_id hashes db1 db',
      Table.count-insert (usable user_id) row db.recovery_codes,
      eq_refl user_id,
    )

abbrev off : Stamp → UserRow → UserRow
off now u = record u {
  totp_secret = none;
  totp_pending = none;
  totp_last_counter_plus_one = 0;
  updated_at = now;
}

-- After a second factor has been disabled, no code is accepted for its user, at any instant: the
-- factor is unavailable.
pub verify_second_factor-disable_totp :
    (p : Primitives) (draw : Draw) (now : Stamp) (user_id : String) (code : Text) (db db' : Db)
    → disable_totp draw user_id db ≡ ok db'
    → verify_second_factor p now user_id code db' ≡ err factor_unavailable
unfolding disable_totp verify_second_factor insert_audit
verify_second_factor-disable_totp p draw now user_id code db db' h =
    let users : db'.users ≡ Table.update (has_factor user_id) (off draw.now) db.users =
      ground (arith, h) in
    let moved =
      Table.first-update (by_id user_id) (has_factor user_id) (off draw.now) db.users
        (λ u k. refl) in
    elim (Option-cases (Table.first (by_id user_id) db.users)) [
      | inl e ↦ ground (arith, users, e, moved)
      | inr (row, e) ↦ (elim (Option-cases row.totp_secret) [
        | inl f ↦ ground (arith, users, e, f, moved)
        | inr (sealed, f) ↦
            ground (arith, users, e, f, moved, Table.first-holds (by_id user_id) db.users row e)
      ])
    ]

length-map {ℓ κ} :
    {A : Type ℓ} {B : Type κ} (f : A → B) (xs : List A) → length (map f xs) ≡ length xs
length-map f [] = refl
length-map f (x ∷ xs) = ground (arith, length-map f xs)

abbrev on : Stamp → UserRow → UserRow
on now u = record u {
  totp_secret = u.totp_pending;
  totp_pending = none;
  totp_last_counter_plus_one = 0;
  updated_at = now;
}

-- The database at the first of the insertions.
abbrev switched_on : Draw → String → Db → Db
switched_on draw user_id db = record db {
  users = Table.update (by_id user_id) (on draw.now) db.users;
  recovery_codes = Table.delete (λ (r : RecoveryCode). r.user_id =? user_id) db.recovery_codes;
}

abbrev hashes_of : Primitives → Draw → List String
hashes_of p draw = map (λ c. p.code_mac (normalize_code p c)) (map dashed draw.recovery)

confirm_totp_enrollment-inserted :
    (p : Primitives) (draw : Draw) (user_id : String) (code : Text) (db db' : Db)
    (codes : List Text)
    → confirm_totp_enrollment p draw user_id code db ≡ ok (codes, db')
    → (db1 : Db) × (insert_recovery_codes draw.now user_id
          (hashes_of p draw)
          (switched_on draw user_id db)
        ≡ ok db1)
      × (db'.recovery_codes ≡ db1.recovery_codes)
      × (codes ≡ map dashed draw.recovery)
unfolding confirm_totp_enrollment insert_audit
confirm_totp_enrollment-inserted p draw user_id code db db' codes h =
    elim (Option-cases (Table.first (by_id user_id) db.users)) [
      | inl e ↦ absurd (ground (arith, h))
      | inr (row, e) ↦ (elim (Option-cases row.totp_pending) [
        | inl f ↦ absurd (ground (arith, h, e))
        | inr (sealed, f) ↦ (elim (Result-cases (decrypt p sealed)) [
          | inr (x, g) ↦ absurd (ground (arith, h, e, f))
          | inl (secret, g) ↦
              (elim (Result-cases (
                insert_recovery_codes draw.now user_id (hashes_of p draw)
                  (switched_on draw user_id db))) [
                    | inr (x, k) ↦ absurd (ground (arith, h, e, f, g, k))
                    | inl (db1, k) ↦
                        (db1, k, ground (arith, h, e, f, g, k), ground (arith, h, e, f, g, k))
                  ])
        ])
      ])
    ]

-- Groups of four, with a dash after each that another follows.
unfoldable pub four_groups : Text → Text
four_groups (a ∷ (b ∷ (c ∷ (d ∷ (e ∷ rest))))) =
    a ∷ (b ∷ (c ∷ (d ∷ (b'-' ∷ four_groups (e ∷ rest)))))
four_groups short = short

dashed-four_groups : (raw : Text) → dashed raw ≡ four_groups raw
unfolding four_groups
dashed-four_groups (a ∷ (b ∷ (c ∷ (d ∷ (e ∷ rest))))) =
    ap (λ more. a ∷ (b ∷ (c ∷ (d ∷ (b'-' ∷ more))))) (dashed-four_groups (e ∷ rest))
dashed-four_groups [] = refl
dashed-four_groups (a ∷ []) = refl
dashed-four_groups (a ∷ (b ∷ [])) = refl
dashed-four_groups (a ∷ (b ∷ (c ∷ []))) = refl
dashed-four_groups (a ∷ (b ∷ (c ∷ (d ∷ [])))) = refl

map-dashed : (drawn : List Text) → map dashed drawn ≡ map four_groups drawn
map-dashed [] = refl
map-dashed (raw ∷ drawn) =
    rw (dashed-four_groups raw) (ap (λ x. four_groups raw ∷ x) (map-dashed drawn))

-- The row of a code that has not been used.
abbrev pub code_row : Stamp → String → String → RecoveryCode
code_row now user_id hash = record {
  user_id = user_id;
  code_hash = hash;
  created_at = now;
  used_at = none;
}

insert_recovery_codes-rows :
    (now : Stamp) (user_id : String) (hashes : List String) (db db' : Db)
    → insert_recovery_codes now user_id hashes db ≡ ok db'
    → db'.recovery_codes ≡ db.recovery_codes ++ map (code_row now user_id) hashes
unfolding insert_recovery_codes Table.insert
insert_recovery_codes-rows now user_id [] db db' h =
    let same : db'.recovery_codes ≡ db.recovery_codes = ground (arith, h) in
    same ∙ sym (append-nil db.recovery_codes)
insert_recovery_codes-rows now user_id (hash ∷ hashes) db db' h =
    let row : RecoveryCode = code_row now user_id hash in
    let db1 : Db = record db { recovery_codes = Table.insert row db.recovery_codes } in
    let rest : insert_recovery_codes now user_id hashes db1 ≡ ok db' = ground (arith, h) in
    insert_recovery_codes-rows now user_id hashes db1 db' rest
    ∙ append_assoc db.recovery_codes (row ∷ []) (map (code_row now user_id) hashes)

-- After a successful confirmation of an enrolment the codes returned are the drawn ones in groups
-- of four that dashes separate; the former recovery codes of the user are gone, and for each code
-- returned, in its order, there is a row of the user, not used, that holds the hash of the
-- normalized code; and the user has exactly as many recovery codes that are not used.
pub confirm_totp_enrollment-usable :
    (p : Primitives) (draw : Draw) (user_id : String) (code : Text) (db db' : Db)
    (codes : List Text)
    → confirm_totp_enrollment p draw user_id code db ≡ ok (codes, db')
    → (codes ≡ map four_groups draw.recovery)
      × (db'.recovery_codes
          ≡ Table.delete (λ (r : RecoveryCode). r.user_id =? user_id) db.recovery_codes
            ++ map (code_row draw.now user_id) (map (λ c. p.code_mac (normalize_code p c)) codes))
      × (Table.count (usable user_id) db'.recovery_codes ≡ length codes)
confirm_totp_enrollment-usable p draw user_id code db db' codes h =
    let (db1, done, rows, given) =
      confirm_totp_enrollment-inserted p draw user_id code db db' codes h in
    (
      given ∙ map-dashed draw.recovery,
      rows
          ∙ insert_recovery_codes-rows draw.now user_id (hashes_of p draw)
              (switched_on draw user_id db) db1 done
          ∙ ap
              (λ list.
                Table.delete (λ (r : RecoveryCode). r.user_id =? user_id) db.recovery_codes
                ++ map (code_row draw.now user_id)
                    (map (λ c. p.code_mac (normalize_code p c)) list))
              (sym given),
      rw rows (
          ground (
            arith,
            given,
            insert_recovery_codes-usable draw.now user_id (hashes_of p draw)
                (switched_on draw user_id db) db1 done,
            Rows.count-delete (usable user_id) (λ (r : RecoveryCode). r.user_id =? user_id)
                db.recovery_codes (λ r k. ground (arith, k)),
            length-map (λ c. p.code_mac (normalize_code p c)) (map dashed draw.recovery),
          )),
    )
