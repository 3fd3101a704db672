-- ===== src/Store/SecondFactor/Once.antt =====
-- `VerifySecondFactor` of internal/store/totp.go, one verification after another.
use wpx.Prelude.{
  ℕ, ◌<◌, ◌/◌, String, ◌≡◌, ◌⊎◌, inl, inr, ◌=?◌, some, List, [], ◌∷◌, arith, Option-cases,
  Bool-cases, Result-cases, ok, err, sym, ◌∙◌,
}
use wpx.Prelude.Table
use wpx.Prelude.Table.Rows
use wpx.Text.{Text}
use wpx.Stamp.{Stamp}
use wpx.Model.Site.{byte_length}
use wpx.Store.Rows.{Db, UserRow, invalid_second_factor}
use wpx.Store.Users.Access.{by_id}
use wpx.Store.SecondFactor.{
  Primitives, normalize_code, valid_totp_counter, unused_code, consume_recovery_code, counted_below,
  counted, verify_second_factor, decrypt,
}

-- A used recovery code is refused from then on.
consumed_twice :
    (p : Primitives) (now later : Stamp) (user_id : String) (code : Text) (db db' : Db)
    → consume_recovery_code p now user_id code db ≡ ok db'
    → consume_recovery_code p later user_id code db' ≡ err invalid_second_factor
unfolding consume_recovery_code
consumed_twice p now later user_id code db db' h =
    let unused = unused_code user_id (p.code_mac code) in
    ground (
      arith,
      h,
      Table.count-zero_any unused
          (Table.update unused (λ r. record r { used_at = some now }) db.recovery_codes)
          (Rows.any-update unused unused (λ r. record r { used_at = some now }) db.recovery_codes
            (λ x k. k) (λ x k. ground arith)),
    )

-- A code that an authenticator gives has six bytes, and is no recovery code.
counter-length :
    (p : Primitives) (secret code : Text) (now : Stamp) (c : ℕ)
    → valid_totp_counter p secret code now ≡ some c
    → byte_length code ≡ 6
unfolding valid_totp_counter
counter-length p secret code now c h = elim (Option-cases (p.decode_base32 (p.to_upper secret))) [
  | inl e ↦ absurd (ground (arith, h))
  | inr (key, e) ↦ ground (arith, h)
]

same_step :
    (p : Primitives) (secret code : Text) (now later : Stamp)
    → later.second / 30 ≡ now.second / 30
    → valid_totp_counter p secret code later ≡ valid_totp_counter p secret code now
unfolding valid_totp_counter
same_step p secret code now later h = ground (arith, h)

-- The row of the user after an accepted counter.
counted-row :
    (user_id : String) (counter : ℕ) (users : List UserRow) (row : UserRow)
    → Table.first (by_id user_id) users ≡ some row
    → row.totp_last_counter_plus_one < counter
    → Table.first (by_id user_id) (
        Table.update
          (counted_below user_id counter)
          (λ u. record u { totp_last_counter_plus_one = counter })
          users)
      ≡ some (record row { totp_last_counter_plus_one = counter })
unfolding Table.first Table.update
counted-row user_id counter [] row h lt = ground (arith, h)
counted-row user_id counter (u ∷ users) row h lt = elim (Bool-cases (u.id =? user_id)) [
  | inl e ↦
      let same : u ≡ row = ground (arith, e, h) in rw (sym same) (ground (arith, e, h, lt, same))
  | inr e ↦ ground (arith, e, h, lt, counted-row user_id counter users row)
]

consumed-rows :
    (p : Primitives) (now : Stamp) (user_id : String) (code : Text) (db db' : Db)
    → consume_recovery_code p now user_id code db ≡ ok db'
    → (byte_length code ≡ 16) × (db'.users ≡ db.users)
unfolding consume_recovery_code
consumed-rows p now user_id code db db' h = (ground (arith, h), ground (arith, h))

six-consume :
    (p : Primitives) (now : Stamp) (user_id : String) (code : Text) (db : Db)
    → byte_length code ≡ 6
    → consume_recovery_code p now user_id code db ≡ err invalid_second_factor
unfolding consume_recovery_code
six-consume p now user_id code db h = ground (arith, h)

-- A code that the second factor has accepted is refused when it is given again: at any instant if
-- it has the length of a recovery code, and otherwise within the same step of thirty seconds.
pub verify_second_factor_twice :
    (p : Primitives) (now later : Stamp) (user_id : String) (code : Text) (db db' : Db)
    → (byte_length (normalize_code p code) ≡ 16) ⊎ (later.second / 30 ≡ now.second / 30)
    → verify_second_factor p now user_id code db ≡ ok db'
    → verify_second_factor p later user_id code db' ≡ err invalid_second_factor
unfolding verify_second_factor
verify_second_factor_twice p now later user_id code db db' again h =
    elim (Option-cases (Table.first (by_id user_id) db.users)) [
      | inl e ↦ absurd (ground (arith, h))
      | inr (row, e) ↦ (elim (Option-cases row.totp_secret) [
        | inl f ↦ absurd (ground (arith, h, e))
        | inr (sealed, f) ↦ (elim (Result-cases (decrypt p sealed)) [
          | inr (x, g) ↦ absurd (ground (arith, h, e, f))
          | inl (secret, g) ↦
              let normal = normalize_code p code in
              (elim (Option-cases (valid_totp_counter p secret normal now)) [
                | inl k ↦
                    let consumed : consume_recovery_code p now user_id normal db ≡ ok db' =
                      ground (arith, h, e, f, g, k) in
                    let (long, users) = consumed-rows p now user_id normal db db' consumed in
                    let refused = consumed_twice p now later user_id normal db db' consumed in
                    (elim (Option-cases (valid_totp_counter p secret normal later)) [
                      | inl k2 ↦ ground (arith, e, f, g, k2, users, refused, h)
                      | inr (c, k2) ↦
                          absurd (ground (arith, long, counter-length p secret normal later c k2))
                    ])
                | inr (c, k) ↦
                    let short = counter-length p secret normal now c k in
                    let step : later.second / 30 ≡ now.second / 30 = ground (arith, again, short) in
                    let k2 : valid_totp_counter p secret normal later ≡ some c =
                      same_step p secret normal now later step ∙ k in
                    let later_code = six-consume p later user_id normal db' short in
                    let lt : row.totp_last_counter_plus_one < c =
                      ground (arith, h, e, f, g, k, six-consume p now user_id normal db short) in
                    let users : db' ≡ counted user_id c db = ground (
                      arith,
                      h,
                      e,
                      f,
                      g,
                      k,
                      lt,
                      six-consume p now user_id normal db short,
                      six-consume p now user_id normal (counted user_id c db) short,
                    ) in
                    let found : Table.first (by_id user_id) db'.users
                        ≡ some (record row { totp_last_counter_plus_one = c }) =
                      rw users (counted-row user_id c db.users row e lt) in
                    ground (arith, found, f, g, k2, later_code, h, e)
              ])
        ])
      ])
    ]
