-- ===== src/Store/Tokens/Revocation.antt =====
-- `SetUserDisabled` and `ChangePassword` of internal/store/store.go and the tokens that they revoke.
use wpx.Prelude.{
  ℕ, String, true, false, ◌≡◌, ◌≢◌, ok, some, arith, eq_iff, eq_refl, List, inl, inr, Option-cases,
}
use wpx.Prelude.Table
use wpx.Stamp.{Stamp}
use wpx.Store.Rows.{Db, UserRow, TokenRow}
use wpx.Store.Users.Access.{User, Draw, Bcrypt, by_id, of_user, set_user_disabled, change_password}
use wpx.Store.Statements.{insert_audit}
use wpx.Store.Tokens.{resolve_session, resolve_login_challenge, token_user, has_hash}

-- The user of a token has a row among the tokens.
token_user-of_user :
    (hash : String) (rows : List TokenRow) (db : Db) (row : TokenRow) (user : UserRow)
    → token_user hash rows db ≡ some (row, user)
    → Table.any (of_user user.id) rows ≡ true
unfolding token_user
token_user-of_user hash rows db row user h =
    elim (Option-cases (Table.first (has_hash hash) rows)) [
      | inl e ↦ ground arith
      | inr (r, e) ↦ elim (Option-cases (Table.first (by_id r.user_id) db.users)) [
        | inl f ↦ ground arith
        | inr (u, f) ↦ ground (
          arith,
          Table.first-holds (by_id r.user_id) db.users u,
          Table.first-meets (has_hash hash) (of_user user.id) rows r,
          eq_iff u.id r.user_id,
          eq_refl u.id,
        )
      ]
    ]

-- Without a row of the user, no token resolves to the user.
resolve_session-ne :
    (digest : String → String) (now : Stamp) (token user_id : String) (db : Db) (u : User)
    → Table.any (of_user user_id) db.sessions ≡ false
    → (resolve_session digest now token db).0 ≡ ok u
    → u.id ≢ user_id
unfolding resolve_session
resolve_session-ne digest now token user_id db u a h =
    elim (Option-cases (token_user (digest token) db.sessions db)) [
      | inl e ↦ ground arith
      | inr ((row, user), e) ↦
          ground (arith, token_user-of_user (digest token) db.sessions db row user)
    ]

resolve_login_challenge-ne :
    (digest : String → String) (now : Stamp) (token user_id : String) (db : Db) (u : User)
    → Table.any (of_user user_id) db.login_challenges ≡ false
    → (resolve_login_challenge digest now token db).0 ≡ ok u
    → u.id ≢ user_id
unfolding resolve_login_challenge
resolve_login_challenge-ne digest now token user_id db u a h =
    elim (Option-cases (token_user (digest token) db.login_challenges db)) [
      | inl e ↦ ground arith
      | inr ((row, user), e) ↦
          ground (arith, token_user-of_user (digest token) db.login_challenges db row user)
    ]

-- No token, of a session or of a login challenge, resolves to the user.
abbrev pub IsSignedOut : String → Db → Type 0
IsSignedOut user_id db =
    (digest : String → String) (now : Stamp) (token : String) (u : User)
    → ((resolve_session digest now token db).0 ≡ ok u → u.id ≢ user_id)
      × ((resolve_login_challenge digest now token db).0 ≡ ok u → u.id ≢ user_id)

signed_out :
    (user_id : String) (db : Db)
    → Table.any (of_user user_id) db.sessions ≡ false
    → Table.any (of_user user_id) db.login_challenges ≡ false
    → IsSignedOut user_id db
signed_out user_id db a b digest now token u = (
  resolve_session-ne digest now token user_id db u a,
  resolve_login_challenge-ne digest now token user_id db u b,
)

-- Once an account has been disabled, no token of a session or of a login challenge resolves to it,
-- at any instant.
pub set_user_disabled-IsSignedOut :
    (draw : Draw) (actor : User) (user_id : String) (db db' : Db)
    → set_user_disabled draw actor user_id true db ≡ ok db'
    → IsSignedOut user_id db'
unfolding set_user_disabled insert_audit
set_user_disabled-IsSignedOut draw actor user_id db db' h =
    signed_out user_id db'
      (ground (arith, Table.any-delete (of_user user_id) (of_user user_id) db.sessions (λ x k. k)))
      (ground (
        arith,
        Table.any-delete (of_user user_id) (of_user user_id) db.login_challenges (λ x k. k),
      ))

-- Once a user's password has been changed, no token of a session or of a login challenge resolves
-- to the user, at any instant.
pub change_password-IsSignedOut :
    (bcrypt : Bcrypt) (draw : Draw) (user : User) (password : List ℕ) (db db' : Db)
    → change_password bcrypt draw user password db ≡ ok db'
    → IsSignedOut user.id db'
unfolding change_password insert_audit
change_password-IsSignedOut bcrypt draw user password db db' h =
    signed_out user.id db'
      (ground (arith, Table.any-delete (of_user user.id) (of_user user.id) db.sessions (λ x k. k)))
      (ground (
        arith,
        Table.any-delete (of_user user.id) (of_user user.id) db.login_challenges (λ x k. k),
      ))
