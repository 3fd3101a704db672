-- ===== src/Tests/Tokens.antt =====
-- Runs of the sessions.
use wpx.Prelude.{ℕ, String, ◌+◌, ◌*◌, ◌^◌, ◌≡◌, refl, ok, err, true, [], ◌∷◌, ltb, if◌then◌else◌}
use wpx.Prelude.Table
use wpx.Text.{codes}
use wpx.Rbac.{owner, customer}
use wpx.Stamp.{instant}
use wpx.Store.Rows.{Db, TokenRow, invalid_session}
use wpx.Store.Users.Access.{User, user_of, set_user_disabled, change_password}
use wpx.Store.Tokens.{create_session, resolve_session}
use wpx.Store.Tokens.Expiry.{resolve_session-create_session}
use wpx.Store.Tokens.Revocation.{
  IsSignedOut, set_user_disabled-IsSignedOut, change_password-IsSignedOut,
}
use wpx.Tests.Data.{account, from_ok, second, start, draw_of, plain_bcrypt, password}

abbrev digest : String → String
digest s = s

abbrev served : Db
served = record start {
  users = account "u1" (codes "owner") owner ∷ account "u2" (codes "client") customer ∷ [];
}

abbrev hour : ℕ
hour = 3600 * 10 ^ 9

abbrev begun : Db
unfolding create_session
begun = from_ok (create_session digest (second 100) "token" "u2" hour served) start

begun-ok : create_session digest (second 100) "token" "u2" hour served ≡ ok begun
unfolding create_session Table.any
begun-ok = refl

resolve_session-create_session_example : (resolve_session digest (second 3699) "token" begun).0 ≡ (
    if ltb (instant (second 3699)) (instant (second 100) + hour)
    then ok (user_of (account "u2" (codes "client") customer))
    else err invalid_session)
unfolding Table.first
resolve_session-create_session_example =
    resolve_session-create_session digest (second 100) (second 3699) "token" "u2" hour served begun
      (account "u2" (codes "client") customer) begun-ok refl refl

abbrev token : TokenRow
token = record {
  token_hash = "token";
  user_id = "u2";
  created_at = second 100;
  expires_at = second 200;
}

abbrev signed_in : Db
signed_in = record served { sessions = token ∷ [] }

abbrev boss : User
boss = user_of (account "u1" (codes "owner") owner)

abbrev barred : Db
unfolding set_user_disabled
barred = from_ok (set_user_disabled (draw_of 150 "" "a1") boss "u2" true signed_in) start

barred-ok : set_user_disabled (draw_of 150 "" "a1") boss "u2" true signed_in ≡ ok barred
unfolding set_user_disabled Table.first Table.count wpx.Store.Statements.insert_audit Table.any
    Table.update
barred-ok = refl

set_user_disabled-IsSignedOut_example : IsSignedOut "u2" barred
set_user_disabled-IsSignedOut_example =
    set_user_disabled-IsSignedOut (draw_of 150 "" "a1") boss "u2" signed_in barred barred-ok

abbrev renewed : Db
unfolding change_password
renewed =
    from_ok
      (change_password plain_bcrypt (draw_of 150 "" "a1")
        (user_of (account "u2" (codes "client") customer)) password signed_in)
      start

renewed-ok :
    change_password plain_bcrypt
      (draw_of 150 "" "a1")
      (user_of (account "u2" (codes "client") customer))
      password
      signed_in
    ≡ ok renewed
unfolding change_password wpx.Store.Users.Username.validate_password Table.count
    wpx.Store.Statements.insert_audit Table.any Table.update
renewed-ok = refl

change_password-IsSignedOut_example : IsSignedOut "u2" renewed
change_password-IsSignedOut_example =
    change_password-IsSignedOut plain_bcrypt (draw_of 150 "" "a1")
      (user_of (account "u2" (codes "client") customer)) password signed_in renewed renewed-ok
