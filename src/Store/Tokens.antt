-- ===== src/Store/Tokens.antt =====
-- Browser sessions and login challenges: `CreateSession`, `ResolveSession` and `DeleteSession` of
-- internal/store/store.go, and the challenges of internal/store/totp.go. The token is drawn by the
-- caller's random source, and only its SHA-256 digest is stored: the digest is an argument.
pub mod Expiry
pub mod Revocation
use wpx.Prelude.{
  ℕ, ◌+◌, ◌*◌, ◌^◌, String, Bool, not, ◌&&◌, ◌||◌, Option, none, some, List, ◌=?◌, if◌then◌else◌,
  Result, ok, err, guard, require, ◌>>=◌, ◌>>◌, ltb,
}
use wpx.Prelude.Table
use wpx.Stamp.{Stamp, add, before}
use wpx.Store.Rows.{
  Db, UserRow, TokenRow, Error, constraint, invalid_lifetime, invalid_session, invalid_challenge,
}
use wpx.Store.Statements.{has_user}
use wpx.Store.Users.Access.{User, user_of, by_id, is_some}

-- 24 * time.Hour, in nanoseconds
abbrev pub max_session : ℕ
max_session = 24 * 3600 * 10 ^ 9

-- 5 * time.Minute
abbrev pub challenge_lifetime : ℕ
challenge_lifetime = 5 * 60 * 10 ^ 9

abbrev pub has_hash : String → TokenRow → Bool
has_hash hash row = row.token_hash =? hash

abbrev token_row : Stamp → ℕ → String → String → TokenRow
token_row now ttl hash user_id = record {
  token_hash = hash;
  user_id = user_id;
  created_at = now;
  expires_at = add now ttl;
}

-- A lifetime that is not positive is 0 here.
unfoldable pub create_session :
    (String → String) → Stamp → String → String → ℕ → Db → Result Error Db
create_session digest now token user_id ttl db = do
  guard (not (not (ltb 0 ttl) || ltb max_session ttl)) invalid_lifetime
  guard (not (Table.any (has_hash (digest token)) db.sessions)) constraint
  guard (has_user user_id db) constraint
  ok (record db { sessions = Table.insert (token_row now ttl (digest token) user_id) db.sessions })

-- The row of a token and the row of its user: the JOIN of the two queries.
unfoldable pub token_user : String → List TokenRow → Db → Option (TokenRow × UserRow)
token_user hash rows db = elim (Table.first (has_hash hash) rows) [
  | none ↦ none
  | some row ↦ (elim (Table.first (by_id row.user_id) db.users) [
    | none ↦ none
    | some user ↦ some (row, user)
  ])
]

-- An expired session is deleted on the way to the error, outside any transaction.
unfoldable pub resolve_session : (String → String) → Stamp → String → Db → Result Error User × Db
unfolding token_user
resolve_session digest now token db = elim (token_user (digest token) db.sessions db) [
  | none ↦ (err invalid_session, db)
  | some (row, user) ↦
      if user.disabled
      then (err invalid_session, db)
      else if not (before now row.expires_at)
      then (
        err invalid_session,
        record db { sessions = Table.delete (has_hash (digest token)) db.sessions },
      )
      else (ok (user_of user), db)
]

unfoldable pub delete_session : (String → String) → String → Db → Db
delete_session digest token db = record db {
  sessions = Table.delete (has_hash (digest token)) db.sessions;
}

unfoldable pub create_login_challenge :
    (String → String) → Stamp → String → String → Db → Result Error Db
create_login_challenge digest now token user_id db = do
  guard (not (Table.any (has_hash (digest token)) db.login_challenges)) constraint
  guard (has_user user_id db) constraint
  ok (record db {
    login_challenges =
        Table.insert (token_row now challenge_lifetime (digest token) user_id) db.login_challenges;
  })

-- A challenge holds only for an enabled user with a second factor.
unfoldable pub resolve_login_challenge :
    (String → String) → Stamp → String → Db → Result Error User × Db
unfolding token_user
resolve_login_challenge digest now token db =
    elim (token_user (digest token) db.login_challenges db) [
      | none ↦ (err invalid_challenge, db)
      | some (row, user) ↦
          if user.disabled || not (is_some user.totp_secret)
          then (err invalid_challenge, db)
          else if not (before now row.expires_at)
          then (
            err invalid_challenge,
            record db {
              login_challenges = Table.delete (has_hash (digest token)) db.login_challenges;
            },
          )
          else (ok (user_of user), db)
    ]

unfoldable pub delete_login_challenge : (String → String) → String → Db → Db
delete_login_challenge digest token db = record db {
  login_challenges = Table.delete (has_hash (digest token)) db.login_challenges;
}
