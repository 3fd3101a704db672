-- ===== src/Store/Tokens/Expiry.antt =====
-- Sessions over time: `CreateSession`, `ResolveSession` and `DeleteSession` of
-- internal/store/store.go.
use wpx.Prelude.{ℕ, ◌+◌, String, false, ◌≡◌, ok, err, some, arith, eq_refl, ltb, if◌then◌else◌}
use wpx.Prelude.Table
use wpx.Stamp.{Stamp, add, before, instant}
use wpx.Store.Rows.{Db, UserRow, invalid_session}
use wpx.Store.Users.Access.{user_of, by_id}
use wpx.Store.Tokens.{create_session, resolve_session, delete_session, has_hash, token_row}

instant-add : (t : Stamp) (d : ℕ) → instant (add t d) ≡ instant t + d
unfolding add
instant-add t d = omega arith

-- After a session has been created for a user whose row is found and enabled, its token resolves to
-- that user at every instant before the lifetime has passed, and is refused from then on.
pub resolve_session-create_session :
    (digest : String → String) (now later : Stamp) (token user_id : String) (ttl : ℕ) (db db' : Db)
    (user : UserRow)
    → create_session digest now token user_id ttl db ≡ ok db'
    → Table.first (by_id user_id) db.users ≡ some user
    → user.disabled ≡ false
    → (resolve_session digest later token db').0
      ≡ (if ltb (instant later) (instant now + ttl) then ok (user_of user) else err invalid_session)
unfolding create_session resolve_session before
resolve_session-create_session digest now later token user_id ttl db db' user h f e = ground (
  arith,
  Table.first-insert (has_hash (digest token)) (token_row now ttl (digest token) user_id)
      db.sessions,
  eq_refl (digest token),
  instant-add now ttl,
)

-- A deleted session resolves to no one, at any instant.
pub resolve_session-delete_session :
    (digest : String → String) (now : Stamp) (token : String) (db : Db)
    → (resolve_session digest now token (delete_session digest token db)).0 ≡ err invalid_session
unfolding resolve_session delete_session
resolve_session-delete_session digest now token db = ground (
  arith,
  Table.first-delete (has_hash (digest token)) (has_hash (digest token)) db.sessions (λ x h. h),
)
