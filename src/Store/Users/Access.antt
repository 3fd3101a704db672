-- ===== src/Store/Users/Access.antt =====
-- The operations on accounts of internal/store/store.go.
use wpx.Prelude.{
  ℕ, String, Bool, true, false, not, ◌&&◌, ◌||◌, Option, none, some, List, [], ◌==◌, ◌=?◌,
  if◌then◌else◌, Result, ok, err, guard, require, ◌>>=◌, ◌>>◌, map,
}
use wpx.Prelude.Table
use wpx.Text.{Text, ◌=ᵗ◌, length}
use wpx.Stamp.{Stamp}
use wpx.Rbac.{
  Role, owner, collaborator, customer, Capability, manage_all_sites, is_owner, is_administrator,
  valid_role, allows, capabilities, capability_eq,
}
use wpx.Store.Rows.{
  Db, UserRow, TokenRow, Grant, Error, permission_denied, hashing_failed, owner_exists,
  username_taken, invalid_role, second_administrator, user_missing, own_account, owner_protected,
  administrator_protected, invalid_credentials,
}
use wpx.Store.Statements.{fold_rune, insert_user, insert_audit}
use wpx.Store.Users.Username.{normalize_username, validate_credentials, validate_password}
use wpx.Store.Users.Grants.{unique_strings, check_sites, grant_sites, assign_sites}

-- `User`, as the operations return it and as the caller's identity. `SiteIDs` is filled by the
-- listing only.
pub record User : Type 0 where
  pub id : String
  pub username : Text
  pub role : Role
  pub disabled : Bool
  pub totp_enabled : Bool
  pub site_count : ℕ

-- golang.org/x/crypto/bcrypt: `GenerateFromPassword`, which may fail, and
-- `CompareHashAndPassword`.
pub record Bcrypt : Type 0 where
  pub generate : List ℕ → Option String
  pub compare : String → List ℕ → Bool

-- What an operation draws from the clock and the random source.
pub record Draw : Type 0 where
  pub now : Stamp
  pub id : String
  pub audit_id : String

abbrev pub is_some {ℓ} : {A : Type ℓ} → Option A → Bool
is_some none = false
is_some (some a) = true

-- The columns that make a `User`.
abbrev pub user_of : UserRow → User
user_of row = record {
  id = row.id;
  username = row.username;
  role = row.role;
  disabled = row.disabled;
  totp_enabled = is_some row.totp_secret;
  site_count = 0;
}

-- An audit event of an actor about a user.
abbrev audit_user : Draw → String → String → String → Db → Result Error Db
audit_user draw actor_id action user_id = insert_audit (record {
  id = draw.audit_id;
  actor_id = some actor_id;
  action = action;
  target_type = "user";
  target_id = user_id;
  success = true;
  created_at = draw.now;
})

abbrev pub new_row : Draw → Text → String → Role → UserRow
new_row draw username hash role = record {
  id = draw.id;
  username = username;
  password_hash = hash;
  role = role;
  disabled = false;
  totp_secret = none;
  totp_pending = none;
  totp_last_counter_plus_one = 0;
  created_at = draw.now;
  updated_at = draw.now;
}

-- username=? COLLATE NOCASE
unfoldable pub nocase_eq : Text → Text → Bool
nocase_eq s t = map fold_rune s =ᵗ map fold_rune t

-- The row that a statement with `WHERE id=?` meets.
abbrev pub by_id : String → UserRow → Bool
by_id id row = row.id =? id

abbrev pub manages_users : User → Bool
manages_users actor = is_owner actor.role || is_administrator actor.role

unfoldable pub create_owner : Bcrypt → Draw → Text → List ℕ → Db → Result Error (User × Db)
create_owner bcrypt draw name password db = do
  username ← normalize_username name
  validate_credentials username password
  hash ← require (bcrypt.generate password) hashing_failed
  guard (Table.count (λ (u : UserRow). is_owner u.role) db.users == 0) owner_exists
  guard (Table.count (λ (u : UserRow). nocase_eq u.username username) db.users == 0) username_taken
  db1 ← insert_user (new_row draw username hash owner) db
  db2 ← audit_user draw draw.id "owner.created" draw.id db1
  ok (user_of (new_row draw username hash owner), db2)

-- Only collaborators and customers are assigned sites.
abbrev pub is_scoped : Role → Bool
is_scoped collaborator = true
is_scoped customer = true
is_scoped _ = false

unfoldable pub create_user :
    Bcrypt → Draw → User → Text → List ℕ → Role → List String → Db → Result Error (User × Db)
create_user bcrypt draw actor name password role site_ids db = do
  username ← normalize_username name
  validate_credentials username password
  guard (not (not (valid_role role) || is_owner role)) invalid_role
  guard (not (is_administrator actor.role && is_administrator role)) second_administrator
  guard (manages_users actor) permission_denied
  hash ← require (bcrypt.generate password) hashing_failed
  guard (Table.count (λ (u : UserRow). nocase_eq u.username username) db.users == 0) username_taken
  db1 ← insert_user (new_row draw username hash role) db
  let assigned = if is_scoped role then unique_strings site_ids else []
  db2 ← assign_sites draw.id (capabilities role) assigned db1
  db3 ← audit_user draw actor.id "user.created" draw.id db2
  ok (record (user_of (new_row draw username hash role)) { site_count = length assigned }, db3)

abbrev pub access_row : Draw → Role → UserRow → UserRow
access_row draw role u = record u { role = role; updated_at = draw.now }

-- The UPDATE of the role, and the DELETE of the user's grants.
abbrev pub access_updated : Draw → String → Role → Db → Db
access_updated draw user_id role db = record db {
  users = Table.update (by_id user_id) (access_row draw role) db.users;
  grants = Table.delete (λ (g : Grant). g.user_id =? user_id) db.grants;
}

-- UPDATE users SET role=?; the guards leave no role that a constraint could refuse.
unfoldable pub update_user_access : Draw → User → String → Role → List String → Db → Result Error Db
update_user_access draw actor user_id role site_ids db = do
  guard (manages_users actor) permission_denied
  guard (not (not (valid_role role) || is_owner role)) invalid_role
  guard (not (actor.id =? user_id)) own_account
  target ← require (Table.first (by_id user_id) db.users) user_missing
  guard (not (is_owner target.role)) owner_protected
  guard
      (not (is_administrator actor.role && (is_administrator target.role || is_administrator role)))
      administrator_protected
  let assigned = if is_administrator role then [] else unique_strings site_ids
  check_sites assigned db
  db1 ← grant_sites user_id (capabilities role) assigned (access_updated draw user_id role db)
  audit_user draw actor.id "user.access_updated" user_id db1

abbrev pub of_user : String → TokenRow → Bool
of_user user_id row = row.user_id =? user_id

-- DELETE FROM sessions and login_challenges of a user
abbrev revoke_tokens : String → Db → Db
revoke_tokens user_id db = record db {
  sessions = Table.delete (of_user user_id) db.sessions;
  login_challenges = Table.delete (of_user user_id) db.login_challenges;
}

unfoldable pub set_user_disabled : Draw → User → String → Bool → Db → Result Error Db
set_user_disabled draw actor user_id disabled db = do
  guard (manages_users actor) permission_denied
  guard (not (actor.id =? user_id)) own_account
  target ← require (Table.first (by_id user_id) db.users) user_missing
  guard (not (is_owner target.role)) owner_protected
  guard (not (is_administrator actor.role && is_administrator target.role)) administrator_protected
  guard (Table.count (by_id user_id) db.users == 1) user_missing
  let db1 = record db {
    users =
        Table.update (by_id user_id) (λ u. record u { disabled = disabled; updated_at = draw.now })
          db.users;
  }
  let db2 = if disabled then revoke_tokens user_id db1 else db1
  audit_user draw actor.id (if disabled then "user.disabled" else "user.enabled") user_id db2

-- The caller learns nothing of why the credentials are refused.
unfoldable pub authenticate : Bcrypt → Text → List ℕ → Db → Result Error User
authenticate bcrypt name password db = elim (normalize_username name) [
  | err _ ↦ err invalid_credentials
  | ok username ↦ (do
    row ←
        require (Table.first (λ (u : UserRow). nocase_eq u.username username) db.users)
          invalid_credentials
    guard (not (row.disabled || not (bcrypt.compare row.password_hash password)))
        invalid_credentials
    ok (user_of row))
]

unfoldable pub change_username : Draw → User → String → Text → Db → Result Error (User × Db)
change_username draw actor user_id requested db = do
  username ← normalize_username requested
  target ← require (Table.first (by_id user_id) db.users) user_missing
  guard
      (actor.id =? user_id
        || (manages_users actor
            && not (
                is_owner target.role
                || (is_administrator actor.role && is_administrator target.role))))
      permission_denied
  if target.username =ᵗ username then ok (user_of target, db) else do
    guard
        (Table.count (λ (u : UserRow). nocase_eq u.username username && not (u.id =? user_id))
            db.users
          == 0)
        username_taken
    let db1 = record db {
      users =
          Table.update (by_id user_id)
            (λ u. record u { username = username; updated_at = draw.now }) db.users;
    }
    db2 ← audit_user draw actor.id "user.username_changed" user_id db1
    ok (record (user_of target) { username = username }, db2)

-- An enabled row of the user.
abbrev pub is_active : String → UserRow → Bool
is_active user_id row = row.id =? user_id && not row.disabled

unfoldable pub change_password : Bcrypt → Draw → User → List ℕ → Db → Result Error Db
change_password bcrypt draw user password db = do
  validate_password password
  hash ← require (bcrypt.generate password) hashing_failed
  guard (Table.count (is_active user.id) db.users == 1) user_missing
  let db1 = record db {
    users =
        Table.update (is_active user.id)
          (λ u. record u { password_hash = hash; updated_at = draw.now }) db.users;
  }
  audit_user draw user.id "password.changed" user.id (revoke_tokens user.id db1)

-- COUNT(*) = 1 of the grants of a user for a site and a capability, or the right to all sites.
unfoldable pub user_can_site : User → String → Capability → Db → Bool
user_can_site user site_id capability db =
    allows user.role capability
    && (allows user.role manage_all_sites
        || Table.count
            (λ (g : Grant).
              g.user_id =? user.id && g.site_id =? site_id && capability_eq g.capability capability)
            db.grants
          == 1)
