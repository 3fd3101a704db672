-- ===== src/Store/Users/Authority.antt =====
-- The operations of internal/store/store.go on accounts of others, by the role of the actor.
use wpx.Prelude.{
  ℕ, String, Bool, true, false, ◌≡◌, ok, arith, List, ◌||◌, ◌=?◌, ◌∙◌, [], inl, inr, >>=-eq-ok,
  Option-cases, Result-cases, Bool-cases, if◌then◌else◌,
}
use wpx.Prelude.Table
use wpx.Prelude.Table.Rows
use wpx.Text.{Text, ◌=ᵗ◌}
use wpx.Rbac.{Role, is_owner, is_administrator, capabilities}
use wpx.Store.Rows.{Db, UserRow}
use wpx.Store.Statements.{insert_user, insert_audit}
use wpx.Store.Users.Username.{normalize_username, validate_credentials}
use wpx.Store.Users.Grants.{unique_strings, check_sites, grant_sites, assign_sites}
use wpx.Store.Users.Access.{
  User, Draw, Bcrypt, by_id, new_row, is_scoped, access_row, access_updated, create_user,
  update_user_access, set_user_disabled, change_username,
}
use wpx.Store.Users.Integrity.{AccountsValid, grant_sites-users, assign_sites-users}

abbrev pub is_privileged : UserRow → Bool
is_privileged u = is_owner u.role || is_administrator u.role

-- The accounts of the owner and of the administrators, in full.
abbrev pub privileged : Db → List UserRow
privileged db = Table.select is_privileged db.users

module _ (draw : Draw) (actor : User) (db db' : Db) where
  -- An actor who is not the owner creates no owner and no administrator.
  pub privileged-create_user :
      (bcrypt : Bcrypt) (name : Text) (password : List ℕ) (role : Role) (site_ids : List String)
      (u : User)
      → create_user bcrypt draw actor name password role site_ids db ≡ ok (u, db')
      → is_owner actor.role ≡ false
      → privileged db' ≡ privileged db
  unfolding create_user insert_user insert_audit
  privileged-create_user bcrypt name password role site_ids u h o =
      let (username, _, h1) = >>=-eq-ok (normalize_username name) _ h in
      let (_, _, h2) = >>=-eq-ok (validate_credentials username password) _ h1 in
      elim (Option-cases (bcrypt.generate password)) [
        | inl e ↦ absurd (ground arith)
        | inr (hash, e) ↦
            let row = new_row draw username hash role in
            let db1 : Db = record db { users = Table.insert row db.users } in
            let assigned = if is_scoped role then unique_strings site_ids else [] in
            elim (Result-cases (assign_sites draw.id (capabilities role) assigned db1)) [
              | inr (x, failed) ↦ absurd (ground arith)
              | inl (db2, done) ↦
                  let same : db2.users ≡ Table.insert row db.users =
                    assign_sites-users draw.id (capabilities role) assigned db1 db2 done in
                  let last : db'.users ≡ db2.users = ground arith in
                  rw (last ∙ same) (Rows.select-insert is_privileged row db.users (ground arith))
            ]
      ]

  -- Nor does such an actor change the role of one, or make an account one.
  pub privileged-update_user_access :
      (user_id : String) (role : Role) (site_ids : List String)
      → update_user_access draw actor user_id role site_ids db ≡ ok db'
      → is_owner actor.role ≡ false
      → AccountsValid db.users
      → privileged db' ≡ privileged db
  unfolding update_user_access insert_audit
  privileged-update_user_access user_id role site_ids h o v =
      elim (Option-cases (Table.first (by_id user_id) db.users)) [
        | inl e ↦ absurd (ground arith)
        | inr (target, e) ↦
            let assigned = if is_administrator role then [] else unique_strings site_ids in
            let db1 = access_updated draw user_id role db in
            elim (Result-cases (grant_sites user_id (capabilities role) assigned db1)) [
              | inr (x, failed) ↦ absurd (ground (arith, Result-cases (check_sites assigned db)))
              | inl (db2, done) ↦
                  let same : db2.users ≡ db1.users =
                    grant_sites-users user_id (capabilities role) assigned db1 db2 done in
                  let last : db'.users ≡ db2.users =
                    ground (arith, Result-cases (check_sites assigned db)) in
                  rw (last ∙ same) (
                    Rows.select-update is_privileged (by_id user_id) (access_row draw role) db.users
                      target (v.unique_ids user_id) e (ground arith) (ground arith))
            ]
      ]

  -- Nor disables or enables one.
  pub privileged-set_user_disabled :
      (user_id : String) (disabled : Bool)
      → set_user_disabled draw actor user_id disabled db ≡ ok db'
      → is_owner actor.role ≡ false
      → AccountsValid db.users
      → privileged db' ≡ privileged db
  unfolding set_user_disabled insert_audit
  privileged-set_user_disabled user_id disabled h o v =
      elim (Option-cases (Table.first (by_id user_id) db.users)) [
        | inl e ↦ absurd (ground arith)
        | inr (target, e) ↦
            let f = λ (u : UserRow). record u { disabled = disabled; updated_at = draw.now } in
            let last : db'.users ≡ Table.update (by_id user_id) f db.users = ground arith in
            rw last (
              Rows.select-update is_privileged (by_id user_id) f db.users target
                (v.unique_ids user_id) e (ground arith) (ground arith))
      ]

  -- Nor renames one, its own account excepted.
  pub privileged-change_username :
      (user_id : String) (requested : Text) (u : User)
      → change_username draw actor user_id requested db ≡ ok (u, db')
      → is_owner actor.role ≡ false
      → (actor.id =? user_id) ≡ false
      → AccountsValid db.users
      → privileged db' ≡ privileged db
  unfolding change_username insert_audit
  privileged-change_username user_id requested u h o other v =
      let (name, _, h1) = >>=-eq-ok (normalize_username requested) _ h in
      elim (Option-cases (Table.first (by_id user_id) db.users)) [
        | inl e ↦ absurd (ground arith)
        | inr (target, e) ↦ elim (Bool-cases (target.username =ᵗ name)) [
          | inl same ↦ let kept : db'.users ≡ db.users = ground arith in rw kept
          | inr changed ↦
              let f = λ (u : UserRow). record u { username = name; updated_at = draw.now } in
              let last : db'.users ≡ Table.update (by_id user_id) f db.users = ground arith in
              rw last (
                Rows.select-update is_privileged (by_id user_id) f db.users target
                  (v.unique_ids user_id) e (ground arith) (ground arith))
        ]
      ]

-- A successful act of the actor upon the account of another.
pub data ActsOn (actor : User) (db db' : Db) : Type 0 where
  creates :
      (draw : Draw) (bcrypt : Bcrypt) (name : Text) (password : List ℕ) (role : Role)
      (site_ids : List String) (u : User)
      → create_user bcrypt draw actor name password role site_ids db ≡ ok (u, db')
      → ActsOn actor db db'
  assigns :
      (draw : Draw) (user_id : String) (role : Role) (site_ids : List String)
      → update_user_access draw actor user_id role site_ids db ≡ ok db'
      → ActsOn actor db db'
  disables :
      (draw : Draw) (user_id : String) (disabled : Bool)
      → set_user_disabled draw actor user_id disabled db ≡ ok db'
      → ActsOn actor db db'
  renames :
      (draw : Draw) (user_id : String) (requested : Text) (u : User)
      → (actor.id =? user_id) ≡ false
      → change_username draw actor user_id requested db ≡ ok (u, db')
      → ActsOn actor db db'

-- When the accounts are valid and the actor is not the owner, no successful creation of an account,
-- change of access, disabling, enabling or renaming of another account by that actor adds, removes
-- or changes any column of an account of the owner or of an administrator.
pub ActsOn-privileged :
    (actor : User) (db db' : Db)
    → is_owner actor.role ≡ false
    → AccountsValid db.users
    → ActsOn actor db db'
    → privileged db' ≡ privileged db
ActsOn-privileged actor db db' o v (creates draw b n p r s u h) =
    privileged-create_user draw actor db db' b n p r s u h o
ActsOn-privileged actor db db' o v (assigns draw i r s h) =
    privileged-update_user_access draw actor db db' i r s h o v
ActsOn-privileged actor db db' o v (disables draw i d h) =
    privileged-set_user_disabled draw actor db db' i d h o v
ActsOn-privileged actor db db' o v (renames draw i t u n h) =
    privileged-change_username draw actor db db' i t u h o n v

-- An actor whose creation, change of access, disabling, enabling or renaming of another account
-- succeeds is the owner or an administrator.
pub ActsOn-manager :
    (actor : User) (db db' : Db)
    → ActsOn actor db db'
    → (is_owner actor.role || is_administrator actor.role) ≡ true
unfolding create_user update_user_access set_user_disabled change_username
ActsOn-manager actor db db' (creates draw b n p r s u h) =
    let (username, _, h1) = >>=-eq-ok (normalize_username n) _ h in
    let (_, _, h2) = >>=-eq-ok (validate_credentials username p) _ h1 in ground arith
ActsOn-manager actor db db' (assigns draw i r s h) = ground arith
ActsOn-manager actor db db' (disables draw i d h) = ground arith
ActsOn-manager actor db db' (renames draw i t u n h) =
    let (name, _, h1) = >>=-eq-ok (normalize_username t) _ h in
    elim (Option-cases (Table.first (by_id i) db.users)) [
      | inl e ↦ absurd (ground arith)
      | inr (target, e) ↦ ground arith
    ]
