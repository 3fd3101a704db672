-- ===== src/Store/Users/Integrity/Kept.antt =====
-- The operations on accounts of internal/store/store.go and the invariant of the accounts.
use wpx.Prelude.{
  ℕ, ◌≤◌, String, Bool, false, ◌≡◌, ok, arith, refl, List, ◌=?◌, ◌&&◌, not, inl, inr, [],
  Bool-cases, Option-cases, Result-cases, if◌then◌else◌, ◌∙◌, ap, >>=-eq-ok, require,
}
use wpx.Prelude.Table
use wpx.Prelude.Table.Rows
use wpx.Text.{Text, ◌=ᵗ◌}
use wpx.Rbac.{Role, owner, is_owner, is_administrator, capabilities}
use wpx.Stamp.{Stamp}
use wpx.Store.Rows.{Db, UserRow, hashing_failed}
use wpx.Store.Statements.{insert_audit, insert_user}
use wpx.Store.Users.Username.{normalize_username, validate_credentials, validate_password}
use wpx.Store.Users.Grants.{unique_strings, check_sites, grant_sites, assign_sites}
use wpx.Store.Users.Access.{
  User, Draw, Bcrypt, by_id, nocase_eq, is_scoped, is_active, access_row, access_updated, new_row,
  create_owner, create_user, update_user_access, set_user_disabled, change_username,
  change_password,
}
use wpx.Store.Users.Integrity.{
  AccountsValid, named, nocase_eq_trans, grant_sites-users, assign_sites-users,
  insert-AccountsValid, update-AccountsValid,
}

-- The first owner is created under a free name.
pub create_owner-AccountsValid :
    (bcrypt : Bcrypt) (draw : Draw) (name : Text) (password : List ℕ) (db db' : Db) (u : User)
    → create_owner bcrypt draw name password db ≡ ok (u, db')
    → AccountsValid db.users
    → AccountsValid db'.users
unfolding create_owner insert_user insert_audit
create_owner-AccountsValid bcrypt draw name password db db' u h v =
    let (username, _, h1) = >>=-eq-ok (normalize_username name) _ h in
    let (_, _, h2) = >>=-eq-ok (validate_credentials username password) _ h1 in
    let (hash, _, h3) = >>=-eq-ok (require (bcrypt.generate password) hashing_failed) _ h2 in
    let e : db'.users ≡ Table.insert (new_row draw username hash owner) db.users = ground arith in
    rw e (
      insert-AccountsValid (new_row draw username hash owner) db.users (ground arith) (ground arith)
        (ground arith) v)

pub create_user-AccountsValid :
    (bcrypt : Bcrypt) (draw : Draw) (actor : User) (name : Text) (password : List ℕ) (role : Role)
    (site_ids : List String) (db db' : Db) (u : User)
    → create_user bcrypt draw actor name password role site_ids db ≡ ok (u, db')
    → AccountsValid db.users
    → AccountsValid db'.users
unfolding create_user insert_user insert_audit
create_user-AccountsValid bcrypt draw actor name password role site_ids db db' u h v =
    let (username, _, h1) = >>=-eq-ok (normalize_username name) _ h in
    let (_, _, h2) = >>=-eq-ok (validate_credentials username password) _ h1 in
    elim (Option-cases (bcrypt.generate password)) [
      | inl e ↦ absurd (ground arith)
      | inr (hash, e) ↦
          let row = new_row draw username hash role in
          let db1 : Db = record db { users = Table.insert row db.users } in
          let assigned = if is_scoped role then unique_strings site_ids else [] in
          elim (Result-cases (assign_sites draw.id (capabilities role) assigned db1)) [
            | inr (x, failed) ↦ absurd (ground arith)
            | inl (db2, done) ↦
                let same : db2.users ≡ Table.insert row db.users =
                  assign_sites-users draw.id (capabilities role) assigned db1 db2 done in
                let last : db'.users ≡ db2.users = ground arith in
                rw (last ∙ same)
                  (insert-AccountsValid row db.users (ground arith) (ground arith) (ground arith) v)
          ]
    ]

pub update_user_access-AccountsValid :
    (draw : Draw) (actor : User) (user_id : String) (role : Role) (site_ids : List String)
    (db db' : Db)
    → update_user_access draw actor user_id role site_ids db ≡ ok db'
    → AccountsValid db.users
    → AccountsValid db'.users
unfolding update_user_access insert_audit
update_user_access-AccountsValid draw actor user_id role site_ids db db' h v =
    elim (Option-cases (Table.first (by_id user_id) db.users)) [
      | inl e ↦ absurd (ground arith)
      | inr (target, e) ↦
          let assigned = if is_administrator role then [] else unique_strings site_ids in
          let db1 = access_updated draw user_id role db in
          elim (Result-cases (grant_sites user_id (capabilities role) assigned db1)) [
            | inr (x, failed) ↦ absurd (ground (arith, Result-cases (check_sites assigned db)))
            | inl (db2, done) ↦
                let same : db2.users ≡ db1.users =
                  grant_sites-users user_id (capabilities role) assigned db1 db2 done in
                let last : db'.users ≡ db2.users =
                  ground (arith, Result-cases (check_sites assigned db)) in
                let demoted : is_owner role ≡ false = ground arith in
                rw (last ∙ same) (
                  update-AccountsValid (by_id user_id) (access_row draw role) db.users (λ u. refl)
                    (λ u. refl) (λ u q k. cc) v)
          ]
    ]

pub set_user_disabled-AccountsValid :
    (draw : Draw) (actor : User) (user_id : String) (disabled : Bool) (db db' : Db)
    → set_user_disabled draw actor user_id disabled db ≡ ok db'
    → AccountsValid db.users
    → AccountsValid db'.users
unfolding set_user_disabled insert_audit
set_user_disabled-AccountsValid draw actor user_id disabled db db' h v =
    let f = λ (u : UserRow). record u { disabled = disabled; updated_at = draw.now } in
    let e : db'.users ≡ Table.update (by_id user_id) f db.users = ground arith in
    rw e (update-AccountsValid (by_id user_id) f db.users (λ u. refl) (λ u. refl) (λ u q k. k) v)

pub change_password-AccountsValid :
    (bcrypt : Bcrypt) (draw : Draw) (user : User) (password : List ℕ) (db db' : Db)
    → change_password bcrypt draw user password db ≡ ok db'
    → AccountsValid db.users
    → AccountsValid db'.users
unfolding change_password insert_audit
change_password-AccountsValid bcrypt draw user password db db' h v =
    elim (Option-cases (bcrypt.generate password)) [
      | inl e ↦ absurd (ground (arith, Result-cases (validate_password password)))
      | inr (hash, e) ↦
          let f = λ (u : UserRow). record u { password_hash = hash; updated_at = draw.now } in
          let same : db'.users ≡ Table.update (is_active user.id) f db.users =
            ground (arith, Result-cases (validate_password password)) in
          rw same (
            update-AccountsValid (is_active user.id) f db.users (λ u. refl) (λ u. refl) (λ u q k. k)
              v)
    ]

-- A row of another user may not have the new name.
renamed :
    (user_id : String) (name other : Text) (now : Stamp) (users : List UserRow)
    → Table.count (λ (u : UserRow). named name u && not (u.id =? user_id)) users ≡ 0
    → AccountsValid users
    → Table.count
        (named other)
        (Table.update (by_id user_id) (λ u. record u { username = name; updated_at = now }) users)
      ≤ 1
renamed user_id name other now users free v =
    let f = λ (u : UserRow). record u { username = name; updated_at = now } in
    elim (Bool-cases (nocase_eq name other)) [
      | inl e ↦
          let outside = λ (t : Text) (u : UserRow). named t u && not (u.id =? user_id) in
          let congr : Table.count (outside other) users ≡ Table.count (outside name) users =
            Rows.count-congr (outside other) (outside name) users (λ u.
              ap (λ (b : Bool). b && not (u.id =? user_id))
                (nocase_eq_trans u.username name other e)) in
          omega (
            arith,
            Rows.count-update-split (named other) (by_id user_id) f users,
            congr,
            v.unique_ids user_id,
          )
      | inr e ↦ omega (
        arith,
        Table.count-update-le (named other) (by_id user_id) f users (λ u q k. cc),
        v.unique_names other,
      )
    ]

pub change_username-AccountsValid :
    (draw : Draw) (actor : User) (user_id : String) (requested : Text) (db db' : Db) (u : User)
    → change_username draw actor user_id requested db ≡ ok (u, db')
    → AccountsValid db.users
    → AccountsValid db'.users
unfolding change_username insert_audit
change_username-AccountsValid draw actor user_id requested db db' u h v =
    let (name, _, h1) = >>=-eq-ok (normalize_username requested) _ h in
    elim (Option-cases (Table.first (by_id user_id) db.users)) [
      | inl e ↦ absurd (ground arith)
      | inr (target, e) ↦ elim (Bool-cases (target.username =ᵗ name)) [
        | inl same ↦ let kept : db'.users ≡ db.users = ground arith in rw kept v
        | inr changed ↦
            let f = λ (u : UserRow). record u { username = name; updated_at = draw.now } in
            let last : db'.users ≡ Table.update (by_id user_id) f db.users = ground arith in
            let free : Table.count (λ (u : UserRow). named name u && not (u.id =? user_id)) db.users
                ≡ 0 =
              ground arith in
            rw last (record {
              unique_ids = λ id.
                  rw (Table.count-update (by_id id) (by_id user_id) f db.users (λ u _. refl))
                    (v.unique_ids id);
              unique_names = λ other. renamed user_id name other draw.now db.users free v;
              one_owner = omega (
                arith,
                v.one_owner,
                Table.count-update-le (λ (u : UserRow). is_owner u.role) (by_id user_id) f db.users
                    (λ u q k. k),
              );
            })
      ]
    ]
