-- ===== src/Store/Users/Integrity.antt =====
-- The invariant of the accounts of internal/store/store.go: identifiers and user names are unique, the
-- latter without regard to case, and there is at most one owner.
pub mod Kept
pub mod Steps
use wpx.Prelude.{
  ℕ, ◌+◌, ◌≤◌, String, Bool, true, false, ◌≡◌, ok, err, some, none, arith, refl, eq_iff, eq_refl,
  Result, Option, List, ◌=?◌, ◌==◌, map, ◌&&◌, not, inl, inr, [], Bool-cases, Option-cases,
  Result-cases, if◌then◌else◌, ◌∷◌, ◌∙◌, ap, >>=-eq-ok, guard, require,
}
use wpx.Prelude.Table
use wpx.Prelude.Table.Rows
use wpx.Text.{Text, ◌=ᵗ◌}
use wpx.Text.Laws.{=ᵗ_eq, =ᵗ_refl}
use wpx.Rbac.{Role, owner, Capability, is_owner, is_administrator, capabilities}
use wpx.Stamp.{Stamp}
use wpx.Store.Rows.{
  Db, UserRow, TokenRow, AuditEvent, Error, hashing_failed, owner_exists, username_taken,
}
use wpx.Store.Statements.{fold_rune, insert_audit, insert_user}
use wpx.Store.Users.Username.{normalize_username, validate_credentials, validate_password}
use wpx.Store.Users.Grants.{
  unique_strings, check_site, check_sites, grant_capabilities, grant_sites, assign_sites,
}
use wpx.Store.Users.Access.{
  User, Draw, Bcrypt, user_of, by_id, nocase_eq, is_scoped, is_active, access_row, access_updated,
  new_row, create_owner, create_user, update_user_access, set_user_disabled, change_username,
  change_password,
}

-- A row whose name is the same up to the case of its letters.
abbrev pub named : Text → UserRow → Bool
named name u = nocase_eq u.username name

pub record AccountsValid (users : List UserRow) : Type 0 where
  pub unique_ids : (id : String) → Table.count (by_id id) users ≤ 1
  pub unique_names : (name : Text) → Table.count (named name) users ≤ 1
  pub one_owner : Table.count (λ (u : UserRow). is_owner u.role) users ≤ 1

pub nocase_eq_trans : (s t u : Text) → nocase_eq t u ≡ true → nocase_eq s u ≡ nocase_eq s t
unfolding nocase_eq
nocase_eq_trans s t u h = cc (=ᵗ_eq (map fold_rune t) (map fold_rune u) h)

-- The grant loops leave the accounts alone.
grant_capabilities-users :
    (user_id site_id : String) (cs : List Capability) (db db' : Db)
    → grant_capabilities user_id site_id cs db ≡ ok db'
    → db'.users ≡ db.users
unfolding grant_capabilities
grant_capabilities-users user_id site_id [] db db' h = ground arith
grant_capabilities-users user_id site_id (c ∷ cs) db db' h = ground (
  arith,
  grant_capabilities-users user_id site_id cs
      (record db {
        grants =
            Table.insert (record { user_id = user_id; site_id = site_id; capability = c })
              db.grants;
      })
      db',
)

pub grant_sites-users :
    (user_id : String) (cs : List Capability) (sites : List String) (db db' : Db)
    → grant_sites user_id cs sites db ≡ ok db'
    → db'.users ≡ db.users
unfolding grant_sites
grant_sites-users user_id cs [] db db' h = ground arith
grant_sites-users user_id cs (site ∷ sites) db db' h =
    let (db1, first, rest) = >>=-eq-ok (grant_capabilities user_id site cs db) _ h in
    grant_sites-users user_id cs sites db1 db' rest
    ∙ grant_capabilities-users user_id site cs db db1 first

pub assign_sites-users :
    (user_id : String) (cs : List Capability) (sites : List String) (db db' : Db)
    → assign_sites user_id cs sites db ≡ ok db'
    → db'.users ≡ db.users
unfolding assign_sites
assign_sites-users user_id cs [] db db' h = ground arith
assign_sites-users user_id cs (site ∷ sites) db db' h =
    let (_, _, granted) = >>=-eq-ok (check_site site db) _ h in
    let (db1, first, rest) = >>=-eq-ok (grant_capabilities user_id site cs db) _ granted in
    assign_sites-users user_id cs sites db1 db' rest
    ∙ grant_capabilities-users user_id site cs db db1 first

-- A new row under a free identifier and a free name, and not a second owner.
pub insert-AccountsValid :
    (row : UserRow) (users : List UserRow)
    → Table.any (by_id row.id) users ≡ false
    → Table.count (named row.username) users ≡ 0
    → (is_owner row.role && Table.any (λ (u : UserRow). is_owner u.role) users) ≡ false
    → AccountsValid users
    → AccountsValid (Table.insert row users)
insert-AccountsValid row users fresh free sole v = record {
  unique_ids = λ id. ground (
    arith,
    v.unique_ids id,
    Table.count-insert (by_id id) row users,
    Table.count-zero_any (by_id row.id) users,
    eq_iff row.id id,
  );
  unique_names = λ name. ground (
    arith,
    v.unique_names name,
    Table.count-insert (named name) row users,
    names_as row.username name,
  );
  one_owner = ground (
    arith,
    v.one_owner,
    Table.count-insert (λ (u : UserRow). is_owner u.role) row users,
    Table.count-zero_any (λ (u : UserRow). is_owner u.role) users,
  );
}
  where
    names_as :
        (s t : Text)
        → nocase_eq s t ≡ true
        → Table.count (named t) users ≡ Table.count (named s) users
    names_as s t e =
        Rows.count-congr (named t) (named s) users (λ u. nocase_eq_trans u.username s t e)

-- An update that keeps the identifiers and the names and makes no owner.
pub update-AccountsValid :
    (q : UserRow → Bool) (f : UserRow → UserRow) (users : List UserRow)
    → ((u : UserRow) → (f u).id ≡ u.id)
    → ((u : UserRow) → (f u).username ≡ u.username)
    → ((u : UserRow) → q u ≡ true → is_owner (f u).role ≡ true → is_owner u.role ≡ true)
    → AccountsValid users
    → AccountsValid (Table.update q f users)
update-AccountsValid q f users ids names roles v = record {
  unique_ids = λ id.
      rw (Table.count-update (by_id id) q f users (λ u _. ap (λ (s : String). s =? id) (ids u)))
        (v.unique_ids id);
  unique_names = λ name.
      rw
        (Table.count-update (named name) q f users
          (λ u _. ap (λ (s : Text). nocase_eq s name) (names u)))
        (v.unique_names name);
  one_owner = omega (
    arith,
    v.one_owner,
    Table.count-update-le (λ (u : UserRow). is_owner u.role) q f users roles,
  );
}

pub insert_audit-users :
    (event : AuditEvent) (db db' : Db) → insert_audit event db ≡ ok db' → db'.users ≡ db.users
unfolding insert_audit
insert_audit-users event db db' h = ground arith
