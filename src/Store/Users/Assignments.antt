-- ===== src/Store/Users/Assignments.antt =====
-- `UpdateUserAccess` of internal/store/store.go and the grants that it leaves.
use wpx.Prelude.{
  ◌+◌, ◌*◌, String, Bool, false, ◌≡◌, ok, arith, List, [], ◌∷◌, ◌&&◌, ◌=?◌, inl, inr, >>=-eq-ok,
  Option-cases, Result-cases, if◌then◌else◌, eq_iff, eq_refl, not,
}
use wpx.Prelude.Table
use wpx.Prelude.Table.Rows
use wpx.Rbac.{Role, Capability, capability_eq, is_owner, is_administrator, capabilities, allows}
use wpx.Rbac.Laws.{allows-manage_all_sites, count-capabilities, capability_eq_comm}
use wpx.Store.Rows.{Db, Grant}
use wpx.Store.Statements.{insert_audit}
use wpx.Store.Users.Grants.{
  unique_from, unique_strings, check_sites, grant_capabilities, grant_sites,
}
use wpx.Store.Users.Access.{User, Draw, by_id, access_updated, update_user_access, user_can_site}

-- The grant of a capability for a site to a user.
abbrev pub is_grant : String → String → Capability → Grant → Bool
is_grant user_id site_id c g =
    g.user_id =? user_id && g.site_id =? site_id && capability_eq g.capability c

grant_capabilities-count :
    (user_id site_id s : String) (c : Capability) (cs : List Capability) (db db' : Db)
    → grant_capabilities user_id site_id cs db ≡ ok db'
    → Table.count (is_grant user_id s c) db'.grants
      ≡ Table.count (is_grant user_id s c) db.grants
        + (if site_id =? s then Table.count (capability_eq c) cs else 0)
unfolding grant_capabilities Table.count
grant_capabilities-count user_id site_id s c [] db db' h = ground arith
grant_capabilities-count user_id site_id s c (x ∷ xs) db db' h =
    let row : Grant = record { user_id = user_id; site_id = site_id; capability = x } in
    let db1 : Db = record db { grants = Table.insert row db.grants } in
    ground (
      arith,
      grant_capabilities-count user_id site_id s c xs db1 db',
      Table.count-insert (is_grant user_id s c) row db.grants,
      eq_refl user_id,
      capability_eq_comm c x,
    )

grant_sites-count :
    (user_id s : String) (c : Capability) (cs : List Capability) (sites : List String) (db db' : Db)
    → grant_sites user_id cs sites db ≡ ok db'
    → Table.count (is_grant user_id s c) db'.grants
      ≡ Table.count (is_grant user_id s c) db.grants
        + Table.count (λ x. x =? s) sites * Table.count (capability_eq c) cs
unfolding grant_sites Table.count
grant_sites-count user_id s c cs [] db db' h = ground arith
grant_sites-count user_id s c cs (site ∷ sites) db db' h =
    let (db1, one, rest) = >>=-eq-ok (grant_capabilities user_id site cs db) _ h in
    ground (
      arith,
      grant_capabilities-count user_id site s c cs db db1 one,
      grant_sites-count user_id s c cs sites db1 db' rest,
    )

-- Each value stands once in `uniqueStrings`.
unique_from-count :
    (seen : List String) (s : String) (vs : List String)
    → Table.count (λ x. x =? s) (unique_from seen vs)
      ≡ (if Table.any (λ x. x =? s) vs && not (Table.any (λ x. x =? s) seen) then 1 else 0)
unfolding unique_from Table.count
unique_from-count seen s [] = ground arith
unique_from-count seen s (v ∷ vs) =
    ground (arith, unique_from-count seen s vs, unique_from-count (v ∷ seen) s vs, eq_iff v s)

-- Each string stands exactly once in the list without repetitions if it is in the list that was
-- given, and not at all otherwise.
pub unique_strings-count :
    (s : String) (vs : List String)
    → Table.count (λ x. x =? s) (unique_strings vs) ≡ (if Table.any (λ x. x =? s) vs then 1 else 0)
unfolding unique_strings
unique_strings-count s vs = ground (arith, unique_from-count [] s vs)

-- The sites that an assignment keeps: none for an administrator.
abbrev pub kept_sites : Role → List String → List String
kept_sites role site_ids = if is_administrator role then [] else site_ids

-- After a successful change of access the user holds exactly one grant of each capability that the
-- new role allows on each assigned site, and no other grant; an administrator is assigned none.
pub update_user_access-grants :
    (draw : Draw) (actor : User) (user_id : String) (role : Role) (site_ids : List String)
    (db db' : Db) (s : String) (c : Capability)
    → update_user_access draw actor user_id role site_ids db ≡ ok db'
    → Table.count (is_grant user_id s c) db'.grants
      ≡ (if Table.any (λ x. x =? s) (kept_sites role site_ids) && allows role c then 1 else 0)
unfolding update_user_access insert_audit
update_user_access-grants draw actor user_id role site_ids db db' s c h =
    elim (Option-cases (Table.first (by_id user_id) db.users)) [
      | inl e ↦ absurd (ground arith)
      | inr (target, e) ↦
          let assigned = if is_administrator role then [] else unique_strings site_ids in
          let db1 = access_updated draw user_id role db in
          elim (Result-cases (grant_sites user_id (capabilities role) assigned db1)) [
            | inr (x, failed) ↦ absurd (ground (arith, Result-cases (check_sites assigned db)))
            | inl (db2, done) ↦
                let last : db'.grants ≡ db2.grants =
                  ground (arith, Result-cases (check_sites assigned db)) in
                rw last (
                  ground (
                    arith,
                    grant_sites-count user_id s c (capabilities role) assigned db1 db2 done,
                    Rows.count-delete (is_grant user_id s c) (λ (g : Grant). g.user_id =? user_id)
                        db.grants (λ g k. ground arith),
                    unique_strings-count s site_ids,
                    count-capabilities role c,
                    Rows.count-nil (λ (x : String). x =? s),
                    Rows.any-nil (λ (x : String). x =? s),
                  ))
          ]
    ]

-- The role that an assignment sets is not the owner's.
update_user_access-role :
    (draw : Draw) (actor : User) (user_id : String) (role : Role) (site_ids : List String)
    (db db' : Db)
    → update_user_access draw actor user_id role site_ids db ≡ ok db'
    → is_owner role ≡ false
unfolding update_user_access
update_user_access-role draw actor user_id role site_ids db db' h = ground arith

-- After a successful change of a user's access to a role other than administrator, the user, under
-- that role, has a capability on a site exactly if the role allows it and the site was assigned.
pub user_can_site-update_user_access :
    (draw : Draw) (actor user : User) (role : Role) (site_ids : List String) (db db' : Db)
    (s : String) (c : Capability)
    → update_user_access draw actor user.id role site_ids db ≡ ok db'
    → user.role ≡ role
    → is_administrator role ≡ false
    → user_can_site user s c db' ≡ (allows role c && Table.any (λ x. x =? s) site_ids)
unfolding user_can_site
user_can_site-update_user_access draw actor user role site_ids db db' s c h r a = ground (
  arith,
  update_user_access-grants draw actor user.id role site_ids db db' s c h,
  update_user_access-role draw actor user.id role site_ids db db' h,
  allows-manage_all_sites role,
)
