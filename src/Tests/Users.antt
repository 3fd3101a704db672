-- ===== src/Tests/Users.antt =====
-- Runs of the operations on accounts.
use wpx.Prelude.{String, ◌≡◌, ◌||◌, ◌&&◌, ◌=?◌, refl, ok, err, true, false, [], ◌∷◌, if◌then◌else◌}
use wpx.Prelude.Table
use wpx.Text.{codes}
use wpx.Rbac.{
  owner, administrator, customer, collaborator, Role, is_owner, is_administrator, view_site, allows,
}
use wpx.Store.Rows.{Db, own_account}
use wpx.Store.Users.Grants.{unique_strings}
use wpx.Store.Users.Access.{
  User, create_owner, create_user, update_user_access, set_user_disabled, change_password,
  user_can_site, authenticate,
}
use wpx.Store.Users.Integrity.{AccountsValid}
use wpx.Store.Users.Integrity.Steps.{
  owner_created, user_created, none_yet, followed_by, AccountSteps-AccountsValid,
}
use wpx.Store.Users.Authority.{privileged, creates, assigns, ActsOn-privileged, ActsOn-manager}
use wpx.Store.Users.Assignments.{
  is_grant, update_user_access-grants, user_can_site-update_user_access,
}
use wpx.Tests.Data.{account, from_ok, draw_of, plain_bcrypt, password, start, site_id}

abbrev nobody : User
nobody = record {
  id = "";
  username = [];
  role = customer;
  disabled = false;
  totp_enabled = false;
  site_count = 0;
}

abbrev owned : User × Db
unfolding create_owner
owned =
    from_ok (create_owner plain_bcrypt (draw_of 1 "u1" "a1") (codes " Owner ") password start)
      (nobody, start)

owned-ok :
    create_owner plain_bcrypt (draw_of 1 "u1" "a1") (codes " Owner ") password start ≡ ok owned
unfolding create_owner wpx.Store.Users.Username.normalize_username
    wpx.Store.Users.Username.is_username wpx.Text.to_lower wpx.Text.trim_space
    wpx.Store.Users.Username.validate_credentials Table.count wpx.Store.Statements.insert_user
    Table.any wpx.Rbac.valid_role wpx.Store.Statements.insert_audit Table.insert
owned-ok = refl

abbrev staffed : User × Db
unfolding create_user
staffed =
    from_ok
      (create_user plain_bcrypt (draw_of 2 "u2" "a2") owned.0 (codes "admin") password administrator
        [] owned.1)
      (nobody, start)

staffed-ok :
    create_user plain_bcrypt
      (draw_of 2 "u2" "a2")
      owned.0
      (codes "admin")
      password
      administrator
      []
      owned.1
    ≡ ok staffed
unfolding create_user wpx.Store.Users.Username.normalize_username
    wpx.Store.Users.Username.is_username wpx.Text.to_lower wpx.Text.trim_space
    wpx.Store.Users.Username.validate_credentials wpx.Rbac.valid_role owned Table.count
    wpx.Store.Statements.insert_user Table.any wpx.Store.Statements.insert_audit Table.insert
    wpx.Store.Users.Access.nocase_eq wpx.Text.◌=ᵗ◌ wpx.Store.Users.Grants.assign_sites
staffed-ok = refl

abbrev served : User × Db
unfolding create_user
served =
    from_ok
      (create_user plain_bcrypt (draw_of 3 "u3" "a3") staffed.0 (codes "client") password customer
        [] staffed.1)
      (nobody, start)

served-ok :
    create_user plain_bcrypt
      (draw_of 3 "u3" "a3")
      staffed.0
      (codes "client")
      password
      customer
      []
      staffed.1
    ≡ ok served
unfolding create_user wpx.Store.Users.Username.normalize_username
    wpx.Store.Users.Username.is_username wpx.Text.to_lower wpx.Text.trim_space
    wpx.Store.Users.Username.validate_credentials wpx.Rbac.valid_role owned Table.count
    wpx.Store.Statements.insert_user Table.any wpx.Store.Statements.insert_audit Table.insert
    wpx.Store.Users.Access.nocase_eq wpx.Text.◌=ᵗ◌ wpx.Store.Users.Grants.assign_sites
    unique_strings
served-ok = refl

abbrev small : Db
small = record start {
  users = account "u2" (codes "admin") administrator ∷ account "u3" (codes "client") customer ∷ [];
}

abbrev admin : User
admin = record nobody { id = "u2"; username = codes "admin"; role = administrator }

abbrev promoted : Db
unfolding update_user_access
promoted =
    from_ok
      (update_user_access (draw_of 4 "" "a4") admin "u3" collaborator (site_id ∷ site_id ∷ [])
        small)
      start

promoted-ok :
    update_user_access (draw_of 4 "" "a4") admin "u3" collaborator (site_id ∷ site_id ∷ []) small
    ≡ ok promoted
unfolding update_user_access Table.first wpx.Model.SiteId.matches wpx.Model.SiteId.valid_site_id
    wpx.Model.SiteId.valid_site_id_text Table.delete Table.update Table.count Table.any Table.insert
    wpx.Rbac.valid_role wpx.Rbac.capabilities wpx.Rbac.capability_eq wpx.Rbac.presets
    wpx.Store.Statements.insert_grant wpx.Store.Statements.insert_audit
    wpx.Store.Users.Grants.check_site wpx.Store.Users.Grants.check_sites
    wpx.Store.Users.Grants.grant_capabilities wpx.Store.Users.Grants.grant_sites
    wpx.Store.Users.Grants.unique_from unique_strings
promoted-ok = refl

staffed-valid : AccountsValid staffed.1.users
staffed-valid = AccountSteps-AccountsValid plain_bcrypt start staffed.1 refl (
    followed_by
      (followed_by none_yet
        (owner_created (draw_of 1 "u1" "a1") (codes " Owner ") password owned.0 owned-ok))
      (user_created (draw_of 2 "u2" "a2") owned.0 (codes "admin") password administrator []
        staffed.0 staffed-ok))

AccountSteps-AccountsValid_example : AccountsValid staffed.1.users
AccountSteps-AccountsValid_example = AccountSteps-AccountsValid plain_bcrypt start staffed.1 refl (
    followed_by
      (followed_by none_yet
        (owner_created (draw_of 1 "u1" "a1") (codes " Owner ") password owned.0 owned-ok))
      (user_created (draw_of 2 "u2" "a2") owned.0 (codes "admin") password administrator []
        staffed.0 staffed-ok))

ActsOn-privileged_example : privileged served.1 ≡ privileged staffed.1
unfolding staffed wpx.Store.Users.Username.normalize_username wpx.Store.Users.Username.is_username
    wpx.Text.to_lower wpx.Text.trim_space wpx.Store.Users.Username.validate_credentials
    wpx.Rbac.valid_role owned Table.count wpx.Store.Statements.insert_user Table.any
    wpx.Store.Statements.insert_audit Table.insert wpx.Store.Users.Access.nocase_eq wpx.Text.◌=ᵗ◌
    wpx.Store.Users.Grants.assign_sites
ActsOn-privileged_example = ActsOn-privileged staffed.0 staffed.1 served.1 refl staffed-valid (
    creates (draw_of 3 "u3" "a3") plain_bcrypt (codes "client") password customer [] served.0
      served-ok)

ActsOn-manager_example : (is_owner admin.role || is_administrator admin.role) ≡ true
ActsOn-manager_example =
    ActsOn-manager admin small promoted
      (assigns (draw_of 4 "" "a4") "u3" collaborator (site_id ∷ site_id ∷ []) promoted-ok)

update_user_access-grants_example :
    Table.count (is_grant "u3" site_id view_site) promoted.grants ≡ (
      if Table.any (λ (x : String). x =? site_id) (site_id ∷ site_id ∷ [])
        && allows collaborator view_site
      then 1
      else 0)
update_user_access-grants_example =
    update_user_access-grants (draw_of 4 "" "a4") admin "u3" collaborator (site_id ∷ site_id ∷ [])
      small promoted site_id view_site promoted-ok

abbrev client : User
client = record nobody { id = "u3"; role = collaborator }

user_can_site-update_user_access_example : user_can_site client site_id view_site promoted ≡ (
    allows collaborator view_site
    && Table.any (λ (x : String). x =? site_id) (site_id ∷ site_id ∷ []))
user_can_site-update_user_access_example =
    user_can_site-update_user_access (draw_of 4 "" "a4") admin client collaborator
      (site_id ∷ site_id ∷ []) small promoted site_id view_site promoted-ok refl refl

-- No one disables their own account.
administrator_is_held_off :
    set_user_disabled (draw_of 5 "" "a5") admin "u2" true small ≡ err own_account
unfolding set_user_disabled
administrator_is_held_off = refl
