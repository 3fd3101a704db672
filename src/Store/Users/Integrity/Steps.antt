-- ===== src/Store/Users/Integrity/Steps.antt =====
-- Sequences of operations on accounts of internal/store/store.go.
use wpx.Prelude.{ℕ, String, Bool, ◌≡◌, ok, List, [], arith}
use wpx.Prelude.Table
use wpx.Text.{Text}
use wpx.Rbac.{Role}
use wpx.Store.Rows.{Db}
use wpx.Store.Users.Access.{
  User, Draw, Bcrypt, create_owner, create_user, update_user_access, set_user_disabled,
  change_username, change_password,
}
use wpx.Store.Users.Integrity.{AccountsValid}
use wpx.Store.Users.Integrity.Kept.{
  create_owner-AccountsValid, create_user-AccountsValid, update_user_access-AccountsValid,
  set_user_disabled-AccountsValid, change_username-AccountsValid, change_password-AccountsValid,
}

-- One successful operation, whoever calls it and whatever is drawn for it.
pub data AccountStep (bcrypt : Bcrypt) (db db' : Db) : Type 0 where
  owner_created :
      (draw : Draw) (name : Text) (password : List ℕ) (u : User)
      → create_owner bcrypt draw name password db ≡ ok (u, db')
      → AccountStep bcrypt db db'
  user_created :
      (draw : Draw) (actor : User) (name : Text) (password : List ℕ) (role : Role)
      (site_ids : List String) (u : User)
      → create_user bcrypt draw actor name password role site_ids db ≡ ok (u, db')
      → AccountStep bcrypt db db'
  access_updated :
      (draw : Draw) (actor : User) (user_id : String) (role : Role) (site_ids : List String)
      → update_user_access draw actor user_id role site_ids db ≡ ok db'
      → AccountStep bcrypt db db'
  disabled_set :
      (draw : Draw) (actor : User) (user_id : String) (disabled : Bool)
      → set_user_disabled draw actor user_id disabled db ≡ ok db'
      → AccountStep bcrypt db db'
  username_changed :
      (draw : Draw) (actor : User) (user_id : String) (requested : Text) (u : User)
      → change_username draw actor user_id requested db ≡ ok (u, db')
      → AccountStep bcrypt db db'
  password_changed :
      (draw : Draw) (user : User) (password : List ℕ)
      → change_password bcrypt draw user password db ≡ ok db'
      → AccountStep bcrypt db db'

pub AccountStep-AccountsValid :
    (bcrypt : Bcrypt) (db db' : Db)
    → AccountStep bcrypt db db'
    → AccountsValid db.users
    → AccountsValid db'.users
AccountStep-AccountsValid bcrypt db db' (owner_created d n p u h) v =
    create_owner-AccountsValid bcrypt d n p db db' u h v
AccountStep-AccountsValid bcrypt db db' (user_created d a n p r s u h) v =
    create_user-AccountsValid bcrypt d a n p r s db db' u h v
AccountStep-AccountsValid bcrypt db db' (access_updated d a i r s h) v =
    update_user_access-AccountsValid d a i r s db db' h v
AccountStep-AccountsValid bcrypt db db' (disabled_set d a i b h) v =
    set_user_disabled-AccountsValid d a i b db db' h v
AccountStep-AccountsValid bcrypt db db' (username_changed d a i t u h) v =
    change_username-AccountsValid d a i t db db' u h v
AccountStep-AccountsValid bcrypt db db' (password_changed d a p h) v =
    change_password-AccountsValid bcrypt d a p db db' h v

-- Any sequence of operations.
pub data AccountSteps (bcrypt : Bcrypt) (db : Db) : Db → Type 0 where
  none_yet : AccountSteps bcrypt db db
  followed_by :
      {db1 db2 : Db}
      → AccountSteps bcrypt db db1
      → AccountStep bcrypt db1 db2
      → AccountSteps bcrypt db db2

-- From a database without users, every sequence of successful account operations leads to accounts
-- with unique identifiers, with names that are unique without regard to case, and with at most one
-- owner.
pub AccountSteps-AccountsValid :
    (bcrypt : Bcrypt) (db db' : Db)
    → db.users ≡ []
    → AccountSteps bcrypt db db'
    → AccountsValid db'.users
unfolding Table.count
AccountSteps-AccountsValid bcrypt db db' e none_yet = rw e (record {
  unique_ids = λ id. omega arith;
  unique_names = λ n. omega arith;
  one_owner = omega arith;
})
AccountSteps-AccountsValid bcrypt db db' e (followed_by {db1} {db2} steps step) =
    AccountStep-AccountsValid bcrypt db1 db2 step (AccountSteps-AccountsValid bcrypt db db1 e steps)
