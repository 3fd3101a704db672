-- ===== src/Store/Users/Grants.antt =====
-- The grants that an assignment of sites inserts: the loops of `CreateUser` and
-- `UpdateUserAccess`, and `uniqueStrings`, of internal/store/store.go.
use wpx.Prelude.{String, List, [], ◌∷◌, ◌==◌, ◌=?◌, if◌then◌else◌, Result, ok, guard, ◌>>=◌, ◌>>◌}
use wpx.Prelude.Table
use wpx.Rbac.{Capability}
use wpx.Model.SiteId.{valid_site_id}
use wpx.Model.Site.{Site}
use wpx.Store.Rows.{Db, Error, site_missing, invalid_site_id}
use wpx.Store.Statements.{insert_grant}

-- The values not in `seen`, each at its first place.
unfoldable pub unique_from : List String → List String → List String
unfolding Table.any
unique_from seen [] = []
unique_from seen (v ∷ vs) =
    let fresh = unique_from (v ∷ seen) vs in
    let rest = unique_from seen vs in if Table.any (λ s. s =? v) seen then rest else v ∷ fresh

unfoldable pub unique_strings : List String → List String
unfolding unique_from
unique_strings = unique_from []

-- One site of an assignment: its identifier is valid and its row exists.
unfoldable pub check_site : String → Db → Result Error (Unit {0})
unfolding valid_site_id Table.count
check_site site_id db = do
  guard (valid_site_id site_id) invalid_site_id
  guard (Table.count (λ (s : Site). s.id =? site_id) db.sites == 1) site_missing

unfoldable pub check_sites : List String → Db → Result Error (Unit {0})
unfolding check_site
check_sites [] db = ok tt
check_sites (site_id ∷ rest) db = check_site site_id db >> check_sites rest db

-- for _, capability := range rbac.Capabilities(role)
unfoldable pub grant_capabilities : String → String → List Capability → Db → Result Error Db
unfolding insert_grant
grant_capabilities user_id site_id [] db = ok db
grant_capabilities user_id site_id (c ∷ cs) db =
    insert_grant (record { user_id = user_id; site_id = site_id; capability = c }) db
    >>= grant_capabilities user_id site_id cs

-- for _, siteID := range assigned, where the sites have been checked
unfoldable pub grant_sites : String → List Capability → List String → Db → Result Error Db
unfolding grant_capabilities
grant_sites user_id cs [] db = ok db
grant_sites user_id cs (site_id ∷ rest) db =
    grant_capabilities user_id site_id cs db >>= grant_sites user_id cs rest

-- The loop of `CreateUser`, which checks each site before its grants.
unfoldable pub assign_sites : String → List Capability → List String → Db → Result Error Db
unfolding check_site grant_capabilities
assign_sites user_id cs [] db = ok db
assign_sites user_id cs (site_id ∷ rest) db =
    check_site site_id db
    >> (grant_capabilities user_id site_id cs db >>= assign_sites user_id cs rest)
