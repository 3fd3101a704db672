-- ===== src/Rbac.antt =====
-- internal/rbac/rbac.go: roles as presets of capabilities.
pub mod Laws
use wpx.Prelude.{ℕ, String, Bool, true, false, Option, none, some, List, [], ◌∷◌, ◌==◌, ◌=?◌}
use wpx.Prelude.Table

-- `type Role string`: the four constants, and any other text.
pub data Role : Type 0 where
  owner administrator collaborator customer : Role
  other : String → Role

pub data Capability : Type 0 where
  manage_ownership manage_server manage_users manage_all_sites : Capability
  view_site deploy_site manage_backups manage_databases manage_files : Capability
  manage_dns view_logs word_press_login manage_tls manage_word_press : Capability

-- `role == rbac.Owner`
abbrev pub is_owner : Role → Bool
is_owner owner = true
is_owner _ = false

-- `role == rbac.Administrator`
abbrev pub is_administrator : Role → Bool
is_administrator administrator = true
is_administrator _ = false

-- The place of a capability in the `const` block, to compare two of them.
abbrev pub capability_index : Capability → ℕ
capability_index manage_ownership = 0
capability_index manage_server = 1
capability_index manage_users = 2
capability_index manage_all_sites = 3
capability_index view_site = 4
capability_index deploy_site = 5
capability_index manage_backups = 6
capability_index manage_databases = 7
capability_index manage_files = 8
capability_index manage_dns = 9
capability_index view_logs = 10
capability_index word_press_login = 11
capability_index manage_tls = 12
capability_index manage_word_press = 13

unfoldable pub capability_eq : Capability → Capability → Bool
capability_eq a b = capability_index a == capability_index b

-- `presets[role]`: a map from roles to sets; a missing key gives the empty set.
unfoldable pub presets : Role → List Capability
presets owner =
    manage_ownership ∷ manage_server ∷ manage_users ∷ manage_all_sites ∷ view_site ∷ deploy_site
    ∷ manage_backups ∷ manage_databases ∷ manage_files ∷ manage_dns ∷ view_logs ∷ word_press_login
    ∷ manage_tls ∷ manage_word_press ∷ []
presets administrator =
    manage_server ∷ manage_users ∷ manage_all_sites ∷ view_site ∷ deploy_site ∷ manage_backups
    ∷ manage_databases ∷ manage_files ∷ manage_dns ∷ view_logs ∷ word_press_login ∷ manage_tls
    ∷ manage_word_press ∷ []
presets collaborator =
    view_site ∷ deploy_site ∷ manage_backups ∷ manage_databases ∷ manage_files ∷ manage_dns
    ∷ view_logs ∷ word_press_login ∷ manage_tls ∷ manage_word_press ∷ []
presets customer = view_site ∷ manage_backups ∷ view_logs ∷ word_press_login ∷ []
presets (other _) = []

unfoldable pub valid_role : Role → Bool
valid_role (other _) = false
valid_role _ = true

unfoldable pub allows : Role → Capability → Bool
unfolding presets capability_eq Table.any
allows role capability = Table.any (capability_eq capability) (presets role)

-- `Capabilities` ranges over a map, so the order of its result is not determined; no statement
-- depends on the order taken here.
unfoldable pub capabilities : Role → List Capability
unfolding presets
capabilities role = presets role
