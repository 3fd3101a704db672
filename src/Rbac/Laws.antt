-- ===== src/Rbac/Laws.antt =====
-- What the presets of internal/rbac/rbac.go grant.
use wpx.Prelude.{ℕ, ◌≤◌, ◌≡◌, ◌⊎◌, ◌↔◌, true, arith, ◌==◌, if◌then◌else◌}
use wpx.Prelude.Table
use wpx.Rbac.{
  Role, owner, administrator, collaborator, customer, other, Capability, manage_ownership,
  manage_all_sites, capability_eq, capability_index, valid_role, allows, capabilities,
}

-- The rank of a role: a higher one may do more.
abbrev pub rank : Role → ℕ
rank owner = 4
rank administrator = 3
rank collaborator = 2
rank customer = 1
rank (other _) = 0

-- A role that ranks at least as high as another, in the order owner, administrator, collaborator,
-- customer, any other, allows everything that the other allows.
pub allows_mono :
    (r s : Role) (c : Capability) → rank r ≤ rank s → allows r c ≡ true → allows s c ≡ true
unfolding allows
allows_mono r s c h a = ground arith

-- The ownership capability belongs to the owner alone.
pub allows-manage_ownership : (r : Role) → (allows r manage_ownership ≡ true) ↔ (r ≡ owner)
unfolding allows
allows-manage_ownership r = (λ h. ground arith, λ h. ground arith)

-- Access to all sites belongs to the owner and the administrators.
pub allows-manage_all_sites :
    (r : Role) → (allows r manage_all_sites ≡ true) ↔ ((r ≡ owner) ⊎ (r ≡ administrator))
unfolding allows
allows-manage_all_sites r = (λ h. ground arith, λ h. ground arith)

-- A role that allows anything is valid, and a valid role allows something.
pub valid_role-view_site :
    (r : Role) → (valid_role r ≡ true) ↔ (allows r Capability.view_site ≡ true)
unfolding allows valid_role
valid_role-view_site r = (λ h. ground arith, λ h. ground arith)

-- Each capability stands once in the list of a role's capabilities if the role allows it, and not
-- at all otherwise.
pub count-capabilities :
    (r : Role) (c : Capability)
    → Table.count (capability_eq c) (capabilities r) ≡ (if allows r c then 1 else 0)
unfolding allows capabilities Table.count
count-capabilities r c = ground arith

pub capability_eq_comm : (a b : Capability) → capability_eq a b ≡ capability_eq b a
unfolding capability_eq
capability_eq_comm a b = equal_comm (capability_index a) (capability_index b)
  where
    equal_comm : (m n : ℕ) → (m == n) ≡ (n == m)
    equal_comm m n = ground arith
