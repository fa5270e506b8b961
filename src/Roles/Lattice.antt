-- ===== src/Roles/Lattice.antt =====
-- Which role of core/rbac.py has all that another has.
use deploy_hub.Prelude.{◌≡◌, refl, Bool, true, false, List, all}
use deploy_hub.Roles.Table.{
  Role, viewer, auditor, operator, deployer, admin, owner, Capability, role_capabilities, has, same,
}

-- An owner has all; an admin all but what only an owner has; a deployer has an operator's; and whoever is
-- none of these has a viewer's.
unfoldable pub includes : Role → Role → Bool
includes owner r = true
includes admin owner = false
includes admin r = true
includes deployer operator = true
includes deployer deployer = true
includes deployer viewer = true
includes deployer r = false
includes operator operator = true
includes operator viewer = true
includes operator r = false
includes auditor auditor = true
includes auditor viewer = true
includes auditor r = false
includes viewer viewer = true
includes viewer r = false

unfoldable pub has_all : List Capability → List Capability → Bool
has_all caps wanted = all (λ (c : Capability). has c caps) wanted

-- One role has every capability of another exactly when it stands above it, for each of the pairs of
-- roles.
pub has_all_iff :
    (r r' : Role) → has_all (role_capabilities r) (role_capabilities r') ≡ includes r r'
unfolding has_all role_capabilities has same includes
has_all_iff viewer viewer = refl
has_all_iff viewer auditor = refl
has_all_iff viewer operator = refl
has_all_iff viewer deployer = refl
has_all_iff viewer admin = refl
has_all_iff viewer owner = refl
has_all_iff auditor viewer = refl
has_all_iff auditor auditor = refl
has_all_iff auditor operator = refl
has_all_iff auditor deployer = refl
has_all_iff auditor admin = refl
has_all_iff auditor owner = refl
has_all_iff operator viewer = refl
has_all_iff operator auditor = refl
has_all_iff operator operator = refl
has_all_iff operator deployer = refl
has_all_iff operator admin = refl
has_all_iff operator owner = refl
has_all_iff deployer viewer = refl
has_all_iff deployer auditor = refl
has_all_iff deployer operator = refl
has_all_iff deployer deployer = refl
has_all_iff deployer admin = refl
has_all_iff deployer owner = refl
has_all_iff admin viewer = refl
has_all_iff admin auditor = refl
has_all_iff admin operator = refl
has_all_iff admin deployer = refl
has_all_iff admin admin = refl
has_all_iff admin owner = refl
has_all_iff owner viewer = refl
has_all_iff owner auditor = refl
has_all_iff owner operator = refl
has_all_iff owner deployer = refl
has_all_iff owner admin = refl
has_all_iff owner owner = refl
