-- ===== src/Examples/Roles.antt =====
-- A deployer of one workspace, who is nothing in another.
use deploy_hub.Prelude.{
  ◌&&◌, ℕ, String, ◌≡◌, refl, true, false, ◌==◌, some, List, [], ◌∷◌, filter, not, is_some,
}
use deploy_hub.Roles.{
  User, Workspace, Tenants, has_capability, user_capabilities, capabilities_for,
  workspace_membership, bootstrap, is_member, hud_capabilities, resolve_workspace, if_member,
  is_named, int_of, int_from, scoped_get, got, get_object_or_404, scope_queryset,
}
use deploy_hub.Roles.Table.{
  deployer, deployment_request, role_capabilities, same, has, capability_of, action_capability,
}
use deploy_hub.Roles.Scope.{may_enter, has_capability-may_enter, scoped_get-may_enter}
use deploy_hub.Roles.Gate.{
  authorized_action_lists, is_system_action, refuse_cap, authorized_action_lists-passes,
}

abbrev user : User
user = record { pk = 7; is_authenticated = true; is_staff = false; is_superuser = false }

abbrev shop : Workspace
shop = record { pk = 2; slug = "shop"; name = "Shop" }

abbrev blog : Workspace
blog = record { pk = 3; slug = "blog"; name = "Blog" }

abbrev tenants : Tenants
tenants = record {
  workspaces = record { pk = 1; slug = "default"; name = "Default workspace" } ∷ shop ∷ blog ∷ [];
  memberships = record { user = 7; workspace = shop; role = deployer } ∷ [];
  standard = record { pk = 1; slug = "default"; name = "Default workspace" };
}

can_deploy : has_capability true tenants user deployment_request (some shop) ≡ true
unfolding has_capability user_capabilities capabilities_for workspace_membership bootstrap is_member
    hud_capabilities role_capabilities same has
can_deploy = refl

test_other_workspace : has_capability true tenants user deployment_request (some blog) ≡ false
unfolding has_capability user_capabilities capabilities_for workspace_membership bootstrap is_member
    hud_capabilities role_capabilities same has
test_other_workspace = refl

has_capability-may_enter_example : may_enter tenants user shop ≡ true
has_capability-may_enter_example =
    has_capability-may_enter true tenants user deployment_request shop can_deploy

-- Rows that are the keys of their workspaces.
abbrev of_row : ℕ → ℕ
of_row n = n

row_two : scoped_get of_row tenants user "2" (λ (n : ℕ). n == 2) (3 ∷ 2 ∷ []) ≡ got 2
unfolding scoped_get scope_queryset get_object_or_404 resolve_workspace if_member is_named int_of
    int_from workspace_membership bootstrap is_member
row_two = refl

scoped_get-may_enter_example :
    (w : Workspace) × ((may_enter tenants user w ≡ true)
      × (2 ≡ w.pk)
      × ((2 == 2) ≡ true)
      × (filter (λ (n : ℕ). n == w.pk && n == 2) (3 ∷ 2 ∷ []) ≡ 2 ∷ []))
scoped_get-may_enter_example =
    scoped_get-may_enter of_row tenants user "2" (λ (n : ℕ). n == 2) (3 ∷ 2 ∷ []) 2 row_two

abbrev actions : List String
actions = "site.deploy" ∷ "target.delete" ∷ []

authorized_action_lists-passes_example :
    (authorized_action_lists true tenants user "shop" actions []).0
    ≡ filter (λ (a : String). not (is_some (refuse_cap true tenants user "shop" a))) actions
unfolding capability_of action_capability is_system_action
authorized_action_lists-passes_example =
    authorized_action_lists-passes true tenants user "shop" actions [] refl
