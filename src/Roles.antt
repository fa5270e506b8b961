-- ===== src/Roles.antt =====
-- core/rbac.py: what a user may do in a workspace.
-- A list of capabilities is read as a set: the source sorts it. `hud` is the setting HUD_UI_V1.
pub mod Table
pub mod Lattice
pub mod Scope
pub mod Gate
use Prim.Native.Char.{code}
use deploy_hub.Prelude.{
  ℕ, ◌+◌, ◌-◌, ◌*◌, String, Bool, true, false, not, ◌&&◌, ◌||◌, Option, none, some, List, [], ◌∷◌,
  ◌++◌, map, ◌==◌, leb, str_eq, if◌then◌else◌, first, filter, any, is_some,
}
use deploy_hub.Roles.Table.{
  Role, viewer, auditor, operator, deployer, admin, owner, Capability, hud_ui_v1, role_capabilities,
  same, has,
}

pub record User : Type 0 where
  pub pk : ℕ
  pub is_authenticated : Bool
  pub is_staff : Bool
  pub is_superuser : Bool

pub record Workspace : Type 0 where
  pub pk : ℕ
  pub slug : String
  pub name : String

-- A stored membership, with its workspace, or the bootstrap one, which is not stored.
pub record Membership : Type 0 where
  pub user : ℕ
  pub workspace : Workspace
  pub role : Role

-- The memberships are in the order of their workspaces' slugs and of their keys, the workspaces in that
-- of their keys; `standard` is default_workspace().
pub record Tenants : Type 0 where
  pub workspaces : List Workspace
  pub memberships : List Membership
  pub standard : Workspace

abbrev pub is_staff_user : User → Bool
is_staff_user user = user.is_staff || user.is_superuser

unfoldable pub is_system_admin : User → Bool
is_system_admin user = user.is_authenticated && user.is_superuser

unfoldable pub is_member : User → Workspace → Membership → Bool
is_member user w m = m.user == user.pk && m.workspace.pk == w.pk

abbrev pub staff_role : User → Role
staff_role user = if user.is_superuser then owner else admin

unfoldable pub bootstrap : User → Workspace → Option Membership
bootstrap user w =
    if str_eq w.slug "default" && is_staff_user user
    then some (record { user = user.pk; workspace = w; role = staff_role user })
    else none

unfoldable pub workspace_membership : Tenants → User → Workspace → Option Membership
unfolding bootstrap is_member
workspace_membership t user w =
    if not user.is_authenticated
    then none
    else elim (first (is_member user w) t.memberships) [ some m ↦ some m | none ↦ bootstrap user w ]

-- `candidate if workspace_membership(user, candidate) else None`
unfoldable pub if_member : Tenants → User → Option Workspace → Option Workspace
unfolding workspace_membership
if_member t user none = none
if_member t user (some w) = if is_some (workspace_membership t user w) then some w else none

-- `int(text)` of a text of the digits 0 to 9; other digits are left out.
unfoldable pub int_from : ℕ → String → Option ℕ
int_from n String.[] = some n
int_from n (String.◌∷◌ c s) =
    let rest = int_from (10 * n + (code c - 48)) s in
    if leb 48 (code c) && leb (code c) 57 then rest else none

unfoldable pub int_of : String → Option ℕ
unfolding int_from
int_of s = if str_eq s "" then none else int_from 0 s

unfoldable pub is_named : String → Workspace → Bool
unfolding int_of
is_named ref w = str_eq w.slug ref || elim (int_of ref) [ none ↦ false | some n ↦ w.pk == n ]

-- `workspace_ref` is "" when there is none.
unfoldable pub resolve_workspace : Tenants → User → String → Option Workspace
resolve_workspace t user ref =
    if not user.is_authenticated
    then none
    else if not (str_eq ref "")
    then if_member t user (first (is_named ref) t.workspaces)
    else elim (first (λ (m : Membership). m.user == user.pk) t.memberships) [
      | some m ↦ some m.workspace
      | none ↦ if_member t user (some t.standard)
    ]

-- _hud_capabilities
unfoldable pub hud_capabilities : Bool → Role → List Capability
unfolding same
hud_capabilities hud role =
    let caps = role_capabilities role in
    if hud then caps else filter (λ (c : Capability). not (same c hud_ui_v1)) caps

-- A bootstrap membership is only ever of a staff user, so what the source asks of one again holds.
unfoldable pub capabilities_for : Bool → Tenants → User → Workspace → List Capability
unfolding hud_capabilities
capabilities_for hud t user w = elim (workspace_membership t user w) [
  | none ↦ []
  | some m ↦ hud_capabilities hud m.role
]

-- user_capabilities, with a workspace and without one.
unfoldable pub user_capabilities : Bool → Tenants → User → Option Workspace → List Capability
unfolding capabilities_for
user_capabilities hud t user (some w) = capabilities_for hud t user w
user_capabilities hud t user none = elim (resolve_workspace t user "") [
  | none ↦ []
  | some w ↦ capabilities_for hud t user w
]

unfoldable pub has_capability : Bool → Tenants → User → Capability → Option Workspace → Bool
unfolding has
has_capability hud t user c w = has c (user_capabilities hud t user w)

-- `workspace or resolve_workspace(user)`
unfoldable pub or_resolved : Tenants → User → Option Workspace → Option Workspace
or_resolved t user none = resolve_workspace t user ""
or_resolved t user (some w) = some w

unfoldable pub has_operator_capability :
    Bool → Tenants → User → Capability → Option Workspace → Bool
has_operator_capability hud t user c w = has_capability hud t user c (or_resolved t user w)

-- user_role, of a given workspace.
unfoldable pub user_role : Tenants → User → Workspace → Option Role
user_role t user w = elim (workspace_membership t user w) [ none ↦ none | some m ↦ some m.role ]

pub record Item : Type 0 where
  pub workspace : Workspace
  pub role : Role
  pub capabilities : List Capability

unfoldable pub item : Bool → Workspace → Role → Item
item hud w role = record { workspace = w; role = role; capabilities = hud_capabilities hud role }

unfoldable pub workspace_payload : Bool → Tenants → User → List Item
unfolding item
workspace_payload hud t user =
    let own : List Item =
      map (λ (m : Membership). item hud m.workspace m.role)
        (filter (λ (m : Membership). m.user == user.pk) t.memberships) in
    if not user.is_authenticated
    then []
    else if is_staff_user user && not (any (λ (x : Item). x.workspace.pk == t.standard.pk) own)
    then own ++ item hud t.standard (staff_role user) ∷ []
    else own

-- get_object_or_404: the row, the 404, or MultipleObjectsReturned.
pub data Got {ℓ} (A : Type ℓ) : Type ℓ where
  got : A → Got A
  not_found multiple_returned : Got A

unfoldable pub get_object_or_404 {ℓ} : {A : Type ℓ} → List A → Got A
get_object_or_404 [] = not_found
get_object_or_404 (x ∷ []) = got x
get_object_or_404 (x ∷ y ∷ rows) = multiple_returned

-- scope_queryset and scoped_get over the rows of a table, of which `workspace_of` gives the workspace.
module _ {ℓ} {A : Type ℓ} (workspace_of : A → ℕ) where
  unfoldable pub scope_queryset : Option Workspace → List A → List A
  scope_queryset none rows = []
  scope_queryset (some w) rows = filter (λ (x : A). workspace_of x == w.pk) rows

  unfoldable pub scoped_get : Tenants → User → String → (A → Bool) → List A → Got A
  unfolding get_object_or_404
  scoped_get t user ref lookup rows =
      get_object_or_404 (filter lookup (scope_queryset (resolve_workspace t user ref) rows))
