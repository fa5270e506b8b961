-- ===== src/Roles/Gate.antt =====
-- The gates over core/rbac.py: refuse_cap and authorized_action_lists of core/hud/common.py, and the
-- permissions of core/permissions.py.
use deploy_hub.Prelude.{
  ℕ, ◌+◌, String, ◌≡◌, refl, Bool, true, false, not, ◌&&◌, ◌||◌, Option, none, some, List, [], ◌∷◌,
  ◌++◌, leb, arith, str_eq, if◌then◌else◌, filter, all, is_some, Option-cases, inl, inr,
}
use deploy_hub.Roles.{
  User, Tenants, Workspace, is_system_admin, resolve_workspace, has_capability,
  has_operator_capability, or_resolved, user_capabilities,
}
use deploy_hub.Roles.Table.{Capability, capability_of}

-- A 403, with the capability that is missing, if the action has one.
pub data Refusal : Type 0 where
  not_permitted : Option Capability → Refusal

unfoldable pub refuse_cap : Bool → Tenants → User → String → String → Option Refusal
refuse_cap hud t user ref action = elim (capability_of action) [
  | none ↦ some (not_permitted none)
  | some c ↦
      if has_operator_capability hud t user c (resolve_workspace t user ref)
      then none
      else some (not_permitted (some c))
]

-- SYSTEM_ACTIONS
unfoldable pub is_system_action : String → Bool
is_system_action action = str_eq action "partner.api_kill_switch" || str_eq action "aws.connect"

pub data Reason : Type 0 where
  system_administrator_required : Reason
  required_in_workspace : Capability → Reason

-- Why an action stands among those that are refused; of an action, its id.
unfoldable pub hidden_for : Bool → Tenants → User → String → String → Option Reason
hidden_for hud t user ref action =
    if is_system_action action
    then (if is_system_admin user then none else some system_administrator_required)
    else elim (capability_of action) [
      | none ↦ none
      | some c ↦
          if has_capability hud t user c (resolve_workspace t user ref)
          then none
          else some (required_in_workspace c)
    ]

-- The loop of authorized_action_lists: those that are visible, and those that are refused after
-- `disabled`.
unfoldable pub authorized_action_lists :
    Bool
    → Tenants
    → User
    → String
    → List String
    → List (String × Reason)
    → List String × List (String × Reason)
authorized_action_lists hud t user ref [] disabled = ([], disabled)
authorized_action_lists hud t user ref (action ∷ allowed) disabled =
    elim (hidden_for hud t user ref action) [
      | none ↦
          let (visible, refused) = authorized_action_lists hud t user ref allowed disabled in
          (action ∷ visible, refused)
      | some why ↦ authorized_action_lists hud t user ref allowed (disabled ++ (action, why) ∷ [])
    ]

-- RequireAction, of a view's action_id, "" when it has none; `is_safe` is a request that only reads.
unfoldable pub require_action : Bool → Tenants → User → String → Bool → String → Bool
require_action hud t user ref is_safe action = is_safe || elim (capability_of action) [
  | none ↦ false
  | some c ↦ has_operator_capability hud t user c (resolve_workspace t user ref)
]

unfoldable pub require_workspace : Tenants → User → String → Bool
require_workspace t user ref = is_some (resolve_workspace t user ref)

unfoldable pub require_system_admin : User → Bool
require_system_admin user = is_system_admin user

-- RequireRecentTouch, in seconds, from the number of confirmed credentials and the touch of the session.
unfoldable pub require_recent_touch : User → ℕ → Option ℕ → ℕ → Bool
require_recent_touch user credentials none now = false
require_recent_touch user credentials (some touched) now =
    user.is_authenticated && (leb 2 credentials && (leb now (touched + 300) && leb touched now))

-- An action that needs a capability, and is not one of the system's.
abbrev pub is_gated : String → Bool
is_gated action = is_some (capability_of action) && not (is_system_action action)

abbrev passes : Bool → Tenants → User → String → String → Bool
passes hud t user ref action = not (is_some (refuse_cap hud t user ref action))

-- The gate of the commands resolves a workspace first, which has_capability would do itself.
has_operator_capability_lem :
    (hud : Bool) (t : Tenants) (user : User) (c : Capability) (w : Option Workspace)
    → has_operator_capability hud t user c w ≡ has_capability hud t user c w
unfolding has_operator_capability or_resolved has_capability user_capabilities
has_operator_capability_lem hud t user c (some w) = refl
has_operator_capability_lem hud t user c none = elim (Option-cases (resolve_workspace t user "")) [
  | inl e ↦ rw (e) refl
  | inr (w, e) ↦ rw (has_capability, user_capabilities, e) refl
]

hidden_for-refuse_cap :
    (hud : Bool) (t : Tenants) (user : User) (ref action : String)
    → is_gated action ≡ true
    → is_some (hidden_for hud t user ref action) ≡ is_some (refuse_cap hud t user ref action)
unfolding hidden_for refuse_cap
hidden_for-refuse_cap hud t user ref action g = elim (Option-cases (capability_of action)) [
  | inl e ↦ absurd (ground (arith, g, e))
  | inr (c, e) ↦
      ground (arith, g, e, has_operator_capability_lem hud t user c (resolve_workspace t user ref))
]

-- Of actions that need a capability and are not the system's, those that are listed as visible are those
-- that the gate of the commands lets pass, in their order.
pub authorized_action_lists-passes :
    (hud : Bool) (t : Tenants) (user : User) (ref : String) (allowed : List String)
    (disabled : List (String × Reason))
    → all is_gated allowed ≡ true
    → (authorized_action_lists hud t user ref allowed disabled).0
      ≡ filter (passes hud t user ref) allowed
unfolding authorized_action_lists
authorized_action_lists-passes hud t user ref [] disabled g = refl
authorized_action_lists-passes hud t user ref (action ∷ allowed) disabled g =
    elim (Option-cases (hidden_for hud t user ref action)) [
      | inl h ↦ ground (
        arith,
        h,
        g,
        hidden_for-refuse_cap hud t user ref action,
        authorized_action_lists-passes hud t user ref allowed disabled,
      )
      | inr (why, h) ↦ ground (
        arith,
        h,
        g,
        hidden_for-refuse_cap hud t user ref action,
        authorized_action_lists-passes hud t user ref allowed (disabled ++ (action, why) ∷ []),
      )
    ]
