-- ===== src/Roles/Scope.antt =====
-- What core/rbac.py lets a user reach.
use deploy_hub.Prelude.{
  ℕ, String, ◌≡◌, refl, sym, ap, ◌∙◌, Bool, true, ◌&&◌, ◌||◌, Option, none, some, List, [], ◌∷◌,
  ◌==◌, arith, str_eq, first, filter, any, is_some, Option-cases, Bool-cases, inl, inr,
}
use deploy_hub.Roles.{
  User, Workspace, Membership, Tenants, is_staff_user, is_member, bootstrap, workspace_membership,
  if_member, is_named, resolve_workspace, capabilities_for, user_capabilities, has_capability,
  scope_queryset, scoped_get, got, get_object_or_404,
}
use deploy_hub.Roles.Table.{Capability, has}

-- The user is logged in, and is a member of the workspace or of the staff, on the workspace "default".
unfoldable pub may_enter : Tenants → User → Workspace → Bool
may_enter t user w =
    user.is_authenticated
    && (any (is_member user w) t.memberships || (str_eq w.slug "default" && is_staff_user user))

first-any : (p : Membership → Bool) (rows : List Membership) → is_some (first p rows) ≡ any p rows
first-any p [] = refl
first-any p (m ∷ rows) = ground (arith, first-any p rows)

pub membership_lem :
    (t : Tenants) (user : User) (w : Workspace)
    → is_some (workspace_membership t user w) ≡ may_enter t user w
unfolding workspace_membership may_enter bootstrap
membership_lem t user w = ground (arith, first-any (is_member user w) t.memberships)

-- A user who has any capability in a workspace is logged in, and is a member of that very workspace or,
-- on the workspace "default", of the staff.
pub has_capability-may_enter :
    (hud : Bool) (t : Tenants) (user : User) (c : Capability) (w : Workspace)
    → has_capability hud t user c (some w) ≡ true
    → may_enter t user w ≡ true
unfolding has_capability user_capabilities capabilities_for has
has_capability-may_enter hud t user c w h = ground (arith, h, membership_lem t user w)

own_member :
    (user : User) (m : Membership) (rows : List Membership)
    → first (λ (x : Membership). x.user == user.pk) rows ≡ some m
    → any (is_member user m.workspace) rows ≡ true
unfolding is_member
own_member user m [] e = absurd (cc)
own_member user m (x ∷ rows) e = ground (arith, own_member user m rows)

if_member-may_enter :
    (t : Tenants) (user : User) (found : Option Workspace) (w : Workspace)
    → if_member t user found ≡ some w
    → may_enter t user w ≡ true
unfolding if_member
if_member-may_enter t user none w e = absurd (cc)
if_member-may_enter t user (some x) w e = ground (arith, membership_lem t user x)

own-may_enter :
    (t : Tenants) (user : User) (m : Membership)
    → user.is_authenticated ≡ true
    → first (λ (x : Membership). x.user == user.pk) t.memberships ≡ some m
    → may_enter t user m.workspace ≡ true
unfolding may_enter
own-may_enter t user m a e = ground (arith, a, own_member user m t.memberships e)

-- A workspace that is resolved, from a reference or without one, is one that the user may enter.
pub resolve_workspace-may_enter :
    (t : Tenants) (user : User) (ref : String) (w : Workspace)
    → resolve_workspace t user ref ≡ some w
    → may_enter t user w ≡ true
unfolding resolve_workspace
resolve_workspace-may_enter t user ref w e =
    let own : Membership → Bool = λ (x : Membership). x.user == user.pk in
    let found = first (is_named ref) t.workspaces in
    elim (Bool-cases user.is_authenticated) [
      | inr a ↦ absurd (ground (arith, a, e))
      | inl a ↦ elim (Bool-cases (str_eq ref "")) [
        | inr r ↦ if_member-may_enter t user found w (ground (arith, a, r, e))
        | inl r ↦ elim (Option-cases (first own t.memberships)) [
          | inl f ↦ if_member-may_enter t user (some t.standard) w (ground (arith, a, r, f, e))
          | inr (m, f) ↦ ground (arith, a, r, f, e, own-may_enter t user m a f)
        ]
      ]
    ]

module _ {ℓ} {A : Type ℓ} (workspace_of : A → ℕ) where
  -- Whatever is left of a list that was filtered passes the test.
  filter_holds :
      (p : A → Bool) (rows : List A) (x : A) (rest : List A) → filter p rows ≡ x ∷ rest → p x ≡ true
  filter_holds p [] x rest e = absurd (cc)
  filter_holds p (y ∷ rows) x rest e = ground (arith, filter_holds p rows x rest, e)

  filter-filter :
      (p lookup : A → Bool) (rows : List A)
      → filter lookup (filter p rows) ≡ filter (λ (x : A). p x && lookup x) rows
  filter-filter p lookup [] = refl
  filter-filter p lookup (y ∷ rows) = ground (arith, filter-filter p lookup rows)

  got_alone : (found : List A) (x : A) → get_object_or_404 found ≡ got x → found ≡ x ∷ []
  unfolding get_object_or_404
  got_alone [] x e = absurd (cc)
  got_alone (y ∷ []) x e = cc
  got_alone (y ∷ z ∷ found) x e = absurd (cc)

  -- A row that is got for a request belongs to a workspace that the user may enter, and is the only row
  -- of that workspace that was looked up.
  pub scoped_get-may_enter :
      (t : Tenants) (user : User) (ref : String) (lookup : A → Bool) (rows : List A) (x : A)
      → scoped_get workspace_of t user ref lookup rows ≡ got x
      → (w : Workspace) × ((may_enter t user w ≡ true)
          × (workspace_of x ≡ w.pk)
          × (lookup x ≡ true)
          × (filter (λ (y : A). workspace_of y == w.pk && lookup y) rows ≡ x ∷ []))
  unfolding scoped_get scope_queryset
  scoped_get-may_enter t user ref lookup rows x e =
      let found : Option Workspace → List A =
        λ (o : Option Workspace). filter lookup (scope_queryset workspace_of o rows) in
      let alone = got_alone (found (resolve_workspace t user ref)) x e in
      elim (Option-cases (resolve_workspace t user ref)) [
        | inl r ↦ let empty : found none ≡ x ∷ [] = sym (ap found r) ∙ alone in absurd (cc)
        | inr (w, r) ↦
            let here : A → Bool = λ (y : A). workspace_of y == w.pk in
            let only : filter (λ (y : A). here y && lookup y) rows ≡ x ∷ [] =
              sym (filter-filter here lookup rows) ∙ (sym (ap found r) ∙ alone) in
            let holds = filter_holds (λ (y : A). here y && lookup y) rows x [] only in
            (
              w,
              (
                resolve_workspace-may_enter t user ref w r,
                ground (arith, holds),
                ground (arith, holds),
                only,
              ),
            )
      ]
