-- ===== src/Deploy/Begin/Holders.antt =====
-- Who holds a deploy lock after each of these operations.
use deploy_hub.Prelude.{
  ℕ, ◌≡◌, refl, Bool, true, false, Option, none, some, List, [], ◌∷◌, arith, if◌then◌else◌, filter,
  any, Option-cases, inl, inr,
}
use deploy_hub.Locks.{
  OperationLock, Key, Kind, Ident, kind_eq, ident_eq, ident_eq_iff, key_eq, key_eq_iff, release,
  at_key,
}
use deploy_hub.Locks.Table.{IsUnique, release-IsUnique}
use deploy_hub.Locks.Map.{holder_of, release-free_own}
use deploy_hub.Deploy.State.{Hub}
use deploy_hub.Deploy.Begin.{held_by, release_each, release_deploy_locks}

abbrev pub holds : Ident → Option Ident → Bool
holds h none = false
holds h (some x) = ident_eq x h

-- What is left of a holder when `h` lets go.
abbrev pub let_go : Ident → Option Ident → Option Ident
let_go h o = if holds h o then none else o

pub release_each-IsUnique :
    (h : Ident) (rows t : List OperationLock) → IsUnique t → IsUnique (release_each h rows t)
unfolding release_each
release_each-IsUnique h [] t u = u
release_each-IsUnique h (r ∷ rows) t u =
    release_each-IsUnique h rows (release r.key (some h) t).0 (release-IsUnique r.key (some h) t u)

let_go_idem : (h : Ident) (o : Option Ident) → let_go h (let_go h o) ≡ let_go h o
let_go_idem h none = refl
let_go_idem h (some x) = ground arith

release-let_go :
    (k j : Key) (h : Ident) (t : List OperationLock)
    → IsUnique t
    → holder_of (release k (some h) t).0 j
      ≡ (if key_eq k j then let_go h (holder_of t j) else holder_of t j)
release-let_go k j h t u = elim (Option-cases (holder_of t k)) [
  | inl e ↦ ground (arith, release-free_own k j h t u, key_eq_iff k j)
  | inr e ↦ ground (arith, release-free_own k j h t u, key_eq_iff k j)
]

holder_of-release_each :
    (h : Ident) (j : Key) (rows t : List OperationLock)
    → IsUnique t
    → holder_of (release_each h rows t) j
      ≡ (if any (at_key j) rows then let_go h (holder_of t j) else holder_of t j)
unfolding release_each at_key
holder_of-release_each h j [] t u = refl
holder_of-release_each h j (r ∷ rows) t u = ground (
  arith,
  holder_of-release_each h j rows (release r.key (some h) t).0
      (release-IsUnique r.key (some h) t u),
  release-let_go r.key j h t u,
  let_go_idem h (holder_of t j),
)

any-held_by :
    (k : ℕ) (j : Key) (t : List OperationLock)
    → (kind_eq j.kind Kind.deploy ≡ false → any (at_key j) (filter (held_by k) t) ≡ false)
      × (kind_eq j.kind Kind.deploy ≡ true
          → holds (Ident.pk k) (holder_of t j) ≡ true
          → any (at_key j) (filter (held_by k) t) ≡ true)
unfolding held_by at_key holder_of
any-held_by k j [] = ground arith
any-held_by k j (r ∷ t) =
    ground (arith, any-held_by k j t, key_eq_iff r.key j, ident_eq_iff r.holder (Ident.pk k))

-- Exactly the deploy locks of this deployment are freed.
pub holder_of-release_deploy_locks :
    {W : Type 0} (k : ℕ) (j : Key) (hub : Hub W)
    → IsUnique hub.locks
    → holder_of (release_deploy_locks k hub).locks j ≡ (
        if kind_eq j.kind Kind.deploy
        then let_go (Ident.pk k) (holder_of hub.locks j)
        else holder_of hub.locks j)
unfolding release_deploy_locks
holder_of-release_deploy_locks k j hub u = ground (
  arith,
  holder_of-release_each (Ident.pk k) j (filter (held_by k) hub.locks) hub.locks u,
  any-held_by k j hub.locks,
)
