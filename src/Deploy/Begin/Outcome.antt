-- ===== src/Deploy/Begin/Outcome.antt =====
-- begin_deploy, granted and refused.
use deploy_hub.Prelude.{ℕ, ◌≡◌, refl, true, false, some, List, [], ◌∷◌, arith, any}
use mathlib.Core.Option
use deploy_hub.Prelude.Table.{find, update}
use deploy_hub.Locks
use deploy_hub.Locks.{
  Scope, Ident, OperationLock, Key, acquire, release, key_eq, key_eq_iff, ident_eq_iff,
}
use deploy_hub.Locks.Table.{IsUnique, acquire-IsUnique, release-IsUnique}
use deploy_hub.Locks.Map.{holder_of, acquire-take_free, acquire-refused, acquire-release}
use deploy_hub.Deploy.State.{
  superseded, Deployment, Hub, put, get, set_status, site_of, persist_steps,
}
use deploy_hub.Deploy.Begin.{
  release_deploy_locks, supersede_each, supersede_running, is_rival, start_row, begin_on, take_both,
  deploy_key,
}
use deploy_hub.Deploy.Begin.Rivals.{
  any-supersede_running, get-supersede_running, supersede_running-IsUnique,
}

start_row_keeps :
    (now : ℕ) (d : Deployment)
    → ((start_row now d).pk ≡ d.pk) × ((start_row now d).manifest ≡ d.manifest)
unfolding persist_steps
start_row_keeps now d = ground arith

any-rival-update :
    (site k now : ℕ) (rows : List Deployment)
    → any (is_rival site k) (update (λ (d : Deployment). d.pk) k (start_row now) rows)
      ≡ any (is_rival site k) rows
unfolding update is_rival
any-rival-update site k now [] = refl
any-rival-update site k now (d ∷ rows) =
    ground (arith, any-rival-update site k now rows, start_row_keeps now d)

find-update_self :
    (k now : ℕ) (rows : List Deployment)
    → find (λ (d : Deployment). d.pk) k (update (λ (d : Deployment). d.pk) k (start_row now) rows)
      ≡ Option.map (start_row now) (find (λ (d : Deployment). d.pk) k rows)
unfolding find update
find-update_self k now [] = refl
find-update_self k now (d ∷ rows) =
    ground (arith, find-update_self k now rows, start_row_keeps now d)

module _ {W : Type 0} where
  clock-supersede_each :
      (others : List Deployment) (hub : Hub W) → (supersede_each others hub).clock ≡ hub.clock
  unfolding supersede_each release_deploy_locks put
  clock-supersede_each [] hub = refl
  clock-supersede_each (old ∷ others) hub =
      clock-supersede_each others
        (release_deploy_locks old.pk (put old.pk (set_status superseded) hub))

module _ (now : ℕ) (a b : Key) (h : Ident) (t : List OperationLock) where
  -- Both keys are taken together or not at all.
  pub take_both-granted :
      key_eq a b ≡ false
      → (take_both now a b h t).1 ≡ true
      → (holder_of (take_both now a b h t).0 a ≡ some h)
        × (holder_of (take_both now a b h t).0 b ≡ some h)
  unfolding take_both
  take_both-granted ne g = ground (
    arith,
    acquire-take_free now a a h t,
    acquire-take_free now a b h t,
    acquire-take_free now b a h (acquire now a h t).0,
    acquire-take_free now b b h (acquire now a h t).0,
    key_eq_iff a a,
    key_eq_iff b b,
    key_eq_iff a b,
    key_eq_iff b a,
  )

  pub take_both-refused :
      (j : Key)
      → IsUnique t
      → key_eq a b ≡ false
      → (take_both now a b h t).1 ≡ false
      → holder_of (take_both now a b h t).0 j ≡ holder_of t j
  unfolding take_both
  take_both-refused j u ne g = ground (
    arith,
    acquire-refused now a h t,
    acquire-refused now b h (acquire now a h t).0,
    acquire-release now a j h t u,
  )

  pub take_both-IsUnique : IsUnique t → IsUnique (take_both now a b h t).0
  unfolding take_both
  take_both-IsUnique u =
      let u2 = acquire-IsUnique now a h t u in
      let u3 = acquire-IsUnique now b h (acquire now a h t).0 u2 in
      ground
        (arith, u2, u3, release-IsUnique a (some h) (acquire now b h (acquire now a h t).0).0 u3)

site_ne_target : (a b : ℕ) → key_eq (deploy_key Scope.site a) (deploy_key Scope.target b) ≡ false
unfolding key_eq Locks.scope_eq
site_ne_target a b = refl

target_ne_site : (a b : ℕ) → key_eq (deploy_key Scope.target a) (deploy_key Scope.site b) ≡ false
unfolding key_eq Locks.scope_eq
target_ne_site a b = refl

module _ {W : Type 0} (d : Deployment) (target : ℕ) (hub : Hub W) (u : IsUnique hub.locks) where
  -- What begin_deploy starts from, once the rivals are superseded.
  abbrev pub base : Hub W
  base = supersede_running (site_of d) d.pk hub

  -- Granted, on unique lock rows: the deployment holds the locks of its site and of its target, no other deployment of
  -- the site runs, and its row is running, with its steps there.
  pub begin_granted :
      (begin_on d target hub).0 ≡ true
      → (holder_of (begin_on d target hub).1.locks (deploy_key Scope.site (site_of d))
          ≡ some (Ident.pk d.pk))
        × (holder_of (begin_on d target hub).1.locks (deploy_key Scope.target target)
            ≡ some (Ident.pk d.pk))
        × (any (is_rival (site_of d) d.pk) (begin_on d target hub).1.deployments ≡ false)
        × (get (begin_on d target hub).1 d.pk ≡ Option.map (start_row base.clock) (get hub d.pk))
  unfolding begin_on put get
  begin_granted g =
      let site_key = deploy_key Scope.site (site_of d) in
      let target_key = deploy_key Scope.target target in
      ground (
        arith,
        take_both-granted base.clock site_key target_key (Ident.pk d.pk) base.locks
            (site_ne_target (site_of d) target),
        any-rival-update (site_of d) d.pk base.clock base.deployments,
        any-supersede_running (site_of d) d.pk hub,
        find-update_self d.pk base.clock base.deployments,
        get-supersede_running (site_of d) d.pk hub,
      )

  -- Refused, on unique lock rows: the rivals are superseded all the same, the row of the deployment is as it was, and
  -- every lock is held by whom it was held when they were gone.
  pub begin_refused :
      (j : Key)
      → (begin_on d target hub).0 ≡ false
      → (holder_of (begin_on d target hub).1.locks j ≡ holder_of base.locks j)
        × ((begin_on d target hub).1.deployments ≡ base.deployments)
        × (get (begin_on d target hub).1 d.pk ≡ get hub d.pk)
  unfolding begin_on get
  begin_refused j g = ground (
    arith,
    take_both-refused base.clock (deploy_key Scope.site (site_of d))
        (deploy_key Scope.target target) (Ident.pk d.pk) base.locks j
        (supersede_running-IsUnique (site_of d) d.pk hub u) (site_ne_target (site_of d) target),
    get-supersede_running (site_of d) d.pk hub,
  )
