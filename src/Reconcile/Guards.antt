-- ===== src/Reconcile/Guards.antt =====
-- What stands before and after one repair of reconcile/loop.py.
use deploy_hub.Prelude.{
  ℕ, ◌≡◌, refl, Bool, true, false, not, Option, none, some, List, [], ◌∷◌, arith, any, filter, inl,
  inr, Option-cases, is_some,
}
use deploy_hub.Locks.{OperationLock, acquire, release, matches}
use deploy_hub.Reconcile.Rows.{
  Site, Instance, Observed, Action, World, Reason, find_row, audit, audit_once, put,
}
use deploy_hub.Reconcile.{
  plan, braked, persist_observation, deploy_lock_held, apply, recheck, repair, repaired,
  reconcile_key, reconcile_holder,
}

-- Once the action that was planned is done, the state that it leaves, under whatever reason, plans
-- nothing more: no second start or stop, and no second restart while the failures are not cleared.
pub plan-repaired :
    (row : Instance) (observed : Observed) (action : Action) (now : ℕ) (reason : Reason)
    → plan row observed ≡ some action
    → plan
        (repaired action now row row)
        (record { state = some (repaired action now row row).observed_state; reason = reason })
      ≡ none
unfolding plan repaired
plan-repaired row observed Action.start now reason e = elim (Option-cases observed.state) [
  | inl no_state ↦ ground arith
  | inr (s, is_state) ↦ ground arith
]
plan-repaired row observed Action.stop now reason e = ground arith
plan-repaired row observed Action.restart now reason e = ground arith

any-filter-not :
    (p : OperationLock → Bool) (t : List OperationLock) → any p (filter (λ r. not (p r)) t) ≡ false
any-filter-not p [] = refl
any-filter-not p (r ∷ t) = ground (arith, any-filter-not p t)

module _ {W : Type 0} (observe : Instance → W → Option Observed)
    (act : Action → Instance → W → Bool × W) (race : World W → World W) where
  -- The world that the re-check sees: the lock is taken, and others have had their turn.
  abbrev pub locked : Site → World W → World W
  locked site w = race (record w {
    locks = (acquire w.clock (reconcile_key site) (reconcile_holder site) w.locks).0;
  })

  -- A repair that was granted its lock gives it back, whether it repairs, gives up or raises.
  pub apply-frees_lock :
      (site : Site) (k now : ℕ) (w : World W)
      → is_some (acquire w.clock (reconcile_key site) (reconcile_holder site) w.locks).1 ≡ true
      → any
          (matches (reconcile_key site) (some (reconcile_holder site)))
          (apply observe act race site k now w).1.locks
        ≡ false
  unfolding apply release
  apply-frees_lock site k now w granted = ground (
    arith,
    any-filter-not (matches (reconcile_key site) (some (reconcile_holder site)))
        (recheck observe act race site k now (locked site w)).1.locks,
  )

  -- What was so when a command was run.
  pub record IsCleared (site : Site) (k now : ℕ) (w : World W) : Type 0 where
    pub row : Instance
    pub observed : Observed
    pub action : Action
    pub stored : find_row k w.instances ≡ some row
    pub seen : observe row w.outside ≡ some observed
    pub unbraked : (braked site row observed now (persist_observation k observed now w)).0 ≡ false
    pub planned : plan row observed ≡ some action
    pub undeployed : deploy_lock_held site row w ≡ false
    pub own : any (matches (reconcile_key site) (some (reconcile_holder site))) w.locks ≡ true
    pub came_through : (act action row w.outside).0 ≡ true

  pub braked_same :
      (site : Site) (row : Instance) (observed : Observed) (now : ℕ) (w : World W)
      → ((braked site row observed now w).1.locks ≡ w.locks)
        × ((braked site row observed now w).1.outside ≡ w.outside)
  unfolding braked audit_once audit
  braked_same site row observed now w = ground arith

  held_same :
      (site : Site) (row : Instance) (w w' : World W)
      → w'.locks ≡ w.locks
      → deploy_lock_held site row w' ≡ deploy_lock_held site row w
  unfolding deploy_lock_held
  held_same site row w w' e = rw (e) refl

  repair_done :
      (action : Action) (row : Instance) (now : ℕ) (w : World W)
      → (repair observe act race action row now w).0 ≡ (act action row w.outside).0
  unfolding repair
  repair_done action row now w = ground arith

  recheck-IsCleared :
      (site : Site) (k now : ℕ) (w : World W)
      → (recheck observe act race site k now w).0 ≡ some true
      → IsCleared site k now w
  unfolding recheck persist_observation put
  recheck-IsCleared site k now w e = elim (Option-cases (find_row k w.instances)) [
    | inl gone ↦ absurd (ground arith)
    | inr (row, there) ↦ elim (Option-cases (observe row w.outside)) [
      | inl unread ↦ absurd (ground arith)
      | inr (observed, seen) ↦
          let w0 = persist_observation k observed now w in
          let w1 = (braked site row observed now w0).1 in
          let same = braked_same site row observed now w0 in
          elim (Option-cases (plan row observed)) [
            | inl idle ↦ absurd (ground arith)
            | inr (action, planned) ↦ record {
              row = row;
              observed = observed;
              action = action;
              stored = there;
              seen = seen;
              unbraked = ground arith;
              planned = planned;
              undeployed = ground (arith, held_same site row w w1 same.0);
              own = ground (arith, same);
              came_through = ground (arith, repair_done action row now w1, same);
            }
          ]
    ]
  ]

  -- A repair that reports a mutation ran the command that is planned for the row and the state as they
  -- were read again under the reconcile lock, when no brake was on, no deploy held a lock of the site or
  -- of the row's target, and the reconcile lock was still its own; and the command came through.
  pub apply-IsCleared :
      (site : Site) (k now : ℕ) (w : World W)
      → (apply observe act race site k now w).0 ≡ some true
      → IsCleared site k now (locked site w)
  unfolding apply
  apply-IsCleared site k now w e = recheck-IsCleared site k now (locked site w) (ground arith)
