-- ===== src/Reconcile/Unique.antt =====
-- Every step of reconcile/loop.py keeps the primary keys of the instances unique.
use deploy_hub.Prelude.{
  ℕ, suc, ◌≡◌, refl, Bool, Option, none, List, [], ◌∷◌, arith, inl, inr, Option-cases,
}
use deploy_hub.Prelude.Table.{find, update}
use deploy_hub.Locks.{acquire}
use deploy_hub.Reconcile.Rows.{
  Site, Instance, Observed, Action, World, audit_once, audit, put, AuditAction, Object, find_row,
}
use deploy_hub.Reconcile.{
  fail, repair, recheck, reconcile_key, reconcile_holder, braked, persist_observation,
  maybe_clear_failures, apply, repaired, tick_row, tick_rows,
}

-- The primary key.
abbrev pub UniqueIds : List Instance → Type 0
UniqueIds [] = Unit
UniqueIds (r ∷ rows) = (find_row r.pk rows ≡ none) × UniqueIds rows

absent-update :
    (j k : ℕ) (f : Instance → Instance) (rows : List Instance)
    → ((r : Instance) → (f r).pk ≡ r.pk)
    → find_row j rows ≡ none
    → find_row j (update (λ (r : Instance). r.pk) k f rows) ≡ none
unfolding find update
absent-update j k f [] keeps e = refl
absent-update j k f (x ∷ rows) keeps e = ground (arith, keeps x, absent-update j k f rows keeps)

update-UniqueIds :
    (k : ℕ) (f : Instance → Instance) (rows : List Instance)
    → ((r : Instance) → (f r).pk ≡ r.pk)
    → UniqueIds rows
    → UniqueIds (update (λ (r : Instance). r.pk) k f rows)
unfolding update
update-UniqueIds k f [] keeps u = tt
update-UniqueIds k f (x ∷ rows) keeps u =
    ground (arith, keeps x, absent-update x.pk k f rows keeps, update-UniqueIds k f rows keeps)

module _ {W : Type 0} where
  pub same-audit_once :
      (action : AuditAction) (about : Object) (w : World W)
      → (audit_once action about w).instances ≡ w.instances
  unfolding audit_once audit
  same-audit_once action about w = ground arith

  same-braked :
      (site : Site) (row : Instance) (observed : Observed) (now : ℕ) (w : World W)
      → (braked site row observed now w).1.instances ≡ w.instances
  unfolding braked audit_once audit
  same-braked site row observed now w = ground arith

  persist-UniqueIds :
      (k : ℕ) (observed : Observed) (now : ℕ) (w : World W)
      → UniqueIds w.instances
      → UniqueIds (persist_observation k observed now w).instances
  unfolding persist_observation put
  persist-UniqueIds k observed now w u = update-UniqueIds k _ w.instances (λ r. refl) u

  fail-UniqueIds :
      (row : Instance) (w : World W) → UniqueIds w.instances → UniqueIds (fail row w).instances
  unfolding fail put audit_once audit
  fail-UniqueIds row w u = ground (
    arith,
    update-UniqueIds row.pk
        (λ (r : Instance). record r { consecutive_failures = suc row.consecutive_failures })
        w.instances (λ r. refl) u,
  )

  clear-UniqueIds :
      (row : Instance) (observed : Observed) (w : World W)
      → UniqueIds w.instances
      → UniqueIds (maybe_clear_failures row observed w).instances
  unfolding maybe_clear_failures put
  clear-UniqueIds row observed w u = ground (
    arith,
    update-UniqueIds row.pk (λ (r : Instance). record r { consecutive_failures = 0 }) w.instances
        (λ r. refl) u,
  )

repaired-pk : (action : Action) (now : ℕ) (row r : Instance) → (repaired action now row r).pk ≡ r.pk
unfolding repaired
repaired-pk Action.start now row r = refl
repaired-pk Action.stop now row r = refl
repaired-pk Action.restart now row r = refl

module _ {W : Type 0} (observe : Instance → W → Option Observed)
    (act : Action → Instance → W → Bool × W) (race : World W → World W)
    (unique : (w : World W) → UniqueIds w.instances → UniqueIds (race w).instances) where
  repair-UniqueIds :
      (action : Action) (row : Instance) (now : ℕ) (w : World W)
      → UniqueIds w.instances
      → UniqueIds (repair observe act race action row now w).1.instances
  unfolding repair put audit
  repair-UniqueIds action row now w u = ground (
    arith,
    fail-UniqueIds row (record w { outside = (act action row w.outside).1 }) u,
    update-UniqueIds row.pk (repaired action now row) w.instances (repaired-pk action now row) u,
  )

  recheck-UniqueIds :
      (site : Site) (k now : ℕ) (w : World W)
      → UniqueIds w.instances
      → UniqueIds (recheck observe act race site k now w).1.instances
  unfolding recheck
  recheck-UniqueIds site k now w u = elim (Option-cases (find_row k w.instances)) [
    | inl gone ↦ ground arith
    | inr (row, there) ↦ elim (Option-cases (observe row w.outside)) [
      | inl unread ↦ ground (arith, fail-UniqueIds row w)
      | inr (observed, seen) ↦
          let w0 = persist_observation k observed now w in
          let w1 = (braked site row observed now w0).1 in
          let u1 : UniqueIds w1.instances =
            rw (same-braked site row observed now w0) (persist-UniqueIds k observed now w u) in
          ground (
            arith,
            clear-UniqueIds row observed w1 u1,
            repair-UniqueIds Action.start row now w1 u1,
            repair-UniqueIds Action.stop row now w1 u1,
            repair-UniqueIds Action.restart row now w1 u1,
          )
    ]
  ]

  apply-UniqueIds :
      (site : Site) (k now : ℕ) (w : World W)
      → UniqueIds w.instances
      → UniqueIds (apply observe act race site k now w).1.instances
  unfolding apply
  apply-UniqueIds site k now w u =
      let locks = (acquire w.clock (reconcile_key site) (reconcile_holder site) w.locks).0 in
      let w0 : World W = record w { locks = locks } in
      ground (arith, recheck-UniqueIds site k now (race w0) (unique w0 u))

  tick_row-UniqueIds :
      (site : Site) (cap now : ℕ) (row : Instance) (used : ℕ) (w : World W)
      → UniqueIds w.instances
      → UniqueIds (tick_row observe act race site cap now row used w).1.instances
  unfolding tick_row
  tick_row-UniqueIds site cap now row used w u = elim (Option-cases (observe row w.outside)) [
    | inl unread ↦ ground arith
    | inr (observed, seen) ↦
        let w0 = persist_observation row.pk observed now w in
        let w1 = (braked site row observed now w0).1 in
        let u1 : UniqueIds w1.instances =
          rw (same-braked site row observed now w0) (persist-UniqueIds row.pk observed now w u) in
        let w2 = (apply observe act race site row.pk now w1).1 in
        ground (
          arith,
          clear-UniqueIds row observed w1 u1,
          apply-UniqueIds site row.pk now w1 u1,
          same-audit_once AuditAction.flap_pause (Object.instance_row row.pk) w2,
        )
  ]

  pub tick_rows-UniqueIds :
      (site : Site) (cap now : ℕ) (rows : List Instance) (used : ℕ) (w : World W)
      → UniqueIds w.instances
      → UniqueIds (tick_rows observe act race site cap now rows used w).1.instances
  unfolding tick_rows
  tick_rows-UniqueIds site cap now [] used w u = u
  tick_rows-UniqueIds site cap now (row ∷ rows) used w u =
      let turn = tick_row observe act race site cap now row used w in
      let u1 = tick_row-UniqueIds site cap now row used w u in
      elim (Option-cases turn.0) [
        | inl raised ↦ ground arith
        | inr (m, went) ↦ ground (arith, tick_rows-UniqueIds site cap now rows m turn.1 u1)
      ]
