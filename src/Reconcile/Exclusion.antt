-- ===== src/Reconcile/Exclusion.antt =====
-- The reconcile lock of a site shuts out a second reconciler, in reconcile/loop.py.
use deploy_hub.Prelude.{
  ℕ, ◌≡◌, refl, Bool, true, false, ◌&&◌, Option, none, some, List, [], ◌∷◌, ◌==◌, arith, any,
  filter, inl, inr, Option-cases,
}
use deploy_hub.Locks.{acquire, at_key}
use deploy_hub.Reconcile.Rows.{Site, Instance, Observed, Action, World, audit_once, audit, put}
use deploy_hub.Reconcile.{
  reconcile_key, braked, persist_observation, maybe_clear_failures, apply, tick_row, tick_rows,
  tick, mutation_budget,
}
use deploy_hub.Reconcile.Guards.{braked_same}

module _ {W : Type 0} (observe : Instance → W → Option Observed)
    (act : Action → Instance → W → Bool × W) (race : World W → World W) where
  apply_shut :
      (site : Site) (k now : ℕ) (w : World W)
      → any (at_key (reconcile_key site)) w.locks ≡ true
      → apply observe act race site k now w ≡ (some false, w)
  unfolding apply acquire
  apply_shut site k now w held = ground arith

  clear_same :
      (row : Instance) (observed : Observed) (w : World W)
      → ((maybe_clear_failures row observed w).locks ≡ w.locks)
        × ((maybe_clear_failures row observed w).outside ≡ w.outside)
  unfolding maybe_clear_failures put
  clear_same row observed w = ground arith

  tick_row_shut :
      (site : Site) (cap now : ℕ) (row : Instance) (used : ℕ) (w : World W)
      → any (at_key (reconcile_key site)) w.locks ≡ true
      → ((tick_row observe act race site cap now row used w).1.locks ≡ w.locks)
        × ((tick_row observe act race site cap now row used w).1.outside ≡ w.outside)
  unfolding tick_row persist_observation put
  tick_row_shut site cap now row used w held = elim (Option-cases (observe row w.outside)) [
    | inl unread ↦ ground arith
    | inr (observed, seen) ↦
        let w0 = persist_observation row.pk observed now w in
        let w1 = (braked site row observed now w0).1 in
        let same = braked_same observe act race site row observed now w0 in
        ground (
          arith,
          same,
          clear_same row observed w1,
          apply_shut site row.pk now w1 (rw (same.0) held),
        )
  ]

  tick_rows_shut :
      (site : Site) (cap now : ℕ) (rows : List Instance) (used : ℕ) (w : World W)
      → any (at_key (reconcile_key site)) w.locks ≡ true
      → ((tick_rows observe act race site cap now rows used w).1.locks ≡ w.locks)
        × ((tick_rows observe act race site cap now rows used w).1.outside ≡ w.outside)
  unfolding tick_rows
  tick_rows_shut site cap now [] used w held = (refl, refl)
  tick_rows_shut site cap now (row ∷ rows) used w held =
      let turn = tick_row observe act race site cap now row used w in
      let same = tick_row_shut site cap now row used w held in
      elim (Option-cases turn.0) [
        | inl raised ↦ ground arith
        | inr (m, went) ↦
            ground (arith, same, tick_rows_shut site cap now rows m turn.1 (rw (same.0) held))
      ]

  -- While there is a reconcile lock of the site, whoever holds it and however old it is, a tick
  -- leaves what is outside the hub, and the locks, as they are.
  pub tick_shut :
      (enabled : Bool) (site : Site) (now : ℕ) (budget instance_pk : Option ℕ) (w : World W)
      → any (at_key (reconcile_key site)) w.locks ≡ true
      → ((tick observe act race enabled site now budget instance_pk w).1.locks ≡ w.locks)
        × ((tick observe act race enabled site now budget instance_pk w).1.outside ≡ w.outside)
  unfolding tick audit_once audit
  tick_shut enabled site now budget instance_pk w held =
      let most : ℕ = elim budget [ none ↦ mutation_budget | some n ↦ n ] in
      let wanted : Instance → Bool = λ r. elim instance_pk [ none ↦ true | some k ↦ r.pk == k ] in
      ground (
        arith,
        tick_rows_shut site most now
            (filter (λ (r : Instance). (r.site == site.pk) && wanted r) w.instances) 0 w held,
      )
