-- ===== src/Reconcile/Budget.antt =====
-- The mutation budgets of reconcile/loop.py and reconcile/tasks.py.
use deploy_hub.Prelude.{
  ℕ, suc, ◌+◌, ◌≤◌, ◌≡◌, refl, ap, sym, ◌∙◌, Bool, true, false, ◌&&◌, Option, none, some, List, [],
  ◌∷◌, ◌++◌, ◌==◌, arith, if◌then◌else◌, filter, inl, inr, Option-cases,
}
use deploy_hub.Reconcile.Rows.{
  Site, Instance, Observed, Action, World, audit_once, audit, put, AuditAction, Object, Event,
  action_eq, find_row,
}
use deploy_hub.Locks.{acquire}
use deploy_hub.Reconcile.{
  fail, repair, recheck, reconcile_key, reconcile_holder, braked, persist_observation,
  maybe_clear_failures, apply, tick_row, tick_rows, tick, mutation_budget,
}

-- The repairs in the audit trail.
abbrev pub count_repairs : List Event → ℕ
count_repairs [] = 0
count_repairs (e ∷ events) =
    let rest = count_repairs events in
    if action_eq e.action AuditAction.repair then suc rest else rest

abbrev pub repairs : {W : Type 0} → World W → ℕ
repairs w = count_repairs w.audits

pub count_repairs-append :
    (events : List Event) (e : Event)
    → count_repairs (events ++ e ∷ []) ≡ (
        if action_eq e.action AuditAction.repair
        then suc (count_repairs events)
        else count_repairs events)
count_repairs-append [] e = ground arith
count_repairs-append (x ∷ events) e = ground (arith, count_repairs-append events e)

module _ {W : Type 0} where
  pub repairs-audit_once :
      (action : AuditAction) (about : Object) (w : World W)
      → action_eq action AuditAction.repair ≡ false
      → repairs (audit_once action about w) ≡ repairs w
  unfolding audit_once audit
  repairs-audit_once action about w other = ground (
    arith,
    count_repairs-append w.audits
        (record { ts = w.clock; action = action; about = about; op = none }),
  )

  repairs-braked :
      (site : Site) (row : Instance) (observed : Observed) (now : ℕ) (w : World W)
      → repairs (braked site row observed now w).1 ≡ repairs w
  unfolding braked action_eq
  repairs-braked site row observed now w = ground (
    arith,
    repairs-audit_once AuditAction.disabled (Object.site_row site.pk) w refl,
    repairs-audit_once AuditAction.data_stale (Object.instance_row row.pk) w refl,
    repairs-audit_once AuditAction.upstream_down (Object.instance_row row.pk) w refl,
    repairs-audit_once AuditAction.backoff (Object.instance_row row.pk) w refl,
  )

  repairs-fail : (row : Instance) (w : World W) → repairs (fail row w) ≡ repairs w
  unfolding fail put action_eq
  repairs-fail row w =
      let failed : World W =
        put row.pk
          (λ (r : Instance). record r { consecutive_failures = suc row.consecutive_failures }) w in
      ground
        (arith, repairs-audit_once AuditAction.backoff (Object.instance_row row.pk) failed refl)

  repairs-clear :
      (row : Instance) (observed : Observed) (w : World W)
      → repairs (maybe_clear_failures row observed w) ≡ repairs w
  unfolding maybe_clear_failures put
  repairs-clear row observed w = ground arith

abbrev one_if : Bool → ℕ
one_if true = 1
one_if false = 0

module _ {W : Type 0} (observe : Instance → W → Option Observed)
    (act : Action → Instance → W → Bool × W) (race : World W → World W) where
  repairs-repair :
      (action : Action) (row : Instance) (now : ℕ) (w : World W)
      → repairs (repair observe act race action row now w).1
        ≡ repairs w + one_if (repair observe act race action row now w).0
  unfolding repair audit put action_eq
  repairs-repair action row now w = ground (
    arith,
    repairs-fail row (record w { outside = (act action row w.outside).1 }),
    count_repairs-append w.audits (record {
      ts = w.clock;
      action = AuditAction.repair;
      about = Object.instance_row row.pk;
      op = some action;
    }),
  )

  tick_row_budget :
      (site : Site) (cap now : ℕ) (row : Instance) (used n : ℕ) (w : World W)
      → used ≤ cap
      → (tick_row observe act race site cap now row used w).0 ≡ some n
      → n ≤ cap
  unfolding tick_row
  tick_row_budget site cap now row used n w le e = ground arith

  tick_rows_next :
      (site : Site) (cap now : ℕ) (row : Instance) (rows : List Instance) (used m : ℕ) (w : World W)
      → (tick_row observe act race site cap now row used w).0 ≡ some m
      → tick_rows observe act race site cap now (row ∷ rows) used w
        ≡ tick_rows observe act race site cap now rows m
            (tick_row observe act race site cap now row used w).1
  unfolding tick_rows
  tick_rows_next site cap now row rows used m w went = rw (tick_rows, went) refl

  tick_rows_budget :
      (site : Site) (cap now : ℕ) (rows : List Instance) (used n : ℕ) (w : World W)
      → used ≤ cap
      → (tick_rows observe act race site cap now rows used w).0 ≡ some n
      → n ≤ cap
  unfolding tick_rows
  tick_rows_budget site cap now [] used n w le e = ground arith
  tick_rows_budget site cap now (row ∷ rows) used n w le e =
      let turn = tick_row observe act race site cap now row used w in
      elim (Option-cases turn.0) [
        | inl none_left ↦ ground arith
        | inr (m, went) ↦
            tick_rows_budget site cap now rows m n turn.1
              (tick_row_budget site cap now row used m w le went)
              (ap (λ (x : Option ℕ × World W). x.0)
                  (sym (tick_rows_next site cap now row rows used m w went))
                ∙ e)
      ]

abbrev made : Option Bool → ℕ
made none = 0
made (some done) = one_if done

module _ {W : Type 0} (observe : Instance → W → Option Observed)
    (act : Action → Instance → W → Bool × W) (race : World W → World W)
    (quiet : (w : World W) → repairs (race w) ≡ repairs w) where
  repairs-recheck :
      (site : Site) (k now : ℕ) (w : World W)
      → repairs (recheck observe act race site k now w).1
        ≡ repairs w + made (recheck observe act race site k now w).0
  unfolding recheck persist_observation put
  repairs-recheck site k now w = elim (Option-cases (find_row k w.instances)) [
    | inl gone ↦ ground arith
    | inr (row, there) ↦ elim (Option-cases (observe row w.outside)) [
      | inl unread ↦ ground (arith, repairs-fail row w)
      | inr (observed, seen) ↦
          let w0 = persist_observation k observed now w in
          let w1 = (braked site row observed now w0).1 in
          ground (
            arith,
            repairs-braked site row observed now w0,
            repairs-clear row observed w1,
            repairs-repair observe act race Action.start row now w1,
            repairs-repair observe act race Action.stop row now w1,
            repairs-repair observe act race Action.restart row now w1,
          )
    ]
  ]

  repairs-apply :
      (site : Site) (k now : ℕ) (w : World W)
      → repairs (apply observe act race site k now w).1
        ≡ repairs w + made (apply observe act race site k now w).0
  unfolding apply acquire
  repairs-apply site k now w =
      let locks = (acquire w.clock (reconcile_key site) (reconcile_holder site) w.locks).0 in
      let w0 : World W = record w { locks = locks } in
      ground (arith, quiet w0, repairs-recheck site k now (race w0))

  pub repairs-tick_row :
      (site : Site) (cap now : ℕ) (row : Instance) (used : ℕ) (w : World W)
      → used + repairs (tick_row observe act race site cap now row used w).1
        ≡ repairs w
          + elim (tick_row observe act race site cap now row used w).0 [ none ↦ used | some n ↦ n ]
  unfolding tick_row persist_observation put action_eq
  repairs-tick_row site cap now row used w = elim (Option-cases (observe row w.outside)) [
    | inl unread ↦ ground arith
    | inr (observed, seen) ↦
        let w0 = persist_observation row.pk observed now w in
        let w1 = (braked site row observed now w0).1 in
        let w2 = (apply observe act race site row.pk now w1).1 in
        ground (
          arith,
          repairs-braked site row observed now w0,
          repairs-clear row observed w1,
          repairs-apply site row.pk now w1,
          repairs-audit_once AuditAction.flap_pause (Object.instance_row row.pk) w2 refl,
        )
  ]

  repairs-tick_rows :
      (site : Site) (cap now : ℕ) (rows : List Instance) (used : ℕ) (w : World W)
      → used ≤ cap
      → used + repairs (tick_rows observe act race site cap now rows used w).1
        ≤ repairs w
          + elim (tick_rows observe act race site cap now rows used w).0 [ none ↦ cap | some n ↦ n ]
  unfolding tick_rows
  repairs-tick_rows site cap now [] used w le = ground arith
  repairs-tick_rows site cap now (row ∷ rows) used w le =
      let turn = tick_row observe act race site cap now row used w in
      let counted = repairs-tick_row site cap now row used w in
      elim (Option-cases turn.0) [
        | inl left ↦ ground arith
        | inr (m, went) ↦ rw (tick_rows_next observe act race site cap now row rows used m w went) (
            let later =
              repairs-tick_rows site cap now rows m turn.1
                (tick_row_budget observe act race site cap now row used m w le went) in
            ground arith)
      ]

  counted-tick_rows :
      (site : Site) (cap now : ℕ) (rows : List Instance) (used n : ℕ) (w : World W)
      → (tick_rows observe act race site cap now rows used w).0 ≡ some n
      → used + repairs (tick_rows observe act race site cap now rows used w).1 ≡ repairs w + n
  unfolding tick_rows
  counted-tick_rows site cap now [] used n w e = ground arith
  counted-tick_rows site cap now (row ∷ rows) used n w e =
      let turn = tick_row observe act race site cap now row used w in
      let counted = repairs-tick_row site cap now row used w in
      elim (Option-cases turn.0) [
        | inl left ↦ ground arith
        | inr (m, went) ↦
            let next = tick_rows_next observe act race site cap now row rows used m w went in
            let later =
              counted-tick_rows site cap now rows m n turn.1
                (ap (λ (x : Option ℕ × World W). x.0) (sym next) ∙ e) in
            rw (next) (ground arith)
      ]

  -- If no race writes a repair into the audit trail: a tick, whether it returns or raises, adds to the
  -- trail at most as many repairs as it is allowed, two by default, and a tick that returns a count of
  -- mutations has added exactly that many.
  pub tick-repairs :
      (enabled : Bool) (site : Site) (now : ℕ) (budget instance_pk : Option ℕ) (w : World W)
      → let run = tick observe act race enabled site now budget instance_pk w in
        (repairs run.1 ≤ repairs w + elim budget [ none ↦ mutation_budget | some most ↦ most ])
        × (repairs run.1 ≡ elim run.0 [ none ↦ repairs run.1 | some n ↦ repairs w + n ])
  unfolding tick action_eq
  tick-repairs enabled site now budget instance_pk w =
      let most : ℕ = elim budget [ none ↦ mutation_budget | some n ↦ n ] in
      let wanted : Instance → Bool = λ r. elim instance_pk [ none ↦ true | some k ↦ r.pk == k ] in
      let rows = filter (λ (r : Instance). (r.site == site.pk) && wanted r) w.instances in
      let run = tick_rows observe act race site most now rows 0 w in
      let off = repairs-audit_once AuditAction.globally_disabled Object.nothing w refl in
      elim (Option-cases run.0) [
        | inl left ↦ ground (arith, off, repairs-tick_rows site most now rows 0 w (omega arith))
        | inr (n, went) ↦ ground (
          arith,
          off,
          repairs-tick_rows site most now rows 0 w (omega arith),
          counted-tick_rows site most now rows 0 n w went,
          tick_rows_budget observe act race site most now rows 0 n w (omega arith) went,
        )
      ]
