-- ===== src/Reconcile/Global.antt =====
-- The budget of tick_all of reconcile/tasks.py, over all the sites. A tick there has one instance, so
-- that one that raises has repaired nothing.
use deploy_hub.Prelude.{
  ℕ, ◌+◌, ◌-◌, ◌≡◌, refl, Bool, true, false, ◌&&◌, Option, none, some, List, [], ◌∷◌, ◌==◌, arith,
  filter, inl, inr, Option-cases,
}
use deploy_hub.Prelude.Table.{find}
use deploy_hub.Reconcile.Rows.{
  Site, Instance, Observed, Action, World, audit, AuditAction, Object, action_eq, find_row,
}
use deploy_hub.Reconcile.{tick_rows, tick, tick_each, tick_all, global_mutation_budget}
use deploy_hub.Reconcile.Budget.{
  repairs, repairs-tick_row, repairs-audit_once, count_repairs-append, tick-repairs,
}
use deploy_hub.Reconcile.Unique.{UniqueIds, same-audit_once, tick_rows-UniqueIds}

-- The rows of one primary key.
abbrev wanted : ℕ → ℕ → Instance → Bool
wanted site k r = (r.site == site) && (r.pk == k)

filter_absent :
    (site k : ℕ) (rows : List Instance) → find_row k rows ≡ none → filter (wanted site k) rows ≡ []
unfolding find
filter_absent site k [] e = refl
filter_absent site k (x ∷ rows) e = ground (arith, filter_absent site k rows)

abbrev at_most_one : List Instance → Bool
at_most_one [] = true
at_most_one (r ∷ []) = true
at_most_one (r ∷ s ∷ rows) = false

filter_one :
    (site k : ℕ) (rows : List Instance)
    → UniqueIds rows
    → at_most_one (filter (wanted site k) rows) ≡ true
filter_one site k [] u = refl
filter_one site k (x ∷ rows) u = ground (arith, filter_absent site k rows, filter_one site k rows)

module _ {W : Type 0} (observe : Instance → W → Option Observed)
    (act : Action → Instance → W → Bool × W) (race : World W → World W)
    (unique : (w : World W) → UniqueIds w.instances → UniqueIds (race w).instances) where
  tick-UniqueIds :
      (enabled : Bool) (site : Site) (now cap k : ℕ) (w : World W)
      → UniqueIds w.instances
      → UniqueIds (tick observe act race enabled site now (some cap) (some k) w).1.instances
  unfolding tick
  tick-UniqueIds enabled site now cap k w u = ground (
    arith,
    same-audit_once AuditAction.globally_disabled Object.nothing w,
    tick_rows-UniqueIds observe act race unique site cap now (filter (wanted site.pk k) w.instances)
        0 w u,
  )

  module _ (quiet : (w : World W) → repairs (race w) ≡ repairs w) where
    repairs-one :
        (site : Site) (cap now : ℕ) (rows : List Instance) (w : World W)
        → at_most_one rows ≡ true
        → repairs (tick_rows observe act race site cap now rows 0 w).1
          ≡ repairs w
            + elim (tick_rows observe act race site cap now rows 0 w).0 [ none ↦ 0 | some n ↦ n ]
    unfolding tick_rows
    repairs-one site cap now [] w one = ground arith
    repairs-one site cap now (row ∷ []) w one =
        ground (arith, repairs-tick_row observe act race quiet site cap now row 0 w)
    repairs-one site cap now (row ∷ s ∷ rows) w one = absurd (cc)

    repairs-tick_one :
        (enabled : Bool) (site : Site) (now cap k : ℕ) (w : World W)
        → UniqueIds w.instances
        → repairs (tick observe act race enabled site now (some cap) (some k) w).1
          ≡ repairs w + elim (tick observe act race enabled site now (some cap) (some k) w).0 [
            | none ↦ 0
            | some n ↦ n
          ]
    unfolding tick action_eq
    repairs-tick_one enabled site now cap k w u = ground (
      arith,
      repairs-audit_once AuditAction.globally_disabled Object.nothing w refl,
      repairs-one site cap now (filter (wanted site.pk k) w.instances) w
          (filter_one site.pk k w.instances u),
    )

    repairs-tick_each :
        (enabled : Bool) (sites : ℕ → Site) (now : ℕ) (rows : List Instance) (remaining : ℕ)
        (w : World W)
        → UniqueIds w.instances
        → (tick_each observe act race enabled sites now rows remaining w).0
            + repairs (tick_each observe act race enabled sites now rows remaining w).1
          ≡ remaining + repairs w
    unfolding tick_each audit action_eq
    repairs-tick_each enabled sites now [] remaining w u = refl
    repairs-tick_each enabled sites now (row ∷ rows) remaining w u =
        let run =
          tick observe act race enabled (sites row.site) now (some remaining) (some row.pk) w in
        let counted = repairs-tick_one enabled (sites row.site) now remaining row.pk w u in
        let bounded =
          tick-repairs observe act race quiet enabled (sites row.site) now (some remaining)
            (some row.pk) w in
        let u1 = tick-UniqueIds enabled (sites row.site) now remaining row.pk w u in
        elim (Option-cases run.0) [
          | inl raised ↦
              let noted = audit AuditAction.tick_failed (Object.instance_row row.pk) none run.1 in
              ground (
                arith,
                count_repairs-append run.1.audits (record {
                  ts = run.1.clock;
                  action = AuditAction.tick_failed;
                  about = Object.instance_row row.pk;
                  op = none;
                }),
                repairs-tick_each enabled sites now rows remaining noted u1,
              )
          | inr (n, went) ↦ ground (
            arith,
            bounded,
            counted,
            repairs-tick_each enabled sites now rows (remaining - n) run.1 u1,
          )
        ]

    -- If no race writes a repair into the audit trail or doubles a primary key: over all the sites, what
    -- is left of the budget and the repairs that were added to the trail make up the budget, three by
    -- default, whichever ticks raised. So there are never more repairs than the budget.
    pub repairs-tick_all :
        (enabled : Bool) (sites : ℕ → Site) (now : ℕ) (budget : Option ℕ) (w : World W)
        → UniqueIds w.instances
        → (tick_all observe act race enabled sites now budget w).0
            + repairs (tick_all observe act race enabled sites now budget w).1
          ≡ elim budget [ none ↦ global_mutation_budget | some n ↦ n ] + repairs w
    unfolding tick_all
    repairs-tick_all enabled sites now budget w u =
        repairs-tick_each enabled sites now w.instances
          (elim budget [ none ↦ global_mutation_budget | some n ↦ n ]) w u
