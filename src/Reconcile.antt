-- ===== src/Reconcile.antt =====
-- reconcile/loop.py and tick_all of reconcile/tasks.py: the reconciler of desired and observed state.
-- `observe` stands for _read_observed and `act` for the docker commands: `none` and `false` when they
-- raise. `race` is what other processes commit between the lock and the re-check of one repair. The
-- audit list is in the order of its times. No row of a site is deleted under a tick, but for the race.
pub mod Rows
pub mod Budget
pub mod Unique
pub mod Global
pub mod Guards
pub mod Exclusion
pub mod Rearm
use Rows.{
  DesiredState, ObservedState, Reason, Action, Site, Instance, Observed, AuditAction, Object, Event,
  World, find_row, put, audit, audit_once, last_of, after,
}
use deploy_hub.Prelude.{
  ℕ, suc, ◌+◌, ◌-◌, Bool, true, false, not, ◌&&◌, ◌||◌, Option, none, some, List, [], ◌∷◌, ◌++◌,
  ◌==◌, ltb, leb, if◌then◌else◌, any, filter,
}
use deploy_hub.Locks.{Scope, Kind, Ident, Key, at_key, matches, acquire, release}

abbrev pub mutation_budget : ℕ
mutation_budget = 2

abbrev pub global_mutation_budget : ℕ
global_mutation_budget = 3

abbrev pub flap_window_s : ℕ
flap_window_s = 600

abbrev pub flap_cycle_limit : ℕ
flap_cycle_limit = 3

abbrev pub backoff_after : ℕ
backoff_after = 3

-- _plan
unfoldable pub plan : Instance → Observed → Option Action
plan row observed = elim observed.state [
  | none ↦ none
  | some ObservedState.warming ↦ none
  | some ObservedState.running ↦ elim row.desired_state [
    | DesiredState.running ↦ none
    | _ ↦ some Action.stop
  ]
  | some ObservedState.unhealthy ↦ elim row.desired_state [
    | DesiredState.running ↦ elim observed.reason [
      | Reason.listen_port_unknown ↦ none
      | _ ↦ if leb 1 row.consecutive_failures then none else some Action.restart
    ]
    | _ ↦ some Action.stop
  ]
  | some _ ↦ elim row.desired_state [ DesiredState.running ↦ some Action.start | _ ↦ none ]
]

abbrev pub is_cycle_op : Action → Bool
is_cycle_op Action.restart = false
is_cycle_op _ = true

-- {a, b} == {"start", "stop"}
unfoldable pub is_cycle : Action → Action → Bool
is_cycle Action.start Action.stop = true
is_cycle Action.stop Action.start = true
is_cycle _ _ = false

-- The scan over the start and stop operations.
unfoldable pub count_cycles : List Action → ℕ
count_cycles [] = 0
count_cycles (a ∷ []) = 0
count_cycles (a ∷ b ∷ ops) =
    let paired = count_cycles ops in
    let single = count_cycles (b ∷ ops) in if is_cycle a b then suc paired else single

unfoldable pub cycle_ops : List Event → List Action
cycle_ops [] = []
cycle_ops (e ∷ events) =
    let rest = cycle_ops events in
    elim e.op [ none ↦ rest | some op ↦ if is_cycle_op op then op ∷ rest else rest ]

module _ {W : Type 0} where
  unfoldable pub flap_paused : ℕ → World W → Bool
  flap_paused k w = elim (last_of AuditAction.flap_pause (Object.instance_row k) w.audits) [
    | none ↦ false
    | some pause ↦ elim (last_of AuditAction.rearmed (Object.instance_row k) w.audits) [
      | none ↦ true
      | some last ↦ leb last.ts pause.ts
    ]
  ]

  -- `ts >= now - FLAP_WINDOW`, and later than the last re-arm.
  unfoldable pub cycle_count : ℕ → ℕ → World W → ℕ
  cycle_count k now w =
      let last = last_of AuditAction.rearmed (Object.instance_row k) w.audits in
      count_cycles (
        cycle_ops (
          filter
            (λ (e : Event).
              Rows.is_about AuditAction.repair (Object.instance_row k) e
              && leb now (e.ts + flap_window_s)
              && after last e)
            w.audits))

  unfoldable pub persist_observation : ℕ → Observed → ℕ → World W → World W
  persist_observation k observed now w =
      put k
        (λ (r : Instance). record r {
          observed_state = elim observed.state [ none ↦ ObservedState.absent | some s ↦ s ];
          observed_at = some now;
        })
        w

  unfoldable pub braked : Site → Instance → Observed → ℕ → World W → Bool × World W
  braked site row observed now w =
      if not site.reconcile_enabled
      then (true, audit_once AuditAction.disabled (Object.site_row site.pk) w)
      else if elim site.maintenance_until [ none ↦ false | some until ↦ ltb now until ]
      then (true, w)
      else elim observed.reason [
        | Reason.stale ↦ (true, audit_once AuditAction.data_stale (Object.instance_row row.pk) w)
        | Reason.upstream_down ↦
            (true, audit_once AuditAction.upstream_down (Object.instance_row row.pk) w)
        | _ ↦
            if leb backoff_after row.consecutive_failures
            then (true, audit_once AuditAction.backoff (Object.instance_row row.pk) w)
            else (flap_paused row.pk w, w)
      ]

  unfoldable pub maybe_clear_failures : Instance → Observed → World W → World W
  maybe_clear_failures row observed w = elim observed.state [
    | some ObservedState.running ↦ elim row.desired_state [
      | DesiredState.running ↦
          if row.consecutive_failures == 0
          then w
          else put row.pk (λ (r : Instance). record r { consecutive_failures = 0 }) w
      | _ ↦ w
    ]
    | _ ↦ w
  ]

  unfoldable pub deploy_lock_held : Site → Instance → World W → Bool
  deploy_lock_held site row w =
      let key : Scope → ℕ → Key =
        λ scope id. record { scope = scope; object_id = Ident.pk id; kind = Kind.deploy } in
      any (at_key (key Scope.site site.pk)) w.locks
      || any (at_key (key Scope.target row.target)) w.locks

  -- The handler of _apply.
  unfoldable pub fail : Instance → World W → World W
  fail row w =
      let failures = suc row.consecutive_failures in
      let failed : World W =
        put row.pk (λ (r : Instance). record r { consecutive_failures = failures }) w in
      if leb backoff_after failures
      then audit_once AuditAction.backoff (Object.instance_row row.pk) failed
      else failed

  unfoldable pub rearm : ℕ → World W → World W
  rearm k w =
      audit AuditAction.rearmed (Object.instance_row k) none
        (put k (λ (r : Instance). record r { consecutive_failures = 0 }) w)

-- The lock of a repair, and its holder.
abbrev pub reconcile_key : Site → Key
reconcile_key site = record {
  scope = Scope.site;
  object_id = Ident.pk site.pk;
  kind = Kind.reconcile;
}

abbrev pub reconcile_holder : Site → Ident
reconcile_holder site = Ident.reconciler site.pk

-- The row after a repair that came through.
unfoldable pub repaired : Action → ℕ → Instance → Instance → Instance
repaired Action.start now row r = record r {
  observed_state = ObservedState.running;
  consecutive_failures = 0;
  last_reconciled_at = some now;
}
repaired Action.stop now row r = record r {
  observed_state = ObservedState.stopped;
  consecutive_failures = row.consecutive_failures;
  last_reconciled_at = some now;
}
repaired Action.restart now row r = record r {
  observed_state = ObservedState.unhealthy;
  consecutive_failures = suc row.consecutive_failures;
  last_reconciled_at = some now;
}

module _ {W : Type 0} (observe : Instance → W → Option Observed)
    (act : Action → Instance → W → Bool × W) (race : World W → World W) where
  -- The body of _apply from the command on.
  unfoldable pub repair : Action → Instance → ℕ → World W → Bool × World W
  repair action row now w =
      let (done, outside) = act action row w.outside in
      let w1 : World W = record w { outside = outside } in
      if not done
      then (false, fail row w1)
      else let w2 =
          audit AuditAction.repair (Object.instance_row row.pk) (some action)
            (put row.pk (repaired action now row) w1) in
        (true, record w2 { collect_at = λ t. if t == row.target then none else w2.collect_at t })

  -- The body of _apply under its lock, on the row as it is read again. `none`: an exception. When the
  -- row is gone, so is the one that the handler saves.
  unfoldable pub recheck : Site → ℕ → ℕ → World W → Option Bool × World W
  recheck site k now w = elim (find_row k w.instances) [
    | none ↦ (none, w)
    | some row ↦ elim (observe row w.outside) [
      | none ↦ (some false, fail row w)
      | some observed ↦
          let (stopped, w1) = braked site row observed now (persist_observation k observed now w) in
          if stopped then (some false, w1) else elim (plan row observed) [
            | none ↦ (some false, maybe_clear_failures row observed w1)
            | some action ↦
                if not (any (matches (reconcile_key site) (some (reconcile_holder site))) w1.locks)
                then (some false, w1)
                else if deploy_lock_held site row w1
                then (some false, w1)
                else let (done, w2) = repair action row now w1 in (some done, w2)
          ]
    ]
  ]

  -- _apply
  unfoldable pub apply : Site → ℕ → ℕ → World W → Option Bool × World W
  apply site k now w =
      let (locks, lock) = acquire w.clock (reconcile_key site) (reconcile_holder site) w.locks in
      elim lock [
        | none ↦ (some false, w)
        | some row ↦
            let (result, w1) = recheck site k now (race (record w { locks = locks })) in
            (
              result,
              record w1 {
                locks = (release (reconcile_key site) (some (reconcile_holder site)) w1.locks).0;
              },
            )
      ]

  -- One turn of the loop of tick, from the count of mutations so far to the new one.
  unfoldable pub tick_row : Site → ℕ → ℕ → Instance → ℕ → World W → Option ℕ × World W
  tick_row site cap now row used w = elim (observe row w.outside) [
    | none ↦ (none, w)
    | some observed ↦
        let (stopped, w1) =
          braked site row observed now (persist_observation row.pk observed now w) in
        if stopped then (some used, w1) else elim (plan row observed) [
          | none ↦ (some used, maybe_clear_failures row observed w1)
          | some action ↦
              if leb cap used
              then (some used, w1)
              else if deploy_lock_held site row w1
              then (some used, w1)
              else let (result, w2) = apply site row.pk now w1 in
                elim result [
                  | none ↦ (none, w2)
                  | some false ↦ (some used, w2)
                  | some true ↦ (
                    some (suc used),
                    if leb flap_cycle_limit (cycle_count row.pk now w2)
                        then audit_once AuditAction.flap_pause (Object.instance_row row.pk) w2
                        else w2,
                  )
                ]
        ]
  ]

  unfoldable pub tick_rows : Site → ℕ → ℕ → List Instance → ℕ → World W → Option ℕ × World W
  tick_rows site cap now [] used w = (some used, w)
  tick_rows site cap now (row ∷ rows) used w =
      let (result, w1) = tick_row site cap now row used w in
      elim result [ none ↦ (none, w1) | some n ↦ tick_rows site cap now rows n w1 ]

  -- `enabled` is HUB_RECONCILE_ENABLED; the count of mutations, or none for an exception.
  unfoldable pub tick : Bool → Site → ℕ → Option ℕ → Option ℕ → World W → Option ℕ × World W
  tick enabled site now budget instance w =
      let cap : ℕ = elim budget [ none ↦ mutation_budget | some n ↦ n ] in
      let wanted : Instance → Bool = λ r. elim instance [ none ↦ true | some k ↦ r.pk == k ] in
      if not enabled
      then (some 0, audit_once AuditAction.globally_disabled Object.nothing w)
      else tick_rows site cap now
          (filter (λ (r : Instance). (r.site == site.pk) && wanted r) w.instances) 0 w

  -- The loop of tick_all: what is left of the budget.
  unfoldable pub tick_each : Bool → (ℕ → Site) → ℕ → List Instance → ℕ → World W → ℕ × World W
  tick_each enabled sites now [] remaining w = (remaining, w)
  tick_each enabled sites now (row ∷ rows) remaining w =
      let (result, w1) = tick enabled (sites row.site) now (some remaining) (some row.pk) w in
      let tail : ℕ × World W = elim result [
        | none ↦
            tick_each enabled sites now rows remaining
              (audit AuditAction.tick_failed (Object.instance_row row.pk) none w1)
        | some n ↦ tick_each enabled sites now rows (remaining - n) w1
      ] in
      if leb remaining 0 then (remaining, w) else tail

  unfoldable pub tick_all : Bool → (ℕ → Site) → ℕ → Option ℕ → World W → ℕ × World W
  tick_all enabled sites now budget w =
      tick_each enabled sites now w.instances
        (elim budget [ none ↦ global_mutation_budget | some n ↦ n ]) w
