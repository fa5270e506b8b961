-- ===== src/Examples/Reconcile.antt =====
-- The reconciler on one site with one instance that is to run; outside, a container runs or not.
use deploy_hub.Prelude.{ℕ, ◌+◌, ◌≡◌, refl, Bool, true, false, Option, none, some, List, [], ◌∷◌}
use deploy_hub.Prelude.Table.{find, update}
use deploy_hub.Locks.{
  OperationLock, acquire, release, matches, at_key, key_eq, scope_eq, kind_eq, ident_eq,
}
use deploy_hub.Reconcile.Rows.{
  Site, Instance, Observed, Action, World, DesiredState, ObservedState, Reason, Event, AuditAction,
  Object, put, audit, last_of, is_about, action_eq, object_eq, after,
}
use deploy_hub.Reconcile.Exclusion.{tick_shut}
use deploy_hub.Reconcile.Global.{repairs-tick_all}
use deploy_hub.Reconcile.{
  tick_all, plan, braked, flap_paused, persist_observation, deploy_lock_held, apply, recheck,
  repair, repaired, reconcile_key, reconcile_holder, tick, tick_rows, tick_row, cycle_count,
  count_cycles, cycle_ops,
}
use deploy_hub.Reconcile.Budget.{repairs}
use deploy_hub.Reconcile.Guards.{apply-IsCleared, IsCleared, locked}

abbrev site : Site
site = record { pk = 4; reconcile_enabled = true; maintenance_until = none }

abbrev instance_with : ℕ → Instance
instance_with failures = record {
  pk = 7;
  site = 4;
  target = 2;
  desired_state = DesiredState.running;
  observed_state = ObservedState.absent;
  observed_at = none;
  last_reconciled_at = none;
  consecutive_failures = failures;
}

abbrev paused_at : ℕ → Event
paused_at ts = record {
  ts = ts;
  action = AuditAction.flap_pause;
  about = Object.instance_row 7;
  op = none;
}

abbrev world_with : List Event → ℕ → World Bool
world_with audits failures = record {
  instances = instance_with failures ∷ [];
  locks = [];
  audits = audits;
  collect_at = λ t. some 90;
  clock = 100;
  outside = false;
}

abbrev observe : Instance → Bool → Option Observed
observe row true = some (record { state = some ObservedState.running; reason = Reason.other })
observe row false = some (record { state = some ObservedState.absent; reason = Reason.other })

abbrev act : Action → Instance → Bool → Bool × Bool
act action row running = (true, true)

abbrev race : World Bool → World Bool
race w = w

one_repair : (tick observe act race true site 100 none none (world_with [] 0)).0 ≡ some 1
unfolding tick tick_rows tick_row braked flap_paused last_of persist_observation put update plan
    deploy_lock_held apply acquire recheck find matches at_key key_eq scope_eq kind_eq ident_eq
    repair audit cycle_count count_cycles cycle_ops release repaired is_about action_eq object_eq
    after
one_repair = refl

nothing_left :
    (tick observe act race true site 100 none none (record (world_with [] 0) { outside = true })).0
    ≡ some 0
unfolding tick tick_rows tick_row braked flap_paused last_of persist_observation put plan
nothing_left = refl

apply-IsCleared_example :
    IsCleared observe act race site 7 100 (locked observe act race site (world_with [] 0))
unfolding braked flap_paused last_of persist_observation put update plan deploy_lock_held apply
    acquire recheck find matches at_key key_eq scope_eq kind_eq ident_eq repair audit release
    repaired
apply-IsCleared_example = apply-IsCleared observe act race site 7 100 (world_with [] 0) refl

repairs-tick_all_example :
    let w = world_with [] 0 in
    (tick_all observe act race true (λ k. site) 100 none w).0
      + repairs (tick_all observe act race true (λ k. site) 100 none w).1
    ≡ 3 + repairs w
unfolding find
repairs-tick_all_example =
    repairs-tick_all observe act race (λ w u. u) (λ w. refl) true (λ k. site) 100 none
      (world_with [] 0) (refl, tt)

-- What a process leaves that was killed under its lock.
abbrev left_behind : OperationLock
left_behind = record {
  key = reconcile_key site;
  holder = reconcile_holder site;
  acquired_at = 1;
  heartbeat_at = 1;
}

tick_shut_example :
    let w = record (world_with [] 0) { locks = left_behind ∷ [] } in
    ((tick observe act race true site 100 none none w).1.locks ≡ left_behind ∷ [])
    × ((tick observe act race true site 100 none none w).1.outside ≡ false)
unfolding at_key key_eq scope_eq ident_eq kind_eq
tick_shut_example =
    tick_shut observe act race true site 100 none none
      (record (world_with [] 0) { locks = left_behind ∷ [] }) refl
