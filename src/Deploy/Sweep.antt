-- ===== src/Deploy/Sweep.antt =====
-- deploys/heartbeat.py: the liveness sweep over running deployments whose heartbeat is old.
-- A time is a count of seconds; `last_heartbeat < now - 2 min` is written with a sum.
pub mod Settles
use deploy_hub.Prelude.{
  ℕ, ◌+◌, Bool, true, false, not, ◌&&◌, Option, none, some, List, [], ◌∷◌, ◌++◌, ltb, if◌then◌else◌,
  filter, map,
}
use deploy_hub.Deploy.State.{
  Status, succeeded, failed, StepStatus, DeploymentStep, Deployment, Hub, is_running, get, put,
  set_status, resume_step,
}
use deploy_hub.Deploy.Begin.{release_deploy_locks, touch_heartbeat}

abbrev pub stale_after_s : ℕ
stale_after_s = 120

-- What the sweep did with one deployment.
pub data Outcome : Type 0 where
  resumed aborted finalized skipped : Outcome

unfoldable pub is_stale : ℕ → Deployment → Bool
is_stale now d =
    is_running d.status
    && elim d.last_heartbeat [ none ↦ true | some at ↦ ltb (at + stale_after_s) now ]

abbrev pub is_failed : StepStatus → Bool
is_failed StepStatus.failed = true
is_failed _ = false

module _ {W : Type 0} where
  abbrev pub finalize : ℕ → Status → Hub W → Hub W
  finalize k st hub = release_deploy_locks k (put k (set_status st) hub)

  -- touch_heartbeat, then enqueue_run_deploy.
  abbrev pub requeue : ℕ → Hub W → Hub W
  requeue k hub =
      let touched = touch_heartbeat k hub in record touched { queue = touched.queue ++ k ∷ [] }

  unfoldable pub settle : ℕ → Option DeploymentStep → Hub W → Hub W × Outcome
  settle k none hub = (finalize k succeeded hub, finalized)
  settle k (some pointer) hub =
      if is_failed pointer.status
      then (finalize k failed hub, aborted)
      else (requeue k hub, resumed)

  -- The body of the loop. A deployment that was settled since the ids were read is passed over. Handing a
  -- deployment to the queue, enqueue_run_deploy, is taken not to raise.
  unfoldable pub sweep_one : ℕ → Hub W → Hub W × Outcome
  unfolding settle
  sweep_one k hub = elim (get hub k) [
    | none ↦ (hub, skipped)
    | some d ↦ if is_running d.status then settle k (resume_step d.steps) hub else (hub, skipped)
  ]

  unfoldable pub sweep_each : List ℕ → Hub W → Hub W × List ℕ × List ℕ
  sweep_each [] hub = (hub, [], [])
  sweep_each (k ∷ ids) hub =
      let (hub1, outcome) = sweep_one k hub in
      let (hub2, resumed_ids, aborted_ids) = sweep_each ids hub1 in
      (
        hub2,
        elim outcome [ resumed ↦ k ∷ resumed_ids | _ ↦ resumed_ids ],
        elim outcome [ aborted ↦ k ∷ aborted_ids | _ ↦ aborted_ids ],
      )

  unfoldable pub stale_ids : Hub W → List ℕ
  stale_ids hub = map (λ (d : Deployment). d.pk) (filter (is_stale hub.clock) hub.deployments)

  -- The hub, the resumed and the aborted ids.
  unfoldable pub sweep : Hub W → Hub W × List ℕ × List ℕ
  sweep hub = sweep_each (stale_ids hub) hub
