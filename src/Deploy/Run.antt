-- ===== src/Deploy/Run.antt =====
-- deploys/pipeline.py from execute on: the steps of a running deployment, resume, failure, rollback.
-- The calls into deploys/steps.py, deploys/seams.py, the vault and the artifact writers are a parameter,
-- `outside`: each may do anything to the hub, raise, or never come back because the process is killed.
pub mod Cleanup
pub mod Resume
pub mod Complete
pub mod Failure
pub mod Rollback
use deploy_hub.Prelude.{
  ℕ, suc, ◌+◌, ◌≡◌, refl, Bool, true, false, not, ◌&&◌, ◌||◌, Option, none, some, List, [], ◌∷◌,
  ◌++◌, ◌==◌, if◌then◌else◌, is_some,
}
use deploy_hub.Deploy.State.{
  Status, queued, running, succeeded, failed, StepName, build, ship, migrate, start_green,
  health_check, dns, route_tls, smoke_test, cutover, StepStatus, DeploymentStep, Manifest,
  Deployment, Hub, is_running, is_queued, is_terminal, is_done, site_of, get, put, put_step,
  set_status,
}
use deploy_hub.Deploy.Effect.{
  Error, seam_refused, not_found, failure, Result, ok, raised, killed, Effect, ◌>>=◌, ◌>>◌, return,
  raise, on_raise, with_finally, modify,
}
use deploy_hub.Deploy.Begin.{release_deploy_locks, touch_heartbeat, begin_deploy}

pub data Call : Type 0 where
  assert_test_zone resolve_seams assemble_desired env_mapping : Call
  ensure_build ensure_ship ensure_volume ensure_volume_rollback ensure_migrate ensure_start : Call
  ensure_health_check ensure_dns ensure_route_tls ensure_smoke ensure_cutover : Call
  snapshot_and_runbook : Call

-- The HUB_TEST_CRASH_AFTER_STEP hook: off, an exception, or SIGKILL.
pub data Crash : Type 0 where
  off exception sigkill : Crash

-- The return value of execute.
pub record Report : Type 0 where
  pub started : Bool
  pub status : Option Status

-- _dispatch_step; the Boolean says whether the deployment is a rollback.
unfoldable pub calls_of : StepName → Bool → List Call
calls_of build rollback = ensure_build ∷ []
calls_of ship rollback = ensure_ship ∷ []
calls_of migrate true = ensure_volume ∷ ensure_volume_rollback ∷ ensure_migrate ∷ []
calls_of migrate false = ensure_volume ∷ ensure_migrate ∷ []
calls_of start_green rollback = ensure_start ∷ []
calls_of health_check rollback = ensure_health_check ∷ []
calls_of dns rollback = ensure_dns ∷ []
calls_of route_tls rollback = ensure_route_tls ∷ []
calls_of smoke_test rollback = ensure_smoke ∷ []
calls_of cutover rollback = ensure_cutover ∷ []

abbrev pub is_cutover : StepName → Bool
is_cutover cutover = true
is_cutover _ = false

abbrev pub is_seam_refused : Error → Bool
is_seam_refused seam_refused = true
is_seam_refused _ = false

abbrev pub any_error : Error → Bool
any_error e = true

-- _unmark_step_succeeded
abbrev pub reopen : DeploymentStep → DeploymentStep
reopen s = record s {
  status = elim s.status [ StepStatus.succeeded ↦ StepStatus.running | other ↦ other ];
}

module _ {W : Type 0} where
  -- _mark_failed
  unfoldable pub mark_failed : ℕ → ℕ → Hub W → Hub W
  mark_failed k seq hub =
      let step_failed : Hub W =
        put_step k seq
          (λ (s : DeploymentStep). record s {
            status = StepStatus.failed;
            finished = some hub.clock;
          })
          hub in
      release_deploy_locks k (put k (set_status failed) step_failed)

  unfoldable pub mark_running : ℕ → ℕ → Hub W → Hub W
  mark_running k seq hub =
      put_step k seq
        (λ (s : DeploymentStep). record s { status = StepStatus.running; started = some hub.clock })
        hub

  unfoldable pub mark_succeeded : ℕ → ℕ → Hub W → Hub W
  mark_succeeded k seq hub =
      put_step k seq
        (λ (s : DeploymentStep). record s {
          status = StepStatus.succeeded;
          finished = some hub.clock;
        })
        hub

  -- get, or refresh_from_db
  unfoldable pub load : ℕ → Effect W Deployment
  load k hub = elim (get hub k) [ none ↦ (raised not_found, hub) | some d ↦ (ok d, hub) ]

  -- The `finally` of execute.
  unfoldable pub release_if_terminal : ℕ → Effect W (Unit {0})
  release_if_terminal k = do
    d ← load k
    modify (λ hub. if is_terminal d.status then release_deploy_locks k hub else hub)

  -- A deployment that ran every step: SUCCEEDED, and the site is no longer stale.
  unfoldable pub mark_deployed : ℕ → ℕ → Hub W → Hub W
  mark_deployed k site hub =
      let done : Hub W = put k (set_status succeeded) hub in
      record done { config_stale = λ s. if s == site then false else done.config_stale s }

  unfoldable pub crash : Crash → ℕ → ℕ → Effect W (Unit {0})
  crash off k seq hub = (ok tt, hub)
  crash exception k seq hub = (raised failure, put_step k seq reopen hub)
  crash sigkill k seq hub = (killed, put_step k seq reopen hub)

  module _ (outside : Call → ℕ → Effect W (Unit {0})) (crash_hook : StepName → ℕ → Crash) where
    unfoldable pub run_calls : ℕ → List Call → Effect W (Unit {0})
    run_calls k [] = return tt
    run_calls k (c ∷ calls) = outside c k >> run_calls k calls

    -- _crash_if_configured, with the handler around its call.
    unfoldable pub crash_if_configured : ℕ → DeploymentStep → Effect W (Unit {0})
    unfolding crash
    crash_if_configured k s = crash (crash_hook s.name s.seq) k s.seq

    -- _run_step, given the step as it was read before the loop.
    unfoldable pub run_step : ℕ → Bool → DeploymentStep → Effect W (Unit {0})
    run_step k rollback s = do
      modify (mark_running k s.seq)
      modify (touch_heartbeat k)
      on_raise any_error (mark_failed k s.seq) (run_calls k (calls_of s.name rollback))
      crash_if_configured k s
      if is_cutover s.name then outside snapshot_and_runbook k else return tt
      modify (mark_succeeded k s.seq)
      modify (touch_heartbeat k)

    -- The loop of _execute_running: `some` is the status at which it returned early.
    unfoldable pub run_steps : ℕ → Bool → List DeploymentStep → Effect W (Option Status)
    run_steps k rollback [] = return none
    run_steps k rollback (s ∷ steps) =
        let rest = run_steps k rollback steps in
        do
          d ← load k
          if not (is_running d.status)
              then return (some d.status)
              else if is_done s.status
              then rest
              else run_step k rollback s >> rest

    -- The end of _execute_running.
    unfoldable pub conclude : ℕ → ℕ → Option Status → Effect W Report
    conclude k site (some st) = return (record { started = true; status = some st })
    conclude k site none = do
      d ← load k
      if not (is_running d.status)
          then return (record { started = true; status = some d.status })
          else modify (mark_deployed k site)
            >> return (record { started = true; status = some succeeded })

    unfoldable pub execute_running : ℕ → Bool → ℕ → Effect W Report
    execute_running k rollback site = do
      outside assemble_desired k
      outside env_mapping k
      row ← load k
      early ← run_steps k rollback row.steps
      conclude k site early

    -- What execute does once the seams are there, from the status that it loaded.
    unfoldable pub start : Deployment → Effect W (Option Report)
    start d hub =
        if is_queued d.status
        then (let (granted, hub') = begin_deploy d none hub in
            if granted
            then (do
              row ← load d.pk
              return (
                  if is_running row.status
                  then none
                  else some (record { started = false; status = some row.status })))
                hub'
            else (ok (some (record { started = false; status = none })), hub'))
        else if is_running d.status
        then (ok none, hub)
        else (ok (some (record { started = false; status = some d.status })), hub)

    unfoldable pub run_started : Deployment → Option Report → Effect W Report
    run_started d (some report) = return report
    run_started d none = do
      modify (touch_heartbeat d.pk)
      with_finally (release_if_terminal d.pk)
          (execute_running d.pk (is_some d.rollback_of) (site_of d))

    -- The `except DeploySeamRefused` of execute.
    unfoldable pub refuse_seams : ℕ → Hub W → Hub W
    refuse_seams k hub = release_deploy_locks k (put k (set_status failed) hub)

    unfoldable pub execute : ℕ → Effect W Report
    execute k = do
      d ← load k
      outside assert_test_zone k
      on_raise is_seam_refused (refuse_seams k) (outside resolve_seams k)
      stopped ← start d
      run_started d stopped

    -- A new queued row for the same manifest, which points back at the original.
    unfoldable pub rollback : ℕ → Effect W Report
    rollback original = do
      d ← load original
      created ← λ hub. (ok hub.next_pk, hub)
      modify (λ hub. record hub {
        deployments =
            hub.deployments
            ++ record {
              pk = created;
              manifest = d.manifest;
              status = queued;
              last_heartbeat = none;
              rollback_of = some d.pk;
              steps = [];
            }
              ∷ [];
        next_pk = suc created;
      })
      execute created
