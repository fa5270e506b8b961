-- ===== src/Examples/Deploy.antt =====
-- The pipeline at a concrete hub: deployment 5 of site 3 on target 8, whose image is built, and an
-- older deployment 4 of the same site. The calls into the steps only note that they were made.
use mathlib.Core.Option
use deploy_hub.Prelude.{◌≡◌, ◌≢◌, refl, ℕ, true, false, none, some, List, [], ◌∷◌, ◌++◌, any}
use deploy_hub.Prelude.Table.{find, update}
use deploy_hub.Locks.{
  Scope, Ident, OperationLock, acquire, release, at_key, key_eq, matches, heartbeat, ident_eq,
  scope_eq, kind_eq,
}
use deploy_hub.Locks.Map.{holder_of}
use deploy_hub.Deploy.State.{
  queued, running, succeeded, StepName, build, dns, StepStatus, DeploymentStep, Manifest,
  Deployment, Hub, is_running, is_terminal, is_done, get, put, put_step, resume_step, new_step,
}
use deploy_hub.Deploy.Effect.{failure, ok, raised, killed, Effect, ◌>>=◌, ◌>>◌}
use deploy_hub.Deploy.Keeps.{Keeps, Leads}
use deploy_hub.Deploy.Begin.{
  held_by, release_each, heartbeat_each, release_deploy_locks, touch_heartbeat, supersede_each,
  supersede_running, is_rival, take_both, begin_on, deploy_key, start_row,
}
use deploy_hub.Deploy.Begin.Holders.{holds}
use deploy_hub.Deploy.Begin.Outcome.{begin_granted, begin_refused}
use deploy_hub.Deploy.Run.{
  Call, ensure_dns, Crash, off, exception, calls_of, mark_running, mark_succeeded, mark_deployed,
  load, release_if_terminal, run_calls, crash_if_configured, run_step, run_steps, conclude,
  execute_running, run_started,
}
use deploy_hub.Deploy.Run.Cleanup.{UniqueLocks, run_started-releases}
use deploy_hub.Deploy.Run.Resume.{run_steps-resume_step}
use deploy_hub.Deploy.Run.Complete.{OpenWithin, succeeded_means_all_done}
use deploy_hub.Deploy.Run.Failure.{run_step-raised, fail_row, entered}
use deploy_hub.Deploy.Sweep.{sweep}
use deploy_hub.Deploy.Sweep.Settles.{stale_at, sweep-leaves_none_stale}

abbrev World : Type 0
World = List Call

abbrev calm : Call → ℕ → Effect World (Unit {0})
calm c k hub = (ok tt, record hub { world = hub.world ++ c ∷ [] })

-- The provider is down.
abbrev no_dns : Call → ℕ → Effect World (Unit {0})
no_dns ensure_dns k hub = (raised failure, hub)
no_dns _ k hub = (ok tt, hub)

abbrev no_crash : StepName → ℕ → Crash
no_crash name seq = off

abbrev crash_after : StepName → ℕ → Crash
crash_after name seq = exception

abbrev built : DeploymentStep
built = record {
  seq = 1;
  name = build;
  status = StepStatus.succeeded;
  started = some 10;
  finished = some 20;
}

abbrev pointed : DeploymentStep
pointed = new_step 2 dns

abbrev shop : Manifest
shop = record { pk = 1; site = record { pk = 3; primary_target = some 8 } }

abbrev newer : Deployment
newer = record {
  pk = 5;
  manifest = shop;
  status = running;
  last_heartbeat = some 20;
  rollback_of = none;
  steps = built ∷ pointed ∷ [];
}

abbrev older : Deployment
older = record {
  pk = 4;
  manifest = shop;
  status = running;
  last_heartbeat = some 5;
  rollback_of = none;
  steps = [];
}

abbrev waiting : Deployment
waiting = record newer { status = queued; last_heartbeat = none }

abbrev hub_of : List OperationLock → List Deployment → Hub World
hub_of locks rows = record {
  locks = locks;
  deployments = rows;
  config_stale = λ site. true;
  queue = [];
  next_pk = 6;
  clock = 300;
  world = [];
}

abbrev lock_of : Scope → ℕ → ℕ → OperationLock
lock_of scope id k = record {
  key = deploy_key scope id;
  holder = Ident.pk k;
  acquired_at = 10;
  heartbeat_at = 10;
}

abbrev midway : Hub World
midway = hub_of (lock_of Scope.site 3 5 ∷ lock_of Scope.target 8 5 ∷ []) (older ∷ newer ∷ [])

abbrev contested : Hub World
contested = hub_of (lock_of Scope.site 3 4 ∷ lock_of Scope.target 8 2 ∷ []) (older ∷ waiting ∷ [])

abbrev free_target : Hub World
free_target = hub_of (lock_of Scope.site 3 4 ∷ lock_of Scope.target 8 4 ∷ []) (older ∷ waiting ∷ [])

-- A new deployment supersedes the older one and takes over both of its locks.
starts : (begin_on waiting 8 free_target).0 ≡ true
unfolding begin_on supersede_running supersede_each release_deploy_locks put release_each held_by
    is_rival is_running take_both acquire release at_key matches key_eq ident_eq scope_eq kind_eq
    update
starts = refl

-- The target is held by a deployment of another site.
does_not_start : (begin_on waiting 8 contested).0 ≡ false
unfolding begin_on supersede_running supersede_each release_deploy_locks put release_each held_by
    is_rival is_running take_both acquire release at_key matches key_eq ident_eq scope_eq kind_eq
    update
does_not_start = refl

calm_unique : (c : Call) (k : ℕ) → Keeps UniqueLocks (calm c k)
calm_unique c k = record { at = λ hub u. u }

calm_reopens_none :
    (c : Call) (todo : List ℕ)
    → Leads (OpenWithin {W = World} 5 todo) (calm c 5) (λ _. OpenWithin 5 todo)
unfolding get
calm_reopens_none c todo = record { at = λ hub a h e. h }

begin_granted_example :
    (holder_of (begin_on waiting 8 free_target).1.locks (deploy_key Scope.site 3)
      ≡ some (Ident.pk 5))
    × (holder_of (begin_on waiting 8 free_target).1.locks (deploy_key Scope.target 8)
        ≡ some (Ident.pk 5))
    × (any (is_rival 3 5) (begin_on waiting 8 free_target).1.deployments ≡ false)
    × (get (begin_on waiting 8 free_target).1 5
        ≡ Option.map (start_row (supersede_running 3 5 free_target).clock) (get free_target 5))
unfolding at_key key_eq scope_eq
begin_granted_example = begin_granted waiting 8 free_target (refl, (refl, tt)) starts

begin_refused_example :
    (holder_of (begin_on waiting 8 contested).1.locks (deploy_key Scope.target 8)
      ≡ holder_of (supersede_running 3 5 contested).locks (deploy_key Scope.target 8))
    × ((begin_on waiting 8 contested).1.deployments ≡ (supersede_running 3 5 contested).deployments)
    × (get (begin_on waiting 8 contested).1 5 ≡ get contested 5)
unfolding at_key key_eq scope_eq
begin_refused_example =
    begin_refused waiting 8 contested (refl, (refl, tt)) (deploy_key Scope.target 8) does_not_start

run_steps-resume_step_example :
    (resume_step (built ∷ pointed ∷ []) ≡ some pointed)
    × (run_steps calm no_crash 5 false (built ∷ pointed ∷ []) midway
        ≡ (run_step calm no_crash 5 false pointed >> run_steps calm no_crash 5 false []) midway)
unfolding is_done get find is_running
run_steps-resume_step_example =
    run_steps-resume_step calm no_crash 5 false (built ∷ []) [] pointed midway newer refl refl refl
      refl

abbrev after_run : Hub World
after_run = (run_steps calm no_crash 5 false (built ∷ pointed ∷ []) midway).1

abbrev row_after : Deployment
row_after = record newer {
  last_heartbeat = some 300;
  steps =
      built
      ∷ record pointed { status = StepStatus.succeeded; started = some 300; finished = some 300 }
      ∷ [];
}

loop_comes_through :
    run_steps calm no_crash 5 false (built ∷ pointed ∷ []) midway ≡ (ok none, after_run)
unfolding run_steps load get find is_running is_done run_step ◌>>=◌ run_calls calls_of
    crash_if_configured
loop_comes_through = refl

row_comes_through : get after_run 5 ≡ some row_after
unfolding run_steps load get find is_running is_done run_step ◌>>=◌ run_calls calls_of
    crash_if_configured mark_running mark_succeeded put_step update touch_heartbeat
row_comes_through = refl

succeeded_means_all_done_example :
    (resume_step row_after.steps ≡ none)
    × (conclude calm no_crash 5 3 none after_run
        ≡ (ok (record { started = true; status = some succeeded }), mark_deployed 5 3 after_run))
unfolding get find is_running
succeeded_means_all_done_example =
    succeeded_means_all_done calm no_crash 5 calm_reopens_none false 3 midway after_run newer
      row_after refl loop_comes_through row_comes_through refl

abbrev finished_row : Deployment
finished_row = record row_after { status = succeeded }

run_returns : (run_started calm no_crash newer none midway).0 ≢ killed
unfolding run_started execute_running conclude release_if_terminal is_terminal run_steps load get
    find is_running is_done run_step ◌>>=◌ run_calls calls_of crash_if_configured mark_running
    mark_succeeded mark_deployed put put_step update touch_heartbeat
run_returns e = cc e

run_finishes : get (run_started calm no_crash newer none midway).1 5 ≡ some finished_row
unfolding run_started execute_running conclude release_if_terminal release_deploy_locks is_terminal
    run_steps load get find is_running is_done run_step ◌>>=◌ run_calls calls_of crash_if_configured
    mark_running mark_succeeded mark_deployed put put_step update touch_heartbeat
run_finishes = refl

run_started-releases_example :
    holds
      (Ident.pk 5)
      (holder_of (run_started calm no_crash newer none midway).1.locks (deploy_key Scope.site 3))
    ≡ false
unfolding at_key key_eq scope_eq is_terminal
run_started-releases_example =
    run_started-releases calm no_crash calm_unique newer finished_row Scope.site 3 midway
      (refl, (refl, tt)) run_returns run_finishes refl

-- The hub as the DNS call raised.
abbrev at_failure : Hub World
at_failure = entered no_dns no_crash 5 false pointed midway

abbrev failing_row : Deployment
failing_row = record newer {
  last_heartbeat = some 300;
  steps = built ∷ record pointed { status = StepStatus.running; started = some 300 } ∷ [];
}

dns_raises :
    run_calls no_dns no_crash 5 (calls_of dns false) at_failure ≡ (raised failure, at_failure)
unfolding run_calls calls_of ◌>>=◌
dns_raises = refl

failing_row_there : get at_failure 5 ≡ some failing_row
unfolding get find mark_running put_step update touch_heartbeat
failing_row_there = refl

failing_locks : UniqueLocks at_failure
unfolding mark_running put_step touch_heartbeat heartbeat_each held_by heartbeat matches at_key
    key_eq ident_eq scope_eq kind_eq
failing_locks = (refl, (refl, tt))

run_step-raised_example :
    ((run_step no_dns no_crash 5 false pointed midway).0 ≡ raised failure)
    × (get (run_step no_dns no_crash 5 false pointed midway).1 5
        ≡ some (fail_row at_failure.clock 2 failing_row))
    × (holds (Ident.pk 5) (
          holder_of
            (run_step no_dns no_crash 5 false pointed midway).1.locks
            (deploy_key Scope.target 8))
        ≡ false)
run_step-raised_example =
    run_step-raised no_dns no_crash 5 false pointed midway at_failure failure failing_row
      Scope.target 8 dns_raises failing_locks failing_row_there

abbrev at_crash : Hub World
at_crash =
    (run_calls calm crash_after 5 (calls_of dns false)
      (entered calm crash_after 5 false pointed midway)).1

dns_returns :
    run_calls calm crash_after 5
      (calls_of dns false)
      (entered calm crash_after 5 false pointed midway)
    ≡ (ok tt, at_crash)
unfolding run_calls calls_of ◌>>=◌
dns_returns = refl

row_at_crash : get at_crash 5 ≡ some failing_row
unfolding run_calls calls_of ◌>>=◌ get find mark_running put_step update touch_heartbeat
row_at_crash = refl

exception_ne_off : exception ≢ off
exception_ne_off e = cc e

sweep-leaves_none_stale_example : stale_at 5 (sweep midway).0 ≡ false
sweep-leaves_none_stale_example = sweep-leaves_none_stale 5 midway
