-- ===== src/Deploy/Run/Cleanup.antt =====
-- The lock rows stay unique through a run, and a run that ends frees them.
use deploy_hub.Prelude.{
  ℕ, ◌≡◌, ◌≢◌, refl, Bool, true, false, Option, none, some, List, [], ◌∷◌, arith, is_some,
}
use deploy_hub.Locks.{OperationLock, Ident, Scope, kind_eq, heartbeat}
use deploy_hub.Locks.Table.{IsUnique, heartbeat-IsUnique}
use deploy_hub.Locks.Map.{holder_of}
use deploy_hub.Deploy.State.{
  Status, StepName, DeploymentStep, Deployment, Hub, is_terminal, get, put, put_step, site_of,
}
use deploy_hub.Deploy.Effect.{Result, ok, raised, killed, Effect, ◌>>=◌, close}
use deploy_hub.Deploy.Keeps.{
  Keeps, Keeps-return, Keeps-if, Keeps-on_raise, Keeps-bind, Keeps-modify,
}
use deploy_hub.Deploy.Begin.{release_deploy_locks, touch_heartbeat, heartbeat_each, deploy_key}
use deploy_hub.Deploy.Begin.Holders.{release_each-IsUnique, holder_of-release_deploy_locks, holds}
use deploy_hub.Deploy.Run.{
  Call, Crash, mark_failed, mark_running, mark_succeeded, mark_deployed, load, release_if_terminal,
  run_calls, crash_if_configured, run_step, run_steps, conclude, execute_running, run_started,
}

heartbeat_each-IsUnique :
    (now : ℕ) (h : Ident) (rows t : List OperationLock)
    → IsUnique t
    → IsUnique (heartbeat_each now h rows t)
unfolding heartbeat_each
heartbeat_each-IsUnique now h [] t u = u
heartbeat_each-IsUnique now h (r ∷ rows) t u =
    heartbeat_each-IsUnique now h rows (heartbeat now r.key (some h) t).0
      (heartbeat-IsUnique now r.key (some h) t u)

abbrev pub UniqueLocks : {W : Type 0} → Hub W → Type 0
UniqueLocks hub = IsUnique hub.locks

module _ {W : Type 0} (k : ℕ) where
  touch_unique : (hub : Hub W) → UniqueLocks hub → UniqueLocks (touch_heartbeat k hub)
  unfolding touch_heartbeat
  touch_unique hub u = heartbeat_each-IsUnique _ _ _ hub.locks u

  release_unique : (hub : Hub W) → UniqueLocks hub → UniqueLocks (release_deploy_locks k hub)
  unfolding release_deploy_locks
  release_unique hub u = release_each-IsUnique _ _ hub.locks u

  failed_unique : (seq : ℕ) (hub : Hub W) → UniqueLocks hub → UniqueLocks (mark_failed k seq hub)
  unfolding mark_failed put put_step
  failed_unique seq hub u = release_unique _ u

  running_unique : (seq : ℕ) (hub : Hub W) → UniqueLocks hub → UniqueLocks (mark_running k seq hub)
  unfolding mark_running put_step
  running_unique seq hub u = u

  succeeded_unique :
      (seq : ℕ) (hub : Hub W) → UniqueLocks hub → UniqueLocks (mark_succeeded k seq hub)
  unfolding mark_succeeded put_step
  succeeded_unique seq hub u = u

  deployed_unique :
      (site : ℕ) (hub : Hub W) → UniqueLocks hub → UniqueLocks (mark_deployed k site hub)
  unfolding mark_deployed put
  deployed_unique site hub u = u

  -- A read changes nothing.
  pub load-hub : (hub : Hub W) → (load k hub).1 ≡ hub
  unfolding load
  load-hub hub = ground arith

  load_unique : Keeps {W = W} UniqueLocks (load k)
  load_unique = record { at = λ hub u. rw (load-hub hub) u }

ruleset unique_rules = (
  Keeps-return, Keeps-if, Keeps-on_raise, Keeps-bind, Keeps-modify, touch_unique, failed_unique,
  running_unique, succeeded_unique, deployed_unique, load_unique,
)

module _ {W : Type 0} (outside : Call → ℕ → Effect W (Unit {0})) (crash_hook : StepName → ℕ → Crash)
    (unique : (c : Call) (k : ℕ) → Keeps UniqueLocks (outside c k)) where
  calls_unique :
      (k : ℕ) (calls : List Call) → Keeps UniqueLocks (run_calls outside crash_hook k calls)
  unfolding run_calls
  calls_unique k [] = search unique_rules
  calls_unique k (c ∷ calls) = Keeps-bind _ _ (unique c k) (λ _. calls_unique k calls)

  crash_unique :
      (k : ℕ) (s : DeploymentStep) → Keeps UniqueLocks (crash_if_configured outside crash_hook k s)
  unfolding crash_if_configured put_step
  crash_unique k s = record { at = λ hub u. ground (arith, u) }

  step_unique :
      (k : ℕ) (rollback : Bool) (s : DeploymentStep)
      → Keeps UniqueLocks (run_step outside crash_hook k rollback s)
  unfolding run_step
  step_unique k rollback s = search (unique_rules, unique, calls_unique, crash_unique) depth 12

  steps_unique :
      (k : ℕ) (rollback : Bool) (steps : List DeploymentStep)
      → Keeps UniqueLocks (run_steps outside crash_hook k rollback steps)
  unfolding run_steps
  steps_unique k rollback [] = search unique_rules
  steps_unique k rollback (s ∷ steps) = Keeps-bind _ _ (load_unique k) (λ d.
      Keeps-if _ _ _ (Keeps-return _) (
        Keeps-if _ _ _ (steps_unique k rollback steps)
          (Keeps-bind _ _ (step_unique k rollback s) (λ _. steps_unique k rollback steps))))

  conclude_unique :
      (k site : ℕ) (o : Option Status) → Keeps UniqueLocks (conclude outside crash_hook k site o)
  unfolding conclude
  conclude_unique k site (some st) = search unique_rules
  conclude_unique k site none = search unique_rules depth 8

  running-run_unique :
      (k : ℕ) (rollback : Bool) (site : ℕ)
      → Keeps UniqueLocks (execute_running outside crash_hook k rollback site)
  unfolding execute_running
  running-run_unique k rollback site =
      search (unique_rules, unique, steps_unique, conclude_unique) depth 10

  -- A deployment in a terminal status holds no deploy lock.
  abbrev IsReleased : ℕ → Hub W → Type 0
  IsReleased k hub =
      (d : Deployment) (scope : Scope) (id : ℕ)
      → get hub k ≡ some d
      → is_terminal d.status ≡ true
      → holds (Ident.pk k) (holder_of hub.locks (deploy_key scope id)) ≡ false

  final_release :
      (k : ℕ) (hub : Hub W) → UniqueLocks hub → IsReleased k (release_if_terminal k hub).1
  unfolding release_if_terminal load get ◌>>=◌ release_deploy_locks kind_eq
  final_release k hub u d scope id row terminal =
      ground (arith, holder_of-release_deploy_locks k (deploy_key scope id) hub u)

  close-releases :
      {A : Type 0} (k : ℕ) (r : Result A) (hub : Hub W)
      → UniqueLocks hub
      → (close (release_if_terminal k) r hub).0 ≢ killed
      → IsReleased k (close (release_if_terminal k) r hub).1
  close-releases k (ok a) hub u alive = final_release k hub u
  close-releases k (raised e) hub u alive = final_release k hub u
  close-releases k killed hub u alive = absurd (alive refl)

  -- Whatever its calls did, if they keep the lock rows unique: after a run that was not killed, a
  -- deployment in a terminal status holds no deploy lock, of no site and of no target.
  pub run_started-releases :
      (d row : Deployment) (scope : Scope) (id : ℕ) (hub : Hub W)
      → UniqueLocks hub
      → (run_started outside crash_hook d none hub).0 ≢ killed
      → get (run_started outside crash_hook d none hub).1 d.pk ≡ some row
      → is_terminal row.status ≡ true
      → holds
          (Ident.pk d.pk)
          (holder_of (run_started outside crash_hook d none hub).1.locks (deploy_key scope id))
        ≡ false
  unfolding run_started ◌>>=◌
  run_started-releases d row scope id hub u alive at_end terminal =
      let run = execute_running outside crash_hook d.pk (is_some d.rollback_of) (site_of d) in
      let touched = touch_heartbeat d.pk hub in
      let kept =
        (running-run_unique d.pk (is_some d.rollback_of) (site_of d)).at touched
          (touch_unique d.pk hub u) in
      close-releases d.pk (run touched).0 (run touched).1 kept alive row scope id at_end terminal
