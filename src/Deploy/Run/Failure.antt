-- ===== src/Deploy/Run/Failure.antt =====
-- What a failed or a crashed step leaves behind.
use deploy_hub.Prelude.{
  ℕ, ◌≡◌, ◌≢◌, refl, ap, Bool, true, false, not, ◌&&◌, some, List, [], ◌∷◌, arith, Option-cases,
  inl, inr, all, ◌==◌, ◌∙◌,
}
use mathlib.Core.Option
use deploy_hub.Prelude.Table.{update}
use deploy_hub.Locks.{Ident, Scope, kind_eq}
use deploy_hub.Locks.Map.{holder_of}
use deploy_hub.Deploy.State.{
  failed, StepName, StepStatus, DeploymentStep, Deployment, Hub, get, put, put_step, set_status,
}
use deploy_hub.Deploy.Effect.{Error, ok, raised, Effect, ◌>>=◌, continue}
use deploy_hub.Deploy.Begin.{release_deploy_locks, touch_heartbeat, deploy_key}
use deploy_hub.Deploy.Begin.Holders.{holder_of-release_deploy_locks, holds}
use deploy_hub.Deploy.Run.{
  Call, Crash, off, exception, sigkill, crash, calls_of, mark_failed, mark_running, run_calls,
  crash_if_configured, run_step, reopen,
}
use deploy_hub.Deploy.Run.Cleanup.{UniqueLocks}
use deploy_hub.Deploy.Run.Complete.{get-put}

abbrev pub fail_step : ℕ → DeploymentStep → DeploymentStep
fail_step now s = record s { status = StepStatus.failed; finished = some now }

abbrev pub fail_row : ℕ → ℕ → Deployment → Deployment
fail_row now seq d = record d {
  status = failed;
  steps = update (λ (s : DeploymentStep). s.seq) seq (fail_step now) d.steps;
}

-- A step that is succeeded does not have this number.
abbrev pub is_open_at : ℕ → DeploymentStep → Bool
is_open_at seq s = not (s.seq == seq && elim s.status [ StepStatus.succeeded ↦ true | _ ↦ false ])

module _ {W : Type 0} (k : ℕ) where
  get-mark_failed :
      (seq : ℕ) (hub : Hub W)
      → get (mark_failed k seq hub) k ≡ Option.map (fail_row hub.clock seq) (get hub k)
  unfolding mark_failed put_step release_deploy_locks get
  get-mark_failed seq hub =
      let f = λ (d : Deployment). record d {
        steps = update (λ (s : DeploymentStep). s.seq) seq (fail_step hub.clock) d.steps;
      } in
      elim (Option-cases (get hub k)) [
        | inl e ↦ ground (
          arith,
          e,
          get-put k f hub (λ d. refl),
          get-put k (set_status failed) (put k f hub) (λ d. refl),
        )
        | inr (d, e) ↦ ground (
          arith,
          e,
          get-put k f hub (λ d. refl),
          get-put k (set_status failed) (put k f hub) (λ d. refl),
        )
      ]

  released-mark_failed :
      (seq : ℕ) (hub : Hub W) (scope : Scope) (id : ℕ)
      → UniqueLocks hub
      → holds (Ident.pk k) (holder_of (mark_failed k seq hub).locks (deploy_key scope id)) ≡ false
  unfolding mark_failed put_step put kind_eq
  released-mark_failed seq hub scope id u =
      let f = λ (d : Deployment). record d {
        steps = update (λ (s : DeploymentStep). s.seq) seq (fail_step hub.clock) d.steps;
      } in
      ground (
        arith,
        holder_of-release_deploy_locks k (deploy_key scope id)
            (put k (set_status failed) (put k f hub)) u,
      )

all-reopen :
    (seq : ℕ) (steps : List DeploymentStep)
    → all (is_open_at seq) (update (λ (s : DeploymentStep). s.seq) seq reopen steps) ≡ true
unfolding update
all-reopen seq [] = refl
all-reopen seq (s ∷ steps) = ground (arith, all-reopen seq steps)

abbrev reopen_row : ℕ → Deployment → Deployment
reopen_row seq d = record d { steps = update (λ (s : DeploymentStep). s.seq) seq reopen d.steps }

get-crash :
    {W : Type 0} (k seq : ℕ) (c : Crash) (hub : Hub W) (d : Deployment)
    → c ≢ off
    → get hub k ≡ some d
    → get (crash {W = W} c k seq hub).1 k ≡ some (reopen_row seq d)
unfolding crash put_step
get-crash k seq off hub d on row = absurd (on refl)
get-crash k seq exception hub d on row =
    get-put k (reopen_row seq) hub (λ d. refl) ∙ ap (Option.map (reopen_row seq)) row
get-crash k seq sigkill hub d on row =
    get-put k (reopen_row seq) hub (λ d. refl) ∙ ap (Option.map (reopen_row seq)) row

crash_ends :
    {W : Type 0} (k seq : ℕ) (c : Crash) (hub : Hub W) (f : Unit {0} → Effect W (Unit {0}))
    → c ≢ off
    → (continue (crash {W = W} c k seq hub).0 f (crash c k seq hub).1).1
      ≡ (crash {W = W} c k seq hub).1
unfolding crash
crash_ends k seq off hub f on = absurd (on refl)
crash_ends k seq exception hub f on = refl
crash_ends k seq sigkill hub f on = refl

module _ {W : Type 0} (outside : Call → ℕ → Effect W (Unit {0})) (crash_hook : StepName → ℕ → Crash)
    (k : ℕ) (rollback : Bool) (s : DeploymentStep) where
  -- The hub in which the calls of the step are made.
  abbrev pub entered : Hub W → Hub W
  entered hub = touch_heartbeat k (mark_running k s.seq hub)

  -- A call of a step raised and left unique lock rows: the exception goes on, the step and the deployment are failed, whatever the
  -- status was by then, and the deployment holds no deploy lock.
  pub run_step-raised :
      (hub h1 : Hub W) (e : Error) (d : Deployment) (scope : Scope) (id : ℕ)
      → run_calls outside crash_hook k (calls_of s.name rollback) (entered hub) ≡ (raised e, h1)
      → UniqueLocks h1
      → get h1 k ≡ some d
      → ((run_step outside crash_hook k rollback s hub).0 ≡ raised e)
        × (get (run_step outside crash_hook k rollback s hub).1 k
            ≡ some (fail_row h1.clock s.seq d))
        × (holds (Ident.pk k) (
              holder_of
                (run_step outside crash_hook k rollback s hub).1.locks
                (deploy_key scope id))
            ≡ false)
  unfolding run_step ◌>>=◌
  run_step-raised hub h1 e d scope id raises u row = rw raises (
    refl,
    get-mark_failed k s.seq h1 ∙ ap (Option.map (fail_row h1.clock s.seq)) row,
    released-mark_failed k s.seq h1 scope id u,
  )

  -- The crash hook: the calls returned, but no step of this number is left succeeded, and the
  -- deployment keeps the status that it had.
  pub run_step-crash :
      (hub h1 : Hub W) (d : Deployment)
      → run_calls outside crash_hook k (calls_of s.name rollback) (entered hub) ≡ (ok tt, h1)
      → crash_hook s.name s.seq ≢ off
      → get h1 k ≡ some d
      → (d' : Deployment) × (get (run_step outside crash_hook k rollback s hub).1 k ≡ some d')
        × (d'.status ≡ d.status)
        × (all (is_open_at s.seq) d'.steps ≡ true)
  unfolding run_step crash_if_configured ◌>>=◌
  run_step-crash hub h1 d returns on row = rw returns (
      rw (crash_ends k s.seq (crash_hook s.name s.seq) h1 _ on) (
        reopen_row s.seq d,
        get-crash k s.seq (crash_hook s.name s.seq) h1 d on row,
        refl,
        all-reopen s.seq d.steps,
      ))
