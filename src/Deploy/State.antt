-- ===== src/Deploy/State.antt =====
-- deploys/models.py, and the part of the database that the pipeline reads and writes.
-- A row carries its foreign keys: a Deployment its Manifest, a Manifest its Site, a Deployment its
-- steps, which are kept in the order of `seq`.
use deploy_hub.Prelude.{ℕ, suc, Bool, true, false, Option, none, some, List, [], ◌∷◌, if◌then◌else◌}
use deploy_hub.Prelude.Table.{find, update}
use deploy_hub.Locks.{OperationLock}

pub data Status : Type 0 where
  queued running succeeded failed rolled_back cancelled superseded : Status

pub data StepName : Type 0 where
  build ship migrate start_green health_check dns route_tls smoke_test cutover : StepName

pub data StepStatus : Type 0 where
  pending running succeeded failed skipped : StepStatus

pub record Site : Type 0 where
  pub pk : ℕ
  pub primary_target : Option ℕ

pub record Manifest : Type 0 where
  pub pk : ℕ
  pub site : Site

pub record DeploymentStep : Type 0 where
  pub seq : ℕ
  pub name : StepName
  pub status : StepStatus
  pub started : Option ℕ
  pub finished : Option ℕ

pub record Deployment : Type 0 where
  pub pk : ℕ
  pub manifest : Manifest
  pub status : Status
  pub last_heartbeat : Option ℕ
  pub rollback_of : Option ℕ
  pub steps : List DeploymentStep

-- `world` is all that the pipeline itself does not touch; `queue` holds the enqueued run_deploy tasks.
pub record Hub (W : Type 0) : Type 0 where
  pub locks : List OperationLock
  pub deployments : List Deployment
  pub config_stale : ℕ → Bool
  pub queue : List ℕ
  pub next_pk : ℕ
  pub clock : ℕ
  pub world : W

unfoldable pub is_running : Status → Bool
is_running running = true
is_running _ = false

unfoldable pub is_queued : Status → Bool
is_queued queued = true
is_queued _ = false

-- TERMINAL_STATUSES
unfoldable pub is_terminal : Status → Bool
is_terminal queued = false
is_terminal running = false
is_terminal _ = true

-- `status in {SUCCEEDED, SKIPPED}`
unfoldable pub is_done : StepStatus → Bool
is_done succeeded = true
is_done skipped = true
is_done _ = false

abbrev pub site_of : Deployment → ℕ
site_of d = d.manifest.site.pk

-- First step whose status is not succeeded or skipped.
unfoldable pub resume_step : List DeploymentStep → Option DeploymentStep
resume_step [] = none
resume_step (s ∷ steps) = let rest = resume_step steps in if is_done s.status then rest else some s

-- DeploymentStep.Name.values, numbered from 1, all pending.
abbrev pub new_step : ℕ → StepName → DeploymentStep
new_step seq name = record {
  seq = seq;
  name = name;
  status = StepStatus.pending;
  started = none;
  finished = none;
}

abbrev pub enumerate : ℕ → List StepName → List DeploymentStep
enumerate n [] = []
enumerate n (name ∷ names) = new_step n name ∷ enumerate (suc n) names

abbrev pub step_names : List StepName
step_names =
    build ∷ ship ∷ migrate ∷ start_green ∷ health_check ∷ dns ∷ route_tls ∷ smoke_test ∷ cutover
    ∷ []

unfoldable pub persist_steps : Deployment → Deployment
persist_steps d = elim d.steps [ [] ↦ record d { steps = enumerate 1 step_names } | _ ↦ d ]

module _ {W : Type 0} where
  -- `Deployment.objects.get(pk=…)`
  unfoldable pub get : Hub W → ℕ → Option Deployment
  get hub k = find (λ (d : Deployment). d.pk) k hub.deployments

  -- A write to the row with this key.
  unfoldable pub put : ℕ → (Deployment → Deployment) → Hub W → Hub W
  put k f hub = record hub { deployments = update (λ (d : Deployment). d.pk) k f hub.deployments }

  -- A write to one step of the row with this key.
  unfoldable pub put_step : ℕ → ℕ → (DeploymentStep → DeploymentStep) → Hub W → Hub W
  unfolding put
  put_step k seq f hub =
      put k
        (λ (d : Deployment). record d {
          steps = update (λ (s : DeploymentStep). s.seq) seq f d.steps;
        })
        hub

abbrev pub set_status : Status → Deployment → Deployment
set_status st d = record d { status = st }
