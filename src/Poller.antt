-- ===== src/Poller.antt =====
-- deploys/poller.py: the poll that turns a moved branch head into a queued deployment.
-- `blocked` is validate_git_url with the code of its refusal, `ls_remote` the head of a branch on the
-- remote, "" when there is none, and `in_window` the test of a site's cron line at an instant.
-- Of a manifest's body only `git_sha` is read here, "" when it is missing; the rest is copied.
pub mod Beats
pub mod Once
pub mod Runs
pub mod Repeat
use deploy_hub.Prelude.{
  ℕ, suc, String, Bool, true, false, not, ◌&&◌, ◌||◌, Option, none, some, List, [], ◌∷◌, ◌++◌, ◌==◌,
  ltb, str_eq, if◌then◌else◌, first, map, is_some, is_in,
}
use deploy_hub.Deploy.State.{Status, queued, succeeded, is_queued}

pub data DeployPolicy : Type 0 where
  auto confirm windowed : DeployPolicy

-- A site with what is read of its project.
pub record Site : Type 0 where
  pub pk : ℕ
  pub git_url : String
  pub git_ref : String
  pub deploy_policy : DeployPolicy
  pub deploy_window_cron : String

pub record Manifest : Type 0 where
  pub pk : ℕ
  pub site : ℕ
  pub version : ℕ
  pub git_sha : String
  pub rest : String

pub record Deployment : Type 0 where
  pub pk : ℕ
  pub manifest : Manifest
  pub status : Status
  pub last_heartbeat : Option ℕ

-- `waiting` holds the deployments of the "deploy-waiting" entries of the audit trail, and `queue` the
-- enqueued run_deploy tasks, each with the newest first.
pub record Poller : Type 0 where
  pub manifests : List Manifest
  pub deployments : List Deployment
  pub waiting : List ℕ
  pub blocked : List (ℕ × String)
  pub unconfirmed : List (ℕ × String)
  pub queue : List ℕ
  pub next_manifest : ℕ
  pub next_deployment : ℕ

abbrev is_succeeded : Status → Bool
is_succeeded succeeded = true
is_succeeded _ = false

abbrev pub is_windowed : DeployPolicy → Bool
is_windowed windowed = true
is_windowed _ = false

abbrev pub is_confirm : DeployPolicy → Bool
is_confirm confirm = true
is_confirm _ = false

-- The row that has most by a measure: `.order_by("-…").first()`, where the measure is unique.
abbrev pub most {ℓ} : {A : Type ℓ} → (A → ℕ) → (A → Bool) → List A → Option A
most by p [] = none
most by p (x ∷ xs) =
    let rest = most by p xs in
    let better : Option _ = elim rest [
      | none ↦ some x
      | some y ↦ if ltb (by x) (by y) then some y else some x
    ] in
    if p x then better else rest

unfoldable pub last_deployed_sha : Site → Poller → String
last_deployed_sha site s =
    elim (most (λ (d : Deployment). d.pk)
      (λ (d : Deployment). d.manifest.site == site.pk && is_succeeded d.status) s.deployments) [
        | none ↦ ""
        | some d ↦ d.manifest.git_sha
      ]

unfoldable pub latest_manifest : Site → Poller → Option Manifest
latest_manifest site s =
    most (λ (m : Manifest). m.version) (λ (m : Manifest). m.site == site.pk) s.manifests

-- _enqueue, with the key of the new deployment.
unfoldable pub enqueue : Site → String → Manifest → Poller → ℕ × Poller
enqueue site sha latest s =
    let manifest : Manifest = record {
      pk = s.next_manifest;
      site = site.pk;
      version = suc latest.version;
      git_sha = sha;
      rest = latest.rest;
    } in
    let deployment : Deployment = record {
      pk = s.next_deployment;
      manifest = manifest;
      status = queued;
      last_heartbeat = none;
    } in
    (
      s.next_deployment,
      record s {
        manifests = s.manifests ++ manifest ∷ [];
        deployments = s.deployments ++ deployment ∷ [];
        next_manifest = suc s.next_manifest;
        next_deployment = suc s.next_deployment;
      },
    )

unfoldable pub queued_for_sha : Site → String → Poller → Option Deployment
queued_for_sha site sha s =
    first
      (λ (d : Deployment).
        d.manifest.site == site.pk && (is_queued d.status && str_eq d.manifest.git_sha sha))
      s.deployments

-- `filter(pk=…, status=QUEUED).update(last_heartbeat=now)`
unfoldable pub beat : ℕ → ℕ → List Deployment → List Deployment
beat k now [] = []
beat k now (d ∷ ds) =
    (if d.pk == k && is_queued d.status then record d { last_heartbeat = some now } else d)
    ∷ beat k now ds

-- enqueue_run_deploy
unfoldable pub delay : ℕ → Poller → Poller
delay k s = record s { queue = k ∷ s.queue }

-- What follows the creation of a deployment that waits for its window, and of one that does not.
unfoldable pub park : ℕ × Poller → Poller
park (k, s) = record s { waiting = k ∷ s.waiting }

unfoldable pub send : ℕ × Poller → Poller
send (k, s) = delay k s

module _ (in_window : String → ℕ → Bool) (now : ℕ) where
  -- The promotion of the deployment that was found.
  unfoldable pub promote : Option Deployment → Poller → Poller
  promote none s = s
  promote (some d) s =
      if is_some d.last_heartbeat || not (is_in d.pk s.waiting)
      then s
      else delay d.pk (record s { deployments = beat d.pk now s.deployments })

  unfoldable pub promote_waiting : Site → String → Poller → Poller
  promote_waiting site sha s =
      if not (is_windowed site.deploy_policy && in_window site.deploy_window_cron now)
      then s
      else promote (queued_for_sha site sha s) s

  -- A head that is neither deployed nor in the latest manifest.
  unfoldable pub meet_head : Site → String → Manifest → Poller → Poller
  meet_head site sha latest s =
      if is_confirm site.deploy_policy
      then record s { unconfirmed = (site.pk, sha) ∷ s.unconfirmed }
      else if is_windowed site.deploy_policy && not (in_window site.deploy_window_cron now)
      then park (enqueue site sha latest s)
      else send (enqueue site sha latest s)

  unfoldable pub poll_head : Site → String → Option Manifest → Poller → Poller
  poll_head site sha none s = s
  poll_head site sha (some latest) s =
      if str_eq sha (last_deployed_sha site s)
      then s
      else if str_eq sha latest.git_sha
      then promote_waiting site sha s
      else meet_head site sha latest s

  module _ (blocked : String → Option String) (ls_remote : String → String → String) where
    -- One turn of the loop of poll.
    unfoldable pub poll_site : Site → Poller → Poller
    poll_site site s = elim (blocked site.git_url) [
      | some code ↦ record s { blocked = (site.pk, code) ∷ s.blocked }
      | none ↦
          let sha = ls_remote site.git_url site.git_ref in
          if str_eq sha "" then s else poll_head site sha (latest_manifest site s) s
    ]

    unfoldable pub poll_each : List Site → Poller → Poller
    unfolding poll_site
    poll_each [] s = s
    poll_each (site ∷ sites) s =
        if str_eq site.git_url "" then poll_each sites s else poll_each sites (poll_site site s)

-- enqueue_git_push: a poll in which only the address and the branch of the hint have a head. None is the
-- ValidationError of an address that is refused.
unfoldable pub enqueue_git_push :
    (String → ℕ → Bool)
    → ℕ
    → (String → Option String)
    → (String → String → String)
    → String
    → String
    → List Site
    → Poller
    → Option Poller
enqueue_git_push in_window now blocked ls_remote git_url ref sites s =
    let lookup : String → String → String = λ url remote_ref.
      if str_eq url git_url && str_eq remote_ref ref then ls_remote url remote_ref else "" in
    if is_some (blocked git_url)
    then none
    else some (poll_each in_window now blocked lookup sites s)
