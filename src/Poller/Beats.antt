-- ===== src/Poller/Beats.antt =====
-- Heartbeats, tasks and keys in the state of deploys/poller.py: what makes a state in order.
use deploy_hub.Prelude.{
  ℕ, suc, ◌<◌, String, ◌≡◌, refl, Bool, true, false, not, ◌&&◌, ◌||◌, none, some, List, [], ◌∷◌,
  ◌++◌, ◌==◌, arith, str_eq, first, is_some, is_in, Bool-cases, inl, inr,
}
use deploy_hub.Deploy.State.{queued, is_queued}
use deploy_hub.Poller.{Poller, Site, Manifest, Deployment, enqueue, queued_for_sha, beat}

-- Whether each queued row of a key has its heartbeat set.
abbrev pub is_beating : ℕ → List Deployment → Bool
is_beating k [] = true
is_beating k (d ∷ ds) =
    (not (d.pk == k && is_queued d.status) || is_some d.last_heartbeat) && is_beating k ds

abbrev pub Unique : List ℕ → Type 0
Unique [] = Unit
Unique (k ∷ ks) = (is_in k ks ≡ false) × Unique ks

abbrev pub Below : ℕ → List ℕ → Type 0
Below n [] = Unit
Below n (k ∷ ks) = (k < n) × Below n ks

pub record IsOnce (s : Poller) : Type 0 where
  pub once : Unique s.queue
  pub queue_below : Below s.next_deployment s.queue
  pub waiting_below : Below s.next_deployment s.waiting
  pub rows_below : (k : ℕ) → s.next_deployment < suc k → is_beating k s.deployments ≡ true
  pub told :
      (k : ℕ)
      → is_in k s.queue ≡ true
      → (not (is_in k s.waiting) || is_beating k s.deployments) ≡ true

pub Below-suc : (n : ℕ) (ks : List ℕ) → Below n ks → Below (suc n) ks
Below-suc n [] h = tt
Below-suc n (k ∷ ks) h = ground (arith, Below-suc n ks)

pub Below-absent : (n : ℕ) (ks : List ℕ) → Below n ks → is_in n ks ≡ false
Below-absent n [] h = refl
Below-absent n (k ∷ ks) h = ground (arith, Below-absent n ks)

pub beat-is_beating :
    (k j now : ℕ) (ds : List Deployment)
    → is_beating j (beat k now ds) ≡ (k == j || is_beating j ds)
unfolding beat
beat-is_beating k j now [] = ground arith
beat-is_beating k j now (d ∷ ds) = ground (arith, beat-is_beating k j now ds)

snoc-is_beating :
    (k : ℕ) (d : Deployment) (ds : List Deployment)
    → is_beating k (ds ++ d ∷ [])
      ≡ ((not (d.pk == k && is_queued d.status) || is_some d.last_heartbeat) && is_beating k ds)
snoc-is_beating k d [] = ground arith
snoc-is_beating k d (x ∷ ds) = ground (arith, snoc-is_beating k d ds)

pub is_in-Below : (n k : ℕ) (ks : List ℕ) → Below n ks → is_in k ks ≡ true → k < n
is_in-Below n k [] h e = absurd (cc)
is_in-Below n k (x ∷ ks) h e = ground (arith, is_in-Below n k ks)

-- A queued row that has no heartbeat.
first-unbeaten :
    (p : Deployment → Bool) (d : Deployment) (ds : List Deployment)
    → first p ds ≡ some d
    → (p d && is_queued d.status) ≡ true
    → is_some d.last_heartbeat ≡ false
    → is_beating d.pk ds ≡ false
first-unbeaten p d [] e q h = absurd (cc)
first-unbeaten p d (x ∷ ds) e q h = elim (Bool-cases (p x)) [
  | inl t ↦ ground (arith, t, e, q, h)
  | inr t ↦ ground (arith, t, e, first-unbeaten p d ds)
]

first_holds :
    (p : Deployment → Bool) (d : Deployment) (ds : List Deployment)
    → first p ds ≡ some d
    → p d ≡ true
first_holds p d [] e = absurd (cc)
first_holds p d (x ∷ ds) e = ground (arith, first_holds p d ds)

pub queued_for_sha-unbeaten :
    (site : Site) (sha : String) (d : Deployment) (s : Poller)
    → queued_for_sha site sha s ≡ some d
    → is_some d.last_heartbeat ≡ false
    → is_beating d.pk s.deployments ≡ false
unfolding queued_for_sha
queued_for_sha-unbeaten site sha d s e h =
    let p : Deployment → Bool = λ (d : Deployment).
      d.manifest.site == site.pk && (is_queued d.status && str_eq d.manifest.git_sha sha) in
    let holds = first_holds p d s.deployments e in
    first-unbeaten p d s.deployments e (ground arith) h

pub enqueue-is_beating :
    (k : ℕ) (site : Site) (sha : String) (latest : Manifest) (s : Poller)
    → is_beating k (enqueue site sha latest s).1.deployments
      ≡ (not (s.next_deployment == k) && is_beating k s.deployments)
unfolding enqueue is_queued
enqueue-is_beating k site sha latest s =
    let d : Deployment = record {
      pk = s.next_deployment;
      manifest = record {
        pk = s.next_manifest;
        site = site.pk;
        version = suc latest.version;
        git_sha = sha;
        rest = latest.rest;
      };
      status = queued;
      last_heartbeat = none;
    } in
    ground (arith, snoc-is_beating k d s.deployments)
