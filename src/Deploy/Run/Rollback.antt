-- ===== src/Deploy/Run/Rollback.antt =====
-- Which row a rollback runs.
use deploy_hub.Prelude.{ℕ, suc, ◌≡◌, refl, none, some, List, [], ◌∷◌, ◌++◌, arith, ◌<◌, All}
use deploy_hub.Prelude.Table.{find}
use deploy_hub.Deploy.State.{queued, StepName, Deployment, Hub, get}
use deploy_hub.Deploy.Effect.{Effect, ◌>>=◌}
use deploy_hub.Deploy.Run.{Call, Crash, load, execute, rollback}

-- The row that a rollback creates.
abbrev pub rollback_row : ℕ → Deployment → Deployment
rollback_row created original = record {
  pk = created;
  manifest = original.manifest;
  status = queued;
  last_heartbeat = none;
  rollback_of = some original.pk;
  steps = [];
}

-- The next key is above every key in use.
abbrev pub FreshPk : {W : Type 0} → Hub W → Type 0
FreshPk hub = All (λ (d : Deployment). d.pk < hub.next_pk) hub.deployments

find-append_fresh :
    (n : ℕ) (rows : List Deployment) (d : Deployment)
    → All (λ (r : Deployment). r.pk < n) rows
    → d.pk ≡ n
    → find (λ (r : Deployment). r.pk) n (rows ++ d ∷ []) ≡ some d
unfolding find
find-append_fresh n [] d h e = ground arith
find-append_fresh n (r ∷ rows) d h e = ground (arith, find-append_fresh n rows d)

find-append_old :
    (k n : ℕ) (rows : List Deployment) (d original : Deployment)
    → find (λ (r : Deployment). r.pk) k rows ≡ some original
    → find (λ (r : Deployment). r.pk) k (rows ++ d ∷ []) ≡ some original
unfolding find
find-append_old k n [] d original e = absurd (cc)
find-append_old k n (r ∷ rows) d original e = ground (arith, find-append_old k n rows d original)

-- The hub in which a rollback runs its new deployment.
abbrev pub with_row : {W : Type 0} → Hub W → Deployment → Hub W
with_row hub d = record hub {
  deployments = hub.deployments ++ rollback_row hub.next_pk d ∷ [];
  next_pk = suc hub.next_pk;
}

module _ {W : Type 0} (outside : Call → ℕ → Effect W (Unit {0}))
    (crash_hook : StepName → ℕ → Crash) where
  -- With the next primary key unused, a rollback executes a new queued deployment of the same manifest, which points back at the
  -- original; the original keeps its row.
  pub rollback_lem :
      (k : ℕ) (hub : Hub W) (d : Deployment)
      → get hub k ≡ some d
      → FreshPk hub
      → (rollback outside crash_hook k hub
          ≡ execute outside crash_hook hub.next_pk (with_row hub d))
        × (get (with_row hub d) hub.next_pk ≡ some (rollback_row hub.next_pk d))
        × (get (with_row hub d) k ≡ some d)
  unfolding rollback load get ◌>>=◌
  rollback_lem k hub d row fresh = (
    rw (row, load) refl,
    find-append_fresh hub.next_pk hub.deployments (rollback_row hub.next_pk d) fresh refl,
    find-append_old k hub.next_pk hub.deployments (rollback_row hub.next_pk d) d row,
  )
