-- ===== src/Deploy/Sweep/Settles.antt =====
-- What a sweep does to each deployment.
use deploy_hub.Prelude.{
  ℕ, ◌≡◌, refl, Bool, true, false, not, ◌&&◌, Option, none, some, List, [], ◌∷◌, arith,
  if◌then◌else◌, Option-cases, inl, inr, ◌==◌, map, filter, ==_iff, Bool-cases, is_in,
}
use mathlib.Core.Option
use deploy_hub.Prelude.Table.{find, find-update_ne}
use deploy_hub.Deploy.State.{
  Status, succeeded, failed, Deployment, Hub, is_running, get, put, set_status, resume_step,
}
use deploy_hub.Deploy.Begin.{release_deploy_locks, touch_heartbeat}
use deploy_hub.Deploy.Run.Complete.{get-put}
use deploy_hub.Deploy.Sweep.{
  is_stale, is_failed, finalize, requeue, sweep_one, sweep_each, stale_ids, sweep,
}

-- What becomes of the row of a stale deployment.
abbrev pub settled_row : ℕ → Deployment → Deployment
settled_row now d = elim (resume_step d.steps) [
  | none ↦ set_status succeeded d
  | some pointer ↦
      if is_failed pointer.status
      then set_status failed d
      else record d { last_heartbeat = some now }
]

module _ {W : Type 0} where
  get-put_ne :
      (k j : ℕ) (f : Deployment → Deployment) (hub : Hub W)
      → ((d : Deployment) → (f d).pk ≡ d.pk)
      → (k == j) ≡ false
      → get (put k f hub) j ≡ get hub j
  unfolding get put
  get-put_ne k j f hub keeps ne =
      find-update_ne (λ (d : Deployment). d.pk) k j f hub.deployments keeps ne

  get-finalize :
      (k : ℕ) (st : Status) (hub : Hub W)
      → get (finalize k st hub) k ≡ Option.map (set_status st) (get hub k)
  unfolding release_deploy_locks get
  get-finalize k st hub = get-put k (set_status st) hub (λ d. refl)

  get-finalize_ne :
      (k j : ℕ) (st : Status) (hub : Hub W)
      → (k == j) ≡ false
      → get (finalize k st hub) j ≡ get hub j
  unfolding release_deploy_locks get
  get-finalize_ne k j st hub ne = get-put_ne k j (set_status st) hub (λ d. refl) ne

  get-requeue :
      (k : ℕ) (hub : Hub W)
      → get (requeue k hub) k
        ≡ Option.map (λ (d : Deployment). record d { last_heartbeat = some hub.clock }) (get hub k)
  unfolding touch_heartbeat get
  get-requeue k hub = get-put k _ hub (λ d. refl)

  get-requeue_ne : (k j : ℕ) (hub : Hub W) → (k == j) ≡ false → get (requeue k hub) j ≡ get hub j
  unfolding touch_heartbeat get
  get-requeue_ne k j hub ne = get-put_ne k j _ hub (λ d. refl) ne

  -- The row of a running deployment is settled by its resume step.
  pub get-sweep_one_self :
      (k : ℕ) (hub : Hub W) (d : Deployment)
      → get hub k ≡ some d
      → is_running d.status ≡ true
      → get (sweep_one k hub).0 k ≡ some (settled_row hub.clock d)
  unfolding sweep_one
  get-sweep_one_self k hub d row run =
      ground
        (arith, row, get-finalize k succeeded hub, get-finalize k failed hub, get-requeue k hub)

  get-sweep_one_skip :
      (k j : ℕ) (hub : Hub W) (d : Deployment)
      → get hub k ≡ some d
      → is_running d.status ≡ false
      → get (sweep_one k hub).0 j ≡ get hub j
  unfolding sweep_one
  get-sweep_one_skip k j hub d row run = ground (arith, row)

  get-sweep_one_ne :
      (k j : ℕ) (hub : Hub W) → (k == j) ≡ false → get (sweep_one k hub).0 j ≡ get hub j
  unfolding sweep_one
  get-sweep_one_ne k j hub ne = ground (
    arith,
    get-finalize_ne k j succeeded hub ne,
    get-finalize_ne k j failed hub ne,
    get-requeue_ne k j hub ne,
  )

  clock-sweep_one : (k : ℕ) (hub : Hub W) → (sweep_one k hub).0.clock ≡ hub.clock
  unfolding sweep_one release_deploy_locks touch_heartbeat
  clock-sweep_one k hub = ground arith

pub settled_row-fresh : (now : ℕ) (d : Deployment) → is_stale now (settled_row now d) ≡ false
unfolding is_stale is_running
settled_row-fresh now d = ground arith

abbrev pub is_stale_row : ℕ → Option Deployment → Bool
is_stale_row now none = false
is_stale_row now (some d) = is_stale now d

stale_is_listed :
    (k now : ℕ) (rows : List Deployment)
    → is_stale_row now (find (λ (d : Deployment). d.pk) k rows) ≡ true
    → is_in k (map (λ (d : Deployment). d.pk) (filter (is_stale now) rows)) ≡ true
unfolding find
stale_is_listed k now [] h = h
stale_is_listed k now (d ∷ rows) h = ground (arith, stale_is_listed k now rows)

module _ {W : Type 0} where
  -- The deployment with this key is running with an old heartbeat.
  abbrev pub stale_at : ℕ → Hub W → Bool
  stale_at k hub = is_stale_row hub.clock (get hub k)

  sweep_one-none : (k : ℕ) (hub : Hub W) → get hub k ≡ none → (sweep_one k hub).0 ≡ hub
  unfolding sweep_one
  sweep_one-none k hub e = ground (arith, e)

  stale_at-sweep_one_self : (k : ℕ) (hub : Hub W) → stale_at k (sweep_one k hub).0 ≡ false
  unfolding is_stale
  stale_at-sweep_one_self k hub = elim (Option-cases (get hub k)) [
    | inl e ↦ rw (sweep_one-none k hub e) (rw e refl)
    | inr (d, e) ↦ elim (Bool-cases (is_running d.status)) [
      | inl run ↦
          rw (clock-sweep_one k hub)
            (rw (get-sweep_one_self k hub d e run) (settled_row-fresh hub.clock d))
      | inr run ↦ rw (get-sweep_one_skip k k hub d e run) (rw e (ground (arith, run)))
    ]
  ]

  stale_at-sweep_one :
      (k j : ℕ) (hub : Hub W) → stale_at j (sweep_one k hub).0 ≡ stale_at j hub && not (k == j)
  stale_at-sweep_one k j hub = elim (Bool-cases (k == j)) [
    | inl same ↦ rw (← (==_iff k j).0 same) (ground (arith, stale_at-sweep_one_self k hub))
    | inr ne ↦ rw (get-sweep_one_ne k j hub ne) (rw (clock-sweep_one k hub) (ground (arith, ne)))
  ]

  stale_at-sweep_each :
      (ids : List ℕ) (k : ℕ) (hub : Hub W)
      → stale_at k (sweep_each ids hub).0 ≡ stale_at k hub && not (is_in k ids)
  unfolding sweep_each
  stale_at-sweep_each [] k hub = ground arith
  stale_at-sweep_each (i ∷ ids) k hub =
      ground (arith, stale_at-sweep_each ids k (sweep_one i hub).0, stale_at-sweep_one i k hub)

  -- No deployment is left running with an old heartbeat.
  pub sweep-leaves_none_stale : (k : ℕ) (hub : Hub W) → stale_at k (sweep hub).0 ≡ false
  unfolding sweep stale_ids get
  sweep-leaves_none_stale k hub = ground (
    arith,
    stale_at-sweep_each (stale_ids hub) k hub,
    stale_is_listed k hub.clock hub.deployments,
  )

  get-sweep_each_other :
      (ids : List ℕ) (k : ℕ) (hub : Hub W)
      → is_in k ids ≡ false
      → get (sweep_each ids hub).0 k ≡ get hub k
  unfolding sweep_each
  get-sweep_each_other [] k hub h = refl
  get-sweep_each_other (i ∷ ids) k hub h =
      ground (arith, get-sweep_each_other ids k (sweep_one i hub).0, get-sweep_one_ne i k hub)

  -- A deployment whose id the sweep did not list keeps its row.
  pub get-sweep_other :
      (k : ℕ) (hub : Hub W) → is_in k (stale_ids hub) ≡ false → get (sweep hub).0 k ≡ get hub k
  unfolding sweep
  get-sweep_other k hub h = get-sweep_each_other (stale_ids hub) k hub h
