-- ===== src/Deploy/Begin.antt =====
-- deploys/pipeline.py up to begin_deploy: the deploy locks, the heartbeat, the supersession.
-- The retries of touch_heartbeat on a busy SQLite file are left out: they repeat the same writes.
pub mod Holders
pub mod Rivals
pub mod Outcome
use deploy_hub.Prelude.{
  ℕ, suc, ◌+◌, ◌≡◌, refl, Bool, true, false, not, ◌&&◌, ◌||◌, Option, none, some, List, [], ◌∷◌,
  ◌==◌, if◌then◌else◌, filter, is_some,
}
use deploy_hub.Locks
use deploy_hub.Locks.{
  OperationLock, Key, Scope, Kind, Ident, kind_eq, ident_eq, acquire, release, heartbeat,
}
use deploy_hub.Deploy.State.{
  Status, running, superseded, Deployment, Hub, is_running, site_of, persist_steps, get, put,
  set_status,
}

-- kind=DEPLOY, holder=str(pk)
unfoldable pub held_by : ℕ → OperationLock → Bool
held_by k r = kind_eq r.key.kind Kind.deploy && ident_eq r.holder (Ident.pk k)

abbrev pub deploy_key : Scope → ℕ → Key
deploy_key scope id = record { scope = scope; object_id = Ident.pk id; kind = Kind.deploy }

-- The site lock, then the target lock; a refused target lock gives the site lock back.
unfoldable pub take_both : ℕ → Key → Key → Ident → List OperationLock → List OperationLock × Bool
take_both now site_key target_key h t =
    let (l2, site_lock) = acquire now site_key h t in
    let (l3, target_lock) = acquire now target_key h l2 in
    if not (is_some site_lock)
    then (l2, false)
    else if not (is_some target_lock)
    then ((release site_key (some h) l3).0, false)
    else (l3, true)

unfoldable pub release_each : Ident → List OperationLock → List OperationLock → List OperationLock
release_each h [] t = t
release_each h (r ∷ rows) t = release_each h rows (release r.key (some h) t).0

unfoldable pub heartbeat_each :
    ℕ → Ident → List OperationLock → List OperationLock → List OperationLock
heartbeat_each now h [] t = t
heartbeat_each now h (r ∷ rows) t = heartbeat_each now h rows (heartbeat now r.key (some h) t).0

-- Running deployments of the site, but for the one that starts.
unfoldable pub is_rival : ℕ → ℕ → Deployment → Bool
is_rival site except d = (site_of d == site) && is_running d.status && not (d.pk == except)

abbrev pub start_row : ℕ → Deployment → Deployment
start_row now d = record (persist_steps d) { status = running; last_heartbeat = some now }

module _ {W : Type 0} where
  unfoldable pub release_deploy_locks : ℕ → Hub W → Hub W
  release_deploy_locks k hub = record hub {
    locks = release_each (Ident.pk k) (filter (held_by k) hub.locks) hub.locks;
  }

  -- _write_heartbeat
  unfoldable pub touch_heartbeat : ℕ → Hub W → Hub W
  unfolding put
  touch_heartbeat k hub =
      let stamped : Hub W =
        put k (λ (d : Deployment). record d { last_heartbeat = some hub.clock }) hub in
      record stamped {
        locks =
            heartbeat_each hub.clock (Ident.pk k) (filter (held_by k) stamped.locks) stamped.locks;
      }

  unfoldable pub supersede_each : List Deployment → Hub W → Hub W
  supersede_each [] hub = hub
  supersede_each (old ∷ others) hub =
      supersede_each others (release_deploy_locks old.pk (put old.pk (set_status superseded) hub))

  unfoldable pub supersede_running : ℕ → ℕ → Hub W → Hub W
  supersede_running site except hub =
      supersede_each (filter (is_rival site except) hub.deployments) hub

  unfoldable pub begin_on : Deployment → ℕ → Hub W → Bool × Hub W
  begin_on d target hub =
      let hub1 = supersede_running (site_of d) d.pk hub in
      let (locks, granted) =
        take_both hub1.clock (deploy_key Scope.site (site_of d)) (deploy_key Scope.target target)
          (Ident.pk d.pk) hub1.locks in
      if granted
      then (true, put d.pk (start_row hub1.clock) (record hub1 { locks = locks }))
      else (false, record hub1 { locks = locks })

  -- `target` defaults to site.primary_target; False without a target.
  unfoldable pub begin_deploy : Deployment → Option ℕ → Hub W → Bool × Hub W
  begin_deploy d (some target) hub = begin_on d target hub
  begin_deploy d none hub = elim d.manifest.site.primary_target [
    | none ↦ (false, hub)
    | some target ↦ begin_on d target hub
  ]
