-- ===== src/Deploy/Begin/Rivals.antt =====
-- _supersede_running leaves no running rival on the site, and touches no other deployment.
use deploy_hub.Prelude.{
  ℕ, ◌≡◌, refl, Bool, true, false, ◌∙◌, some, List, [], ◌∷◌, ◌==◌, arith, if◌then◌else◌, filter,
  any, Option-cases, inl, inr, map,
}
use mathlib.Core.Option
use deploy_hub.Prelude.Table.{find, update}
use deploy_hub.Locks.Table.{IsUnique}
use deploy_hub.Deploy.State.{superseded, Deployment, Hub, put, get, set_status, is_running}
use deploy_hub.Deploy.Begin.{release_deploy_locks, supersede_each, supersede_running, is_rival}
use deploy_hub.Deploy.Begin.Holders.{release_each-IsUnique}

abbrev pub is_listed : List Deployment → ℕ → Bool
is_listed others k = any (λ (o : Deployment). o.pk == k) others

abbrev pub mark : List Deployment → Deployment → Deployment
mark others d = if is_listed others d.pk then set_status superseded d else d

mark-update :
    (old : Deployment) (others rows : List Deployment)
    → map (mark others) (update (λ (d : Deployment). d.pk) old.pk (set_status superseded) rows)
      ≡ map (mark (old ∷ others)) rows
unfolding update
mark-update old others [] = refl
mark-update old others (d ∷ rows) = ground (arith, mark-update old others rows)

module _ {W : Type 0} where
  pub deployments-supersede_each :
      (others : List Deployment) (hub : Hub W)
      → (supersede_each others hub).deployments ≡ map (mark others) hub.deployments
  unfolding supersede_each release_deploy_locks put
  deployments-supersede_each [] hub = map_id hub.deployments
    where
      map_id : (rows : List Deployment) → rows ≡ map (mark []) rows
      map_id [] = refl
      map_id (d ∷ rows) = ground (arith, map_id rows)
  deployments-supersede_each (old ∷ others) hub =
      deployments-supersede_each others
        (release_deploy_locks old.pk (put old.pk (set_status superseded) hub))
      ∙ mark-update old others hub.deployments

  pub supersede_each-IsUnique :
      (others : List Deployment) (hub : Hub W)
      → IsUnique hub.locks
      → IsUnique (supersede_each others hub).locks
  unfolding supersede_each release_deploy_locks put
  supersede_each-IsUnique [] hub u = u
  supersede_each-IsUnique (old ∷ others) hub u =
      supersede_each-IsUnique others
        (release_deploy_locks old.pk (put old.pk (set_status superseded) hub))
        (release_each-IsUnique _ _ hub.locks u)

no_rival_in :
    (site k : ℕ) (others rows : List Deployment)
    → ((x : ℕ) → is_listed (filter (is_rival site k) rows) x ≡ true → is_listed others x ≡ true)
    → any (is_rival site k) (map (mark others) rows) ≡ false
unfolding is_rival is_running
no_rival_in site k others [] h = refl
no_rival_in site k others (d ∷ rows) h =
    ground (arith, h d.pk, no_rival_in site k others rows (λ x e. h x (ground arith)))

find-mark :
    (others rows : List Deployment) (k : ℕ)
    → find (λ (d : Deployment). d.pk) k (map (mark others) rows)
      ≡ Option.map (mark others) (find (λ (d : Deployment). d.pk) k rows)
unfolding find
find-mark others [] k = refl
find-mark others (d ∷ rows) k = ground (arith, find-mark others rows k)

not_rival_of_self :
    (site k : ℕ) (rows : List Deployment) → is_listed (filter (is_rival site k) rows) k ≡ false
unfolding is_rival
not_rival_of_self site k [] = refl
not_rival_of_self site k (d ∷ rows) = ground (arith, not_rival_of_self site k rows)

find-pk :
    (rows : List Deployment) (k : ℕ) (d : Deployment)
    → find (λ (d : Deployment). d.pk) k rows ≡ some d
    → d.pk ≡ k
unfolding find
find-pk [] k d e = cc
find-pk (r ∷ rows) k d e = ground (arith, find-pk rows k d)

module _ {W : Type 0} (site k : ℕ) (hub : Hub W) where
  -- Afterwards no other deployment of the site runs.
  pub any-supersede_running :
      any (is_rival site k) (supersede_running site k hub).deployments ≡ false
  unfolding supersede_running
  any-supersede_running =
      rw (deployments-supersede_each (filter (is_rival site k) hub.deployments) hub)
        (no_rival_in site k _ hub.deployments (λ x e. e))

  -- The deployment that starts keeps its row.
  pub get-supersede_running : get (supersede_running site k hub) k ≡ get hub k
  unfolding supersede_running get
  get-supersede_running =
      let others = filter (is_rival site k) hub.deployments in
      rw (deployments-supersede_each others hub)
        (elim (Option-cases (find (λ (d : Deployment). d.pk) k hub.deployments)) [
          | inl e ↦ ground (arith, find-mark others hub.deployments k)
          | inr (d, e) ↦ ground (
            arith,
            find-mark others hub.deployments k,
            not_rival_of_self site k hub.deployments,
            find-pk hub.deployments k d,
          )
        ])

  pub supersede_running-IsUnique :
      IsUnique hub.locks → IsUnique (supersede_running site k hub).locks
  unfolding supersede_running
  supersede_running-IsUnique u = supersede_each-IsUnique _ hub u
