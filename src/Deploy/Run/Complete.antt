-- ===== src/Deploy/Run/Complete.antt =====
-- A run that goes through its loop leaves no step open.
use deploy_hub.Prelude.{
  ℕ, ◌≡◌, refl, ap, Bool, true, not, ◌||◌, Option, none, some, List, [], ◌∷◌, arith, if◌then◌else◌,
  Option-cases, inl, inr, all, is_in,
}
use mathlib.Core.Option
use deploy_hub.Prelude.Table.{update, find-update_self}
use deploy_hub.Deploy.State.{
  Status, StepName, StepStatus, DeploymentStep, Deployment, Hub, is_running, is_done, get, put,
  put_step, resume_step, succeeded,
}
use deploy_hub.Deploy.Effect.{ok, Effect, ◌>>=◌, ◌>>◌}
use deploy_hub.Deploy.Keeps.{
  Leads, Leads-bind, Leads-on_raise, Leads-if, Leads-return, Leads-modify,
}
use deploy_hub.Deploy.Begin.{touch_heartbeat}
use deploy_hub.Deploy.Run.{
  Call, Crash, off, exception, sigkill, crash, calls_of, mark_running, mark_succeeded,
  mark_deployed, load, run_calls, crash_if_configured, run_step, run_steps, conclude,
  snapshot_and_runbook,
}
use deploy_hub.Deploy.Run.Cleanup.{load-hub}

-- Every step that is not done has its number in `todo`.
abbrev pub open_within : List ℕ → List DeploymentStep → Bool
open_within todo = all (λ (s : DeploymentStep). is_done s.status || is_in s.seq todo)

abbrev pub OpenWithin : {W : Type 0} → ℕ → List ℕ → Hub W → Type 0
OpenWithin k todo hub = (d : Deployment) → get hub k ≡ some d → open_within todo d.steps ≡ true

-- The numbers of the steps that are not done.
abbrev pub open_seqs : List DeploymentStep → List ℕ
open_seqs [] = []
open_seqs (s ∷ steps) =
    let rest = open_seqs steps in if is_done s.status then rest else s.seq ∷ rest

module _ {W : Type 0} (k : ℕ) where
  pub get-put :
      (f : Deployment → Deployment) (hub : Hub W)
      → ((d : Deployment) → (f d).pk ≡ d.pk)
      → get (put k f hub) k ≡ Option.map f (get hub k)
  unfolding get put
  get-put f hub keeps = find-update_self (λ (d : Deployment). d.pk) k f hub.deployments keeps

  -- A row that is read after a write is the row before it, rewritten.
  pub get-put-some :
      (f : Deployment → Deployment) (hub : Hub W) (d : Deployment)
      → ((d : Deployment) → (f d).pk ≡ d.pk)
      → get (put k f hub) k ≡ some d
      → (old : Deployment) × (get hub k ≡ some old) × (d ≡ f old)
  get-put-some f hub d keeps e = elim (Option-cases (get hub k)) [
    | inl gone ↦ absurd (cc (get-put f hub keeps, ap (Option.map f) gone))
    | inr (old, row) ↦ (old, row, ground (arith, get-put f hub keeps, row))
  ]

open_within-touched :
    (todo : List ℕ) (x : ℕ) (f : DeploymentStep → DeploymentStep) (steps : List DeploymentStep)
    → is_in x todo ≡ true
    → ((s : DeploymentStep) → (f s).seq ≡ s.seq)
    → open_within todo steps ≡ true
    → open_within todo (update (λ (s : DeploymentStep). s.seq) x f steps) ≡ true
unfolding update
open_within-touched todo x f [] i keeps h = refl
open_within-touched todo x f (s ∷ steps) i keeps h =
    ground (arith, keeps s, open_within-touched todo x f steps i keeps)

abbrev finish : ℕ → DeploymentStep → DeploymentStep
finish now s = record s { status = StepStatus.succeeded; finished = some now }

open_within-finished :
    (todo : List ℕ) (x now : ℕ) (steps : List DeploymentStep)
    → open_within (x ∷ todo) steps ≡ true
    → open_within todo (update (λ (s : DeploymentStep). s.seq) x (finish now) steps) ≡ true
unfolding update is_done
open_within-finished todo x now [] h = refl
open_within-finished todo x now (s ∷ steps) h =
    ground (arith, open_within-finished todo x now steps)

module _ {W : Type 0} (k : ℕ) (todo : List ℕ) where
  touch-within : (hub : Hub W) → OpenWithin k todo hub → OpenWithin k todo (touch_heartbeat k hub)
  unfolding touch_heartbeat get
  touch-within hub h d e =
      let f = λ (d : Deployment). record d { last_heartbeat = some hub.clock } in
      let (old, row, same) = get-put-some k f hub d (λ d. refl) e in rw same (h old row)

  step-within :
      (after : List ℕ) (x : ℕ) (f : DeploymentStep → DeploymentStep) (hub : Hub W)
      → ((steps : List DeploymentStep)
          → open_within todo steps ≡ true
          → open_within after (update (λ (s : DeploymentStep). s.seq) x f steps) ≡ true)
      → OpenWithin k todo hub
      → OpenWithin k after (put_step k x f hub)
  unfolding put_step
  step-within after x f hub moves h d e =
      let g = λ (d : Deployment). record d {
        steps = update (λ (s : DeploymentStep). s.seq) x f d.steps;
      } in
      let (old, row, same) = get-put-some k g hub d (λ d. refl) e in
      rw same (moves old.steps (h old row))

module _ {W : Type 0} (k x : ℕ) (todo : List ℕ) where
  running-within :
      (hub : Hub W) → OpenWithin k (x ∷ todo) hub → OpenWithin k (x ∷ todo) (mark_running k x hub)
  unfolding mark_running
  running-within hub =
      step-within k (x ∷ todo) (x ∷ todo) x _ hub
        (λ steps. open_within-touched (x ∷ todo) x _ steps (ground arith) (λ s. refl))

  succeeded-within :
      (hub : Hub W) → OpenWithin k (x ∷ todo) hub → OpenWithin k todo (mark_succeeded k x hub)
  unfolding mark_succeeded
  succeeded-within hub =
      step-within k (x ∷ todo) todo x _ hub (λ steps. open_within-finished todo x hub.clock steps)

module _ {W : Type 0} (outside : Call → ℕ → Effect W (Unit {0})) (crash_hook : StepName → ℕ → Crash)
    (k : ℕ)
    (reopens_none : (c : Call) (todo : List ℕ)
      → Leads (OpenWithin k todo) (outside c k) (λ _. OpenWithin k todo)) where
  calls-within :
      (todo : List ℕ) (calls : List Call)
      → Leads (OpenWithin k todo) (run_calls outside crash_hook k calls) (λ _. OpenWithin k todo)
  unfolding run_calls
  calls-within todo [] = Leads-return (λ _. OpenWithin k todo) tt (λ hub h. h)
  calls-within todo (c ∷ calls) =
      Leads-bind (λ _. OpenWithin k todo) _ _ _ (reopens_none c todo) (λ _. calls-within todo calls)

  crash-within :
      (todo : List ℕ) (s : DeploymentStep)
      → Leads
          (OpenWithin k todo)
          (crash_if_configured outside crash_hook k s)
          (λ _. OpenWithin k todo)
  unfolding crash_if_configured
  crash-within todo s = record { at = λ hub a h e. hook (crash_hook s.name s.seq) hub h a e }
    where
      hook :
          (c : Crash) (hub : Hub W)
          → OpenWithin k todo hub
          → (a : Unit {0}) → (crash c k s.seq hub).0 ≡ ok a
          → OpenWithin k todo (crash c k s.seq hub).1
      hook off hub h a e = h
      hook exception hub h a e = absurd (cc)
      hook sigkill hub h a e = absurd (cc)

  step-done :
      (rollback : Bool) (s : DeploymentStep) (todo : List ℕ)
      → Leads
          (OpenWithin k (s.seq ∷ todo))
          (run_step outside crash_hook k rollback s)
          (λ _. OpenWithin k todo)
  unfolding run_step
  step-done rollback s todo =
      let P = OpenWithin {W = W} k (s.seq ∷ todo) in
      let stay = λ (_ : Unit {0}). P in
      Leads-bind stay _ _ _ (Leads-modify P _ (running-within k s.seq todo)) λ _.
        Leads-bind stay _ _ _ (Leads-modify P _ (touch-within k (s.seq ∷ todo))) λ _.
          Leads-bind stay _ _ _
            (Leads-on_raise stay _ _ _ (calls-within (s.seq ∷ todo) (calls_of s.name rollback)))
            λ _. Leads-bind stay _ _ _ (crash-within (s.seq ∷ todo) s) λ _.
              Leads-bind stay _ _ _
                (Leads-if stay _ _ _ (λ _. reopens_none snapshot_and_runbook (s.seq ∷ todo))
                  (λ _. Leads-return stay tt (λ hub h. h)))
                λ _.
                  Leads-bind (λ _. OpenWithin k todo) _ _ _
                    (Leads-modify (OpenWithin k todo) _ (succeeded-within k s.seq todo))
                    λ _. Leads-modify (OpenWithin k todo) _ (touch-within k todo)

  -- Of a loop that came through, no step is open.
  abbrev Finished : Option Status → Hub W → Type 0
  Finished none hub = OpenWithin k [] hub
  Finished (some st) hub = Unit

  load-within :
      (todo : List ℕ) → Leads (OpenWithin {W = W} k todo) (load k) (λ _. OpenWithin k todo)
  load-within todo = record { at = λ hub d h e. rw (load-hub k hub) h }

  steps-done :
      (rollback : Bool) (steps : List DeploymentStep)
      → Leads
          (OpenWithin k (open_seqs steps))
          (run_steps outside crash_hook k rollback steps)
          Finished
  unfolding run_steps
  steps-done rollback [] = Leads-return Finished none (λ hub h. h)
  steps-done rollback (s ∷ steps) =
      Leads-bind (λ _. OpenWithin k (open_seqs (s ∷ steps))) Finished _ _
        (load-within (open_seqs (s ∷ steps)))
        λ d.
          let rest = run_steps outside crash_hook k rollback steps in
          let run = run_step outside crash_hook k rollback s >> rest in
          Leads-if Finished (not (is_running d.status)) _ (if is_done s.status then rest else run)
            (λ _. Leads-return Finished (some d.status) (λ hub h. tt))
            λ _.
              Leads-if Finished (is_done s.status) rest run
                (λ done. rw done (steps-done rollback steps))
                λ pending. rw pending (
                  Leads-bind (λ _. OpenWithin k (open_seqs steps)) Finished _ _
                    (step-done rollback s (open_seqs steps)) λ _. steps-done rollback steps)

open_within-open_seqs :
    (todo : List ℕ) (steps : List DeploymentStep)
    → ((x : ℕ) → is_in x (open_seqs steps) ≡ true → is_in x todo ≡ true)
    → open_within todo steps ≡ true
open_within-open_seqs todo [] h = refl
open_within-open_seqs todo (s ∷ steps) h =
    ground (arith, h s.seq, open_within-open_seqs todo steps (λ x e. h x (ground arith)))

open_within-resume_step :
    (steps : List DeploymentStep) → open_within [] steps ≡ true → resume_step steps ≡ none
unfolding resume_step
open_within-resume_step [] h = refl
open_within-resume_step (s ∷ steps) h = ground (arith, open_within-resume_step steps)

module _ {W : Type 0} (outside : Call → ℕ → Effect W (Unit {0})) (crash_hook : StepName → ℕ → Crash)
    (k : ℕ)
    (reopens_none : (c : Call) (todo : List ℕ)
      → Leads (OpenWithin k todo) (outside c k) (λ _. OpenWithin k todo)) where
  -- If no call that returns reopens a step, a loop over the steps of the row that comes through leaves
  -- nothing to resume in a row that is still running, and that row is then written as succeeded and its
  -- site as not stale.
  pub succeeded_means_all_done :
      (rollback : Bool) (site : ℕ) (hub hub' : Hub W) (row d : Deployment)
      → get hub k ≡ some row
      → run_steps outside crash_hook k rollback row.steps hub ≡ (ok none, hub')
      → get hub' k ≡ some d
      → is_running d.status ≡ true
      → (resume_step d.steps ≡ none)
        × (conclude outside crash_hook k site none hub'
            ≡ (ok (record { started = true; status = some succeeded }), mark_deployed k site hub'))
  unfolding conclude load ◌>>=◌
  succeeded_means_all_done rollback site hub hub' row d at_start through at_end running =
      let initial : OpenWithin k (open_seqs row.steps) hub = λ e same.
        rw (let eq : e ≡ row = cc in eq)
          (open_within-open_seqs (open_seqs row.steps) row.steps (λ x i. i)) in
      let finished =
        (steps-done outside crash_hook k reopens_none rollback row.steps).at hub none initial
          (ap (λ p. p.0) through) in
      let there : OpenWithin k [] hub' = rw (ap (λ p. p.1) through) at finished in
      (open_within-resume_step d.steps (there d at_end), rw (at_end, load) (rw running refl))
