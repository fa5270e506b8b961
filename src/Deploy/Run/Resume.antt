-- ===== src/Deploy/Run/Resume.antt =====
-- Resume: a run goes on at the first step that is not done, and what ends a run well has done all.
use deploy_hub.Prelude.{
  ℕ, ◌≡◌, refl, Bool, true, false, some, List, [], ◌∷◌, ◌++◌, arith, if◌then◌else◌, all,
}
use deploy_hub.Deploy.State.{
  StepName, DeploymentStep, Deployment, Hub, is_running, is_done, get, resume_step,
}
use deploy_hub.Deploy.Effect.{Effect, ◌>>=◌, ◌>>◌}
use deploy_hub.Deploy.Run.{Call, Crash, load, run_step, run_steps}

abbrev pub all_done : List DeploymentStep → Bool
all_done = all (λ (s : DeploymentStep). is_done s.status)

module _ {W : Type 0} (outside : Call → ℕ → Effect W (Unit {0})) (crash_hook : StepName → ℕ → Crash)
    (k : ℕ) (rollback : Bool) where
  one_step :
      (s : DeploymentStep) (steps : List DeploymentStep) (hub : Hub W) (d : Deployment)
      → get hub k ≡ some d
      → is_running d.status ≡ true
      → run_steps outside crash_hook k rollback (s ∷ steps) hub
        ≡ (if is_done s.status
              then run_steps outside crash_hook k rollback steps
              else run_step outside crash_hook k rollback s
                >> run_steps outside crash_hook k rollback steps)
            hub
  unfolding run_steps load ◌>>=◌
  one_step s steps hub d row running = rw (row, load) (rw running refl)

  -- While the deployment runs, the loop skips the steps that are done and goes on with the first
  -- that is not, which is the one that resume_step names.
  pub run_steps-resume_step :
      (before after : List DeploymentStep) (s : DeploymentStep) (hub : Hub W) (d : Deployment)
      → all_done before ≡ true
      → is_done s.status ≡ false
      → get hub k ≡ some d
      → is_running d.status ≡ true
      → (resume_step (before ++ s ∷ after) ≡ some s)
        × (run_steps outside crash_hook k rollback (before ++ s ∷ after) hub
            ≡ (run_step outside crash_hook k rollback s
                  >> run_steps outside crash_hook k rollback after)
                hub)
  unfolding resume_step
  run_steps-resume_step [] after s hub d done pending row running =
      (rw pending, rw (one_step s after hub d row running) (rw pending refl))
  run_steps-resume_step (b ∷ before) after s hub d done pending row running =
      let head : is_done b.status ≡ true = ground arith in
      let tail : all_done before ≡ true = ground arith in
      let later = run_steps-resume_step before after s hub d tail pending row running in
      (rw head later.0, rw (one_step b (before ++ s ∷ after) hub d row running) (rw head later.1))
