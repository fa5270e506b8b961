-- ===== src/Poller/Runs.antt =====
-- Polls of deploys/poller.py, and what the workers write to the deployments between them.
use deploy_hub.Prelude.{
  ℕ, String, ◌≡◌, refl, Bool, true, Option, some, List, [], ◌∷◌, ◌==◌, arith, if◌then◌else◌,
}
use deploy_hub.Deploy.State.{Status}
use deploy_hub.Poller.{Poller, Site, Deployment, poll_each}
use deploy_hub.Poller.Beats.{IsOnce, Unique, is_beating}
use deploy_hub.Poller.Once.{poll_each-IsOnce}

-- A poll at an instant, with what it is told, and a worker that has taken a deployment: it gives the
-- row a status and a heartbeat.
pub data Step : Type 0 where
  polls : (String → ℕ → Bool) → ℕ → (String → Option String) → (String → String → String) → Step
  works : ℕ → Status → ℕ → Step

unfoldable pub take_up : ℕ → Status → ℕ → List Deployment → List Deployment
take_up k status now [] = []
take_up k status now (d ∷ ds) =
    (if d.pk == k then record d { status = status; last_heartbeat = some now } else d)
    ∷ take_up k status now ds

unfoldable pub step : List Site → Step → Poller → Poller
step sites (polls in_window now blocked ls_remote) s =
    poll_each in_window now blocked ls_remote sites s
step sites (works k status now) s = record s { deployments = take_up k status now s.deployments }

unfoldable pub run : List Site → List Step → Poller → Poller
run sites [] s = s
run sites (x ∷ steps) s = run sites steps (step sites x s)

take_up-is_beating :
    (k j now : ℕ) (status : Status) (ds : List Deployment)
    → is_beating j ds ≡ true
    → is_beating j (take_up k status now ds) ≡ true
unfolding take_up
take_up-is_beating k j now status [] h = refl
take_up-is_beating k j now status (d ∷ ds) h = ground (arith, take_up-is_beating k j now status ds)

step-IsOnce : (sites : List Site) (x : Step) (s : Poller) → IsOnce s → IsOnce (step sites x s)
unfolding step
step-IsOnce sites (polls in_window now blocked ls_remote) s h =
    poll_each-IsOnce in_window now blocked ls_remote sites s h
step-IsOnce sites (works k status now) s h = record {
  once = h.once;
  queue_below = h.queue_below;
  waiting_below = h.waiting_below;
  rows_below = λ j lt. take_up-is_beating k j now status s.deployments (h.rows_below j lt);
  told = λ j e. ground (arith, h.told j, take_up-is_beating k j now status s.deployments);
}

run-IsOnce :
    (sites : List Site) (steps : List Step) (s : Poller) → IsOnce s → IsOnce (run sites steps s)
unfolding run
run-IsOnce sites [] s h = h
run-IsOnce sites (x ∷ steps) s h = run-IsOnce sites steps (step sites x s) (step-IsOnce sites x s h)

-- Over any sequence of polls, whatever the heads, the windows and the refusals, and of writes of
-- workers between them, from a state in order: no deployment is handed to the workers twice.
pub run_once :
    (sites : List Site) (steps : List Step) (s : Poller)
    → IsOnce s
    → Unique (run sites steps s).queue
run_once sites steps s h = (run-IsOnce sites steps s h).once
