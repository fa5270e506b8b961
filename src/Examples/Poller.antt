-- ===== src/Examples/Poller.antt =====
-- A site whose deployments wait for a window.
use deploy_hub.Prelude.{ℕ, String, ◌≡◌, refl, Bool, Option, none, List, [], ◌∷◌, leb}
use deploy_hub.Deploy.State.{running, is_queued}
use deploy_hub.Poller.{
  Poller, Site, windowed, poll_site, poll_each, poll_head, last_deployed_sha, latest_manifest,
  meet_head, park, send, enqueue, promote_waiting, promote, queued_for_sha, delay, beat,
}
use deploy_hub.Poller.Beats.{IsOnce, Unique}
use deploy_hub.Poller.Runs.{Step, polls, works, run, step, take_up, run_once}
use deploy_hub.Poller.Repeat.{poll_site_again}

abbrev site : Site
site = record {
  pk = 1;
  git_url = "https://git.example/web";
  git_ref = "refs/heads/main";
  deploy_policy = windowed;
  deploy_window_cron = "0 3 * * *";
}

abbrev start : Poller
start = record {
  manifests = record { pk = 1; site = 1; version = 1; git_sha = "a"; rest = "" } ∷ [];
  deployments = [];
  waiting = [];
  blocked = [];
  unconfirmed = [];
  queue = [];
  next_manifest = 2;
  next_deployment = 1;
}

abbrev at_night : String → ℕ → Bool
at_night cron now = leb 180 now

abbrev none_blocked : String → Option String
none_blocked url = none

abbrev head : String → String → String
head url ref = "b"

abbrev steps : List Step
steps =
    polls at_night 0 none_blocked head
    ∷ polls at_night 180 none_blocked head
    ∷ polls at_night 181 none_blocked head
    ∷ works 1 running 182
    ∷ polls at_night 183 none_blocked head
    ∷ []

-- The deployment waits, is handed over once the window opens, and not again.
test_queue : (run (site ∷ []) steps start).queue ≡ 1 ∷ []
unfolding run step take_up poll_each poll_site poll_head last_deployed_sha latest_manifest meet_head
    park send enqueue promote_waiting promote queued_for_sha delay beat is_queued
test_queue = refl

start-IsOnce : IsOnce start
start-IsOnce = record {
  once = tt;
  queue_below = tt;
  waiting_below = tt;
  rows_below = λ k lt. refl;
  told = λ k e. absurd (cc);
}

run_once_example : Unique (run (site ∷ []) steps start).queue
run_once_example = run_once (site ∷ []) steps start start-IsOnce

poll_site_again_example :
    (poll_site at_night 180 none_blocked head site
      (poll_site at_night 0 none_blocked head site start)).manifests
    ≡ (poll_site at_night 0 none_blocked head site start).manifests
poll_site_again_example = poll_site_again at_night at_night 0 180 none_blocked head site start
