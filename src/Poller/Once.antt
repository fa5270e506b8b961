-- ===== src/Poller/Once.antt =====
-- deploys/poller.py keeps a state in order, in which no deployment is handed to a worker twice.
use deploy_hub.Prelude.{
  ℕ, String, ◌≡◌, Bool, false, not, ◌&&◌, ◌||◌, Option, none, some, List, [], ◌∷◌, arith, str_eq,
  is_some, is_in, Option-cases, Bool-cases, inl, inr,
}
use deploy_hub.Poller.{
  Poller, Site, Manifest, Deployment, enqueue, queued_for_sha, delay, park, send, promote,
  promote_waiting, meet_head, poll_head, latest_manifest, poll_site, poll_each, last_deployed_sha,
  is_windowed, is_confirm,
}
use deploy_hub.Poller.Beats.{
  is_beating, IsOnce, Below-suc, Below-absent, beat-is_beating, is_in-Below,
  queued_for_sha-unbeaten, enqueue-is_beating,
}

park-IsOnce :
    (site : Site) (sha : String) (latest : Manifest) (s : Poller)
    → IsOnce s
    → IsOnce (park (enqueue site sha latest s))
unfolding park enqueue
park-IsOnce site sha latest s h = record {
  once = h.once;
  queue_below = Below-suc s.next_deployment s.queue h.queue_below;
  waiting_below = (ground arith, Below-suc s.next_deployment s.waiting h.waiting_below);
  rows_below = λ k lt. ground (arith, h.rows_below k, enqueue-is_beating k site sha latest s);
  told = λ k e. ground (
    arith,
    h.told k,
    is_in-Below s.next_deployment k s.queue h.queue_below,
    enqueue-is_beating k site sha latest s,
  );
}

send-IsOnce :
    (site : Site) (sha : String) (latest : Manifest) (s : Poller)
    → IsOnce s
    → IsOnce (send (enqueue site sha latest s))
unfolding send enqueue delay
send-IsOnce site sha latest s h = record {
  once = (Below-absent s.next_deployment s.queue h.queue_below, h.once);
  queue_below = (ground arith, Below-suc s.next_deployment s.queue h.queue_below);
  waiting_below = Below-suc s.next_deployment s.waiting h.waiting_below;
  rows_below = λ k lt. ground (arith, h.rows_below k, enqueue-is_beating k site sha latest s);
  told = λ k e. ground (
    arith,
    h.told k,
    is_in-Below s.next_deployment k s.queue h.queue_below,
    Below-absent s.next_deployment s.waiting h.waiting_below,
    enqueue-is_beating k site sha latest s,
  );
}

module _ (in_window : String → ℕ → Bool) (now : ℕ) where
  promote-IsOnce :
      (site : Site) (sha : String) (d : Deployment) (s : Poller)
      → queued_for_sha site sha s ≡ some d
      → IsOnce s
      → IsOnce (promote in_window now (some d) s)
  unfolding promote delay
  promote-IsOnce site sha d s found h =
      elim (Bool-cases (is_some d.last_heartbeat || not (is_in d.pk s.waiting))) [
        | inl t ↦ rw (t) h
        | inr t ↦
            let unbeaten : is_beating d.pk s.deployments ≡ false =
              queued_for_sha-unbeaten site sha d s found (ground arith) in
            let fresh : is_in d.pk s.queue ≡ false = ground (arith, h.told d.pk) in
            rw (t) (record {
              once = (fresh, h.once);
              queue_below = (ground (arith, h.rows_below d.pk), h.queue_below);
              waiting_below = h.waiting_below;
              rows_below =
                  λ k lt. ground (arith, h.rows_below k, beat-is_beating d.pk k now s.deployments);
              told = λ k e. ground (arith, h.told k, beat-is_beating d.pk k now s.deployments);
            })
      ]

  promote_waiting-IsOnce :
      (site : Site) (sha : String) (s : Poller)
      → IsOnce s
      → IsOnce (promote_waiting in_window now site sha s)
  unfolding promote_waiting promote
  promote_waiting-IsOnce site sha s h =
      elim (Bool-cases (is_windowed site.deploy_policy && in_window site.deploy_window_cron now)) [
        | inr shut ↦ rw (promote_waiting, shut) h
        | inl is ↦ elim (Option-cases (queued_for_sha site sha s)) [
          | inl q ↦ rw (promote_waiting, is, q) h
          | inr (d, q) ↦ rw (promote_waiting, is, q) (promote-IsOnce site sha d s q h)
        ]
      ]

  meet_head-IsOnce :
      (site : Site) (sha : String) (latest : Manifest) (s : Poller)
      → IsOnce s
      → IsOnce (meet_head in_window now site sha latest s)
  unfolding meet_head
  meet_head-IsOnce site sha latest s h = elim (Bool-cases (is_confirm site.deploy_policy)) [
    | inl c ↦
        rw (meet_head, c)
          (record {
            once = h.once;
            queue_below = h.queue_below;
            waiting_below = h.waiting_below;
            rows_below = h.rows_below;
            told = h.told;
          })
    | inr c ↦
        elim (Bool-cases
          (is_windowed site.deploy_policy && not (in_window site.deploy_window_cron now))) [
            | inl p ↦ rw (meet_head, c, p) (park-IsOnce site sha latest s h)
            | inr p ↦ rw (meet_head, c, p) (send-IsOnce site sha latest s h)
          ]
  ]

  poll_head-IsOnce :
      (site : Site) (sha : String) (latest : Option Manifest) (s : Poller)
      → IsOnce s
      → IsOnce (poll_head in_window now site sha latest s)
  unfolding poll_head
  poll_head-IsOnce site sha none s h = h
  poll_head-IsOnce site sha (some latest) s h =
      elim (Bool-cases (str_eq sha (last_deployed_sha site s))) [
        | inl a ↦ rw (poll_head, a) h
        | inr a ↦ elim (Bool-cases (str_eq sha latest.git_sha)) [
          | inl b ↦ rw (poll_head, a, b) (promote_waiting-IsOnce site sha s h)
          | inr b ↦ rw (poll_head, a, b) (meet_head-IsOnce site sha latest s h)
        ]
      ]

  module _ (blocked : String → Option String) (ls_remote : String → String → String) where
    poll_site-IsOnce :
        (site : Site) (s : Poller)
        → IsOnce s
        → IsOnce (poll_site in_window now blocked ls_remote site s)
    unfolding poll_site
    poll_site-IsOnce site s h = elim (Option-cases (blocked site.git_url)) [
      | inr (code, b) ↦
          rw (poll_site, b)
            (record {
              once = h.once;
              queue_below = h.queue_below;
              waiting_below = h.waiting_below;
              rows_below = h.rows_below;
              told = h.told;
            })
      | inl b ↦ elim (Bool-cases (str_eq (ls_remote site.git_url site.git_ref) "")) [
        | inl e ↦ rw (poll_site, b, e) h
        | inr e ↦
            let sha = ls_remote site.git_url site.git_ref in
            rw (poll_site, b, e) (poll_head-IsOnce site sha (latest_manifest site s) s h)
      ]
    ]

    pub poll_each-IsOnce :
        (sites : List Site) (s : Poller)
        → IsOnce s
        → IsOnce (poll_each in_window now blocked ls_remote sites s)
    unfolding poll_each
    poll_each-IsOnce [] s h = h
    poll_each-IsOnce (site ∷ sites) s h = elim (Bool-cases (str_eq site.git_url "")) [
      | inl e ↦ rw (poll_each, e) (poll_each-IsOnce sites s h)
      | inr e ↦
          rw (poll_each, e)
            (poll_each-IsOnce sites (poll_site in_window now blocked ls_remote site s)
              (poll_site-IsOnce site s h))
    ]
