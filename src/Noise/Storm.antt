-- ===== src/Noise/Storm.antt =====
-- after_raise of monitor/antinoise.py: when the storm is open after it, and how many pushes it adds.
use deploy_hub.Prelude.{
  ℕ, ◌≤◌, ◌≡◌, sym, ap, ◌∙◌, true, false, not, ◌&&◌, none, some, arith, str_eq, is_some, length,
  Option-cases, Bool-cases, inl, inr,
}
use deploy_hub.Findings.{Finding, Inbox}
use deploy_hub.Noise.Text.{remove_prefix, starts_with, flap_fp}
use deploy_hub.Noise.State.{
  AlertState, Noise, alert, is_open, record_push, default_workspace, storm_state_fp,
  storm_finding_fp, recent_pushes,
}
use deploy_hub.Noise.Fleet.{Fleet}
use deploy_hub.Noise.Delivery.{Raised, unresolved, is_storming, storming_except, annotate}
use deploy_hub.Noise.Engine.{
  storm_breaker, maybe_resolve_flap, raise_nested, push_if, acknowledge, is_acked, after_raise_body,
  after_raise,
}
use deploy_hub.Noise.Alerts.{touch_core_at}
use deploy_hub.Noise.Rate.{
  is_storm_open, counted, save_alert-recent, storm_breaker-recent, is_storming-breaker,
  storm_breaker-open,
}

module _ (fleet : Fleet) (race : Inbox → Inbox) where
  Settled : ℕ → Noise → Type 0
  Settled now s = is_storm_open s ≡ is_storming now s

  storm_breaker-Settled :
      (now : ℕ) (s : Noise) → Settled now (storm_breaker (raise_nested fleet race) now s)
  unfolding Settled
  storm_breaker-Settled now s =
      storm_breaker-open fleet race now s ∙ sym (is_storming-breaker fleet race now s)

  acknowledge-Settled :
      (r : Finding) (now : ℕ) (s : Noise)
      → Settled now s
      → Settled now (acknowledge fleet race r now s)
  unfolding Settled acknowledge is_storm_open is_storming is_open
  acknowledge-Settled r now s h =
      let state = alert r.workspace r.fingerprint s in
      let acked = record state { acked_at = some now } in
      let kept =
        touch_core_at default_workspace r.workspace storm_state_fp r.fingerprint state.last_push_at
          (some now) s in
      ground (
        arith,
        h,
        save_alert-recent now acked s,
        ap (λ (x : AlertState). is_some x.opened_at && not (is_some x.closed_at)) kept,
      )

  after_raise_body-Settled :
      (raised : Raised) (now : ℕ) (s : Noise)
      → Settled now s
      → Settled now (after_raise_body fleet race raised now s)
  unfolding after_raise_body
  after_raise_body-Settled raised now s h = elim (Bool-cases (is_acked raised.row.state)) [
    | inl k ↦ rw (after_raise_body, k) (acknowledge-Settled raised.row now s h)
    | inr k ↦ rw (after_raise_body, k) (storm_breaker-Settled now (push_if fleet race raised now s))
  ]

  -- After any filing has been seen, the storm is open exactly when more than ten pushes are recent.
  pub after_raise-Settled :
      (r : Finding) (now : ℕ) (s : Noise)
      → is_storm_open (after_raise fleet race r now s)
        ≡ is_storming now (after_raise fleet race r now s)
  unfolding after_raise Settled
  after_raise-Settled r now s =
      let s1 = maybe_resolve_flap (raise_nested fleet race) r.workspace r.fingerprint now s in
      let s2 = storm_breaker (raise_nested fleet race) now s1 in
      after_raise_body-Settled (annotate fleet r now s2) now s2 (storm_breaker-Settled now s1)

  recent : ℕ → Noise → ℕ
  recent now s = length (recent_pushes now s)

  push_if-recent :
      (n : ℕ) (raised : Raised) (now : ℕ) (s : Noise)
      → recent now s ≤ n
      → 11 ≤ n
      → (raised.will_push ≡ true → is_storming now s ≡ false)
      → recent now (push_if fleet race raised now s) ≤ n
  unfolding push_if recent is_storming
  push_if-recent n raised now s h big calm =
      let r = raised.row in
      let s' = record_push r now r.title true s in
      ground (
        arith,
        counted r now now r.title true s,
        save_alert-recent now
            (record (alert r.workspace r.fingerprint s) { last_push_at = some now }) s',
      )

  after_raise_body-recent :
      (n : ℕ) (raised : Raised) (now : ℕ) (s : Noise)
      → recent now s ≤ n
      → 11 ≤ n
      → (raised.will_push ≡ true → is_storming now s ≡ false)
      → recent now (after_raise_body fleet race raised now s) ≤ n
  unfolding after_raise_body recent acknowledge
  after_raise_body-recent n raised now s h big calm =
      let r = raised.row in
      let acked = record (alert r.workspace r.fingerprint s) { acked_at = some now } in
      ground (
        arith,
        push_if-recent n raised now s h big calm,
        save_alert-recent now acked s,
        storm_breaker-recent fleet race now (push_if fleet race raised now s),
      )

  annotate-calm :
      (r : Finding) (now : ℕ) (s : Noise)
      → str_eq r.fingerprint storm_finding_fp ≡ false
      → (annotate fleet r now s).will_push ≡ true
      → is_storming now s ≡ false
  unfolding annotate storming_except
  annotate-calm r now s other h = ground arith

  no_flap :
      (r : Finding) (now : ℕ) (s : Noise)
      → starts_with r.fingerprint "FLAPPING:" ≡ false
      → unresolved r.workspace (flap_fp r.fingerprint) s ≡ none
      → maybe_resolve_flap (raise_nested fleet race) r.workspace r.fingerprint now s ≡ s
  unfolding maybe_resolve_flap
  no_flap r now s plain u = elim (Option-cases (remove_prefix "FLAPPING:" r.fingerprint)) [
    | inl p ↦ ground (arith, p, u)
    | inr (b, p) ↦ absurd (ground (arith, p, plain))
  ]

  -- Let a filed row be neither the storm's nor a flapping alert's, and let no flapping alert be
  -- unresolved for it. Then seeing it keeps the recent pushes within any bound of eleven or more.
  pub after_raise-recent :
      (n : ℕ) (r : Finding) (now : ℕ) (s : Noise)
      → str_eq r.fingerprint storm_finding_fp ≡ false
      → starts_with r.fingerprint "FLAPPING:" ≡ false
      → unresolved r.workspace (flap_fp r.fingerprint) s ≡ none
      → 11 ≤ n
      → length (recent_pushes now s) ≤ n
      → length (recent_pushes now (after_raise fleet race r now s)) ≤ n
  unfolding after_raise recent
  after_raise-recent n r now s other plain u big h =
      let s2 = storm_breaker (raise_nested fleet race) now s in
      rw (after_raise, no_flap r now s plain u)
        (after_raise_body-recent n (annotate fleet r now s2) now s2
          (ground (arith, storm_breaker-recent fleet race now s)) big
          (annotate-calm r now s2 other))
