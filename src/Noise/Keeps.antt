-- ===== src/Noise/Keeps.antt =====
-- The operations of monitor/antinoise.py that are no observation leave the counters of every alert,
-- its times and its transitions. The row of the storm is not an alert.
use deploy_hub.Prelude.{
  ℕ, String, ◌≡◌, refl, ◌∙◌, true, false, Option, none, some, arith, length, Option-cases,
  Bool-cases, inl, inr,
}
use deploy_hub.Findings.{Finding, Filing, row, refused, Inbox}
use deploy_hub.Noise.Text.{remove_prefix, flap_fp}
use deploy_hub.Noise.State.{
  Noise, alert, save_alert, is_open, is_stable, record_push, default_workspace, storm_state_fp,
  storm_finding_fp, is_alert, recent_pushes,
}
use deploy_hub.Noise.Fleet.{Fleet}
use deploy_hub.Noise.Delivery.{Raised, unresolved, is_storming, annotate}
use deploy_hub.Noise.Engine.{
  Alert, file_alert, settle, notice, is_due, end_storm, storm_breaker, recovery_notice,
  resolve_engine_finding, maybe_resolve_flap, raise_nested, push_if, acknowledge, storm_alert,
  after_raise_body, after_raise, hand_off, raise_alert,
}
use deploy_hub.Noise.Alerts.{core, is_storm, save-core_other, touch_core_at, storm_row}

module _ (w : ℕ) (f : String) (e : is_storm w f ≡ false) where
  abbrev pub Keeps : (Noise → Noise) → Type 0
  Keeps op = (s : Noise) → core (alert w f (op s)) ≡ core (alert w f s)

  pub notice-Keeps : (now : ℕ) (r : Finding) → Keeps (notice now r)
  unfolding notice record_push alert
  notice-Keeps now r s = refl

  pub settle-Keeps : (r : Finding) → Keeps (λ (s : Noise). (settle r s).1)
  unfolding settle alert
  settle-Keeps r s = refl

  pub file_alert-Keeps :
      (race : Inbox → Inbox) (a : Alert) → Keeps (λ (s : Noise). (file_alert race a s).1)
  unfolding file_alert alert
  file_alert-Keeps race a s = refl

  end_storm-Keeps : (now : ℕ) → Keeps (end_storm now)
  unfolding end_storm
  end_storm-Keeps now s = elim (Option-cases (unresolved default_workspace storm_finding_fp s)) [
    | inl u ↦ rw (end_storm, u) refl
    | inr (r, u) ↦
        rw (end_storm, u) (notice-Keeps now (settle r s).0 (settle r s).1 ∙ settle-Keeps r s)
  ]

  -- The row of the storm under other times.
  save_storm-Keeps :
      (opened closed push : Option ℕ)
      → Keeps (λ (s : Noise).
        save_alert
          (record (alert default_workspace storm_state_fp s) {
            opened_at = opened;
            closed_at = closed;
            last_push_at = push;
          })
          s)
  unfolding is_alert
  save_storm-Keeps opened closed push s =
      save-core_other w f
        (record (alert default_workspace storm_state_fp s) {
          opened_at = opened;
          closed_at = closed;
          last_push_at = push;
        })
        s (storm_row w f s e)

  module _ (raise : Alert → Noise → Noise) (raise-Keeps : (a : Alert) → Keeps (raise a)) where
    pub storm_breaker-Keeps : (now : ℕ) → Keeps (storm_breaker raise now)
    unfolding storm_breaker
    storm_breaker-Keeps now s =
        let storm = alert default_workspace storm_state_fp s in
        let a = storm_alert (length (recent_pushes now s)) in
        elim (Bool-cases (is_storming now s)) [
          | inl high ↦ elim (Bool-cases (is_open storm)) [
            | inr shut ↦
                let begun = record storm {
                  opened_at = some now;
                  closed_at = none;
                  last_push_at = some now;
                } in
                rw (high, shut)
                  (raise-Keeps a (save_alert begun s)
                    ∙ save_storm-Keeps (some now) none (some now) s)
            | inl is ↦ elim (Bool-cases (is_due storm now)) [
              | inr early ↦ rw (high, is, early) refl
              | inl due ↦
                  let told = record storm { last_push_at = some now } in
                  rw (high, is, due)
                    (raise-Keeps a (save_alert told s)
                      ∙ save_storm-Keeps storm.opened_at storm.closed_at (some now) s)
            ]
          ]
          | inr low ↦ elim (Bool-cases (is_open storm)) [
            | inr shut ↦ rw (low, shut) refl
            | inl is ↦
                let ended = record storm { closed_at = some now } in
                rw (low, is)
                  (end_storm-Keeps now (save_alert ended s)
                    ∙ save_storm-Keeps storm.opened_at (some now) storm.last_push_at s)
          ]
        ]

    pub recovery_notice-Keeps : (now : ℕ) (r : Finding) → Keeps (recovery_notice raise now r)
    unfolding recovery_notice
    recovery_notice-Keeps now r s =
        ground (arith, storm_breaker-Keeps now (notice now r s), notice-Keeps now r s)

    resolve_engine_finding-Keeps :
        (now : ℕ) (r : Finding) → Keeps (resolve_engine_finding raise now r)
    unfolding resolve_engine_finding
    resolve_engine_finding-Keeps now r s =
        ground (arith, recovery_notice-Keeps now (settle r s).0 (settle r s).1, settle-Keeps r s)

    pub maybe_resolve_flap-Keeps :
        (workspace : ℕ) (fingerprint : String) (now : ℕ)
        → Keeps (maybe_resolve_flap raise workspace fingerprint now)
    unfolding maybe_resolve_flap
    maybe_resolve_flap-Keeps workspace fingerprint now s =
        let (base, flap) : String × String = elim (remove_prefix "FLAPPING:" fingerprint) [
          | some base ↦ (base, fingerprint)
          | none ↦ (fingerprint, flap_fp fingerprint)
        ] in
        elim (Option-cases (unresolved workspace flap s)) [
          | inl u ↦ rw (maybe_resolve_flap, u) refl
          | inr (r, u) ↦ elim (Bool-cases (is_stable (alert workspace base s) now)) [
            | inl b ↦ rw (maybe_resolve_flap, u, b) (resolve_engine_finding-Keeps now r s)
            | inr b ↦ rw (maybe_resolve_flap, u, b) refl
          ]
        ]

  module _ (fleet : Fleet) (race : Inbox → Inbox) where
    raise_nested-Keeps : (a : Alert) → Keeps (raise_nested fleet race a)
    unfolding raise_nested
    raise_nested-Keeps a s = file_alert-Keeps race a s

    push_row-Keeps :
        (r : Finding) (now : ℕ)
        → Keeps (λ (s : Noise).
          save_alert
            (record (alert r.workspace r.fingerprint s) { last_push_at = some now })
            (record_push r now r.title true s))
    unfolding record_push alert
    push_row-Keeps r now s =
        let state = alert r.workspace r.fingerprint s in
        touch_core_at w r.workspace f r.fingerprint (some now) state.acked_at
          (record_push r now r.title true s)

    push_if-Keeps : (raised : Raised) (now : ℕ) → Keeps (push_if fleet race raised now)
    unfolding push_if
    push_if-Keeps raised now s = ground (arith, push_row-Keeps raised.row now s)

    acknowledge-Keeps : (r : Finding) (now : ℕ) → Keeps (acknowledge fleet race r now)
    unfolding acknowledge
    acknowledge-Keeps r now s =
        let state = alert r.workspace r.fingerprint s in
        ground (arith, touch_core_at w r.workspace f r.fingerprint state.last_push_at (some now) s)

    after_raise_body-Keeps :
        (raised : Raised) (now : ℕ) → Keeps (after_raise_body fleet race raised now)
    unfolding after_raise_body
    after_raise_body-Keeps raised now s = ground (
      arith,
      acknowledge-Keeps raised.row now s,
      push_if-Keeps raised now s,
      storm_breaker-Keeps (raise_nested fleet race) raise_nested-Keeps now
          (push_if fleet race raised now s),
    )

    pub after_raise-Keeps : (r : Finding) (now : ℕ) → Keeps (after_raise fleet race r now)
    unfolding after_raise
    after_raise-Keeps r now s =
        let raise = raise_nested fleet race in
        let s1 = maybe_resolve_flap raise r.workspace r.fingerprint now s in
        let s2 = storm_breaker raise now s1 in
        after_raise_body-Keeps (annotate fleet r now s2) now s2
        ∙ (storm_breaker-Keeps raise raise_nested-Keeps now s1
            ∙ maybe_resolve_flap-Keeps raise raise_nested-Keeps r.workspace r.fingerprint now s)

    hand_off-Keeps : (filing : Filing) → Keeps (hand_off fleet race filing)
    unfolding hand_off
    hand_off-Keeps (row r) s = after_raise-Keeps r s.inbox.clock s
    hand_off-Keeps (refused x) s = refl

    pub raise_alert-Keeps : (a : Alert) → Keeps (raise_alert fleet race a)
    unfolding raise_alert
    raise_alert-Keeps a s =
        hand_off-Keeps (file_alert race a s).0 (file_alert race a s).1 ∙ file_alert-Keeps race a s
