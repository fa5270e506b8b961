-- ===== src/Noise/Hysteresis.antt =====
-- observe of monitor/antinoise.py as hysteresis: what a sequence of observations, of whatever alerts,
-- makes of one of them.
use deploy_hub.Prelude.{
  ℕ, suc, String, ◌≡◌, refl, ap, ◌∙◌, Bool, true, false, not, ◌&&◌, List, [], ◌∷◌, ◌==◌, leb, arith,
  str_eq, str_eq_iff, if◌then◌else◌, Bool-cases, inl, inr,
}
use deploy_hub.Findings.{Inbox, by_key}
use deploy_hub.Noise.Text.{entity_of}
use deploy_hub.Noise.State.{
  AlertState, Noise, alert, save_alert, is_open, note_transition, open_after, close_after, is_alert,
  fresh,
}
use deploy_hub.Noise.Fleet.{Fleet}
use deploy_hub.Noise.Engine.{maybe_resolve_flap, raise_alert}
use deploy_hub.Noise.Observe.{is_held, open_alert, close_alert, count_probe, observe}
use deploy_hub.Noise.Alerts.{
  core, is_storm, save-core_self, save-core_other, alert_key, alert-workspace, alert-fingerprint,
}
use deploy_hub.Noise.Keeps.{Keeps, maybe_resolve_flap-Keeps, raise_alert-Keeps}
use deploy_hub.Noise.Opening.{file_open-Keeps, settle_closed-Keeps}
use deploy_hub.Noise.Readings.{
  Reading, Probe, is_about, alarmed, view, View, view_of, better, worse, opened_by, closed_by,
  next_row, next_row-view, view-core,
}

module _ (fleet : Fleet) (race : Inbox → Inbox) where
  unfoldable pub observe_all : List Probe → Noise → Noise
  observe_all [] s = s
  observe_all (p ∷ probes) s =
      observe_all probes (observe fleet race p.fingerprint p.ok p.workspace p.now s)

  -- Whether a failed probe would find the alert held.
  unfoldable pub is_held_now : ℕ → String → ℕ → Noise → Bool
  is_held_now w f now s = is_held fleet race w f now (save_alert (worse (alert w f s)) s)

  -- The readings that a sequence adds to those of the alert, the newest first.
  unfoldable pub readings_of : ℕ → String → List Probe → Noise → List Reading → List Reading
  readings_of w f [] s h = h
  readings_of w f (p ∷ probes) s h =
      let s' = maybe_resolve_flap (raise_alert fleet race) p.workspace p.fingerprint p.now s in
      readings_of w f probes (observe fleet race p.fingerprint p.ok p.workspace p.now s)
        (if is_about w f p then record { ok = p.ok; held = is_held_now w f p.now s' } ∷ h else h)

  module _ (w : ℕ) (f : String) (e : is_storm w f ≡ false) where
    save_own :
        (r : AlertState) (s : Noise)
        → is_alert w f r ≡ true
        → core (alert w f (save_alert r s)) ≡ core r
    save_own r s = save-core_self w f r s

    own : (s : Noise) → is_alert w f (alert w f s) ≡ true
    own s = alert_key w f s

    close_alert_self :
        (r : AlertState) (now : ℕ) (s : Noise)
        → is_alert w f r ≡ true
        → core (alert w f (close_alert fleet race r w f now s)) ≡ core (closed_by now r)
    unfolding close_alert note_transition is_alert
    close_alert_self r now s k =
        let s' = save_alert (closed_by now r) s in
        settle_closed-Keeps fleet race w f e w f now (by_key w f s.inbox) s'
        ∙ save_own (closed_by now r) s k

    open_alert_self :
        (r : AlertState) (now : ℕ) (s : Noise)
        → is_alert w f r ≡ true
        → is_held fleet race w f now s ≡ false
        → core (alert w f (open_alert fleet race r w f now s)) ≡ core (opened_by now r)
    unfolding open_alert note_transition is_alert
    open_alert_self r now s k free =
        let s' = save_alert (opened_by now r) s in
        rw (free)
          (file_open-Keeps fleet race w f e w f (entity_of f) s' ∙ save_own (opened_by now r) s k)

    open_alert_held :
        (r : AlertState) (now : ℕ) (s : Noise)
        → is_held fleet race w f now s ≡ true
        → open_alert fleet race r w f now s ≡ s
    unfolding open_alert
    open_alert_held r now s held = rw (held) refl

    held_as :
        (now : ℕ) (s : Noise)
        → is_held fleet race w f now (save_alert (worse (alert w f s)) s) ≡ is_held_now w f now s
    unfolding is_held_now
    held_as now s = refl

    count_probe_self :
        (ok : Bool) (now : ℕ) (s : Noise)
        → core (alert w f (count_probe fleet race f ok w now s))
          ≡ core (next_row ok (is_held_now w f now s) now (alert w f s))
    unfolding count_probe next_row is_alert
    count_probe_self true now s =
        let r = alert w f s in
        elim (Bool-cases (is_open r && leb close_after (suc r.consecutive_ok))) [
          | inl c ↦
              rw (count_probe, next_row, c)
                (close_alert_self (better r) now (save_alert (better r) s) (own s))
          | inr c ↦ rw (count_probe, next_row, c) (save_own (better r) s (own s))
        ]
    count_probe_self false now s =
        let r = alert w f s in
        elim (Bool-cases (leb open_after (suc r.consecutive_fail) && not (is_open r))) [
          | inr c ↦ rw (count_probe, next_row, c) (save_own (worse r) s (own s))
          | inl c ↦ elim (Bool-cases (is_held_now w f now s)) [
            | inl h ↦
                rw (c, h)
                  (ap (λ (t : Noise). core (alert w f t))
                      (open_alert_held (worse r) now (save_alert (worse r) s) (held_as now s ∙ h))
                    ∙ save_own (worse r) s (own s))
            | inr h ↦
                rw (c, h)
                  (open_alert_self (worse r) now (save_alert (worse r) s) (own s)
                    (held_as now s ∙ h))
          ]
        ]

    close_alert_other :
        (r : AlertState) (w' : ℕ) (f' : String) (now : ℕ)
        → is_alert w f r ≡ false
        → Keeps w f e (close_alert fleet race r w' f' now)
    unfolding close_alert note_transition is_alert
    close_alert_other r w' f' now k s =
        let s' = save_alert (closed_by now r) s in
        settle_closed-Keeps fleet race w f e w' f' now (by_key w' f' s.inbox) s'
        ∙ save-core_other w f (closed_by now r) s k

    open_alert_other :
        (r : AlertState) (w' : ℕ) (f' : String) (now : ℕ)
        → is_alert w f r ≡ false
        → Keeps w f e (open_alert fleet race r w' f' now)
    unfolding open_alert note_transition is_alert
    open_alert_other r w' f' now k s = elim (Bool-cases (is_held fleet race w' f' now s)) [
      | inl h ↦ rw (open_alert, h) refl
      | inr h ↦
          let s' = save_alert (opened_by now r) s in
          rw (open_alert, h)
            (file_open-Keeps fleet race w f e w' f' (entity_of f') s'
              ∙ save-core_other w f (opened_by now r) s k)
    ]

    other_key :
        (w' : ℕ) (f' : String) (s : Noise)
        → ((w' == w) && str_eq f' f) ≡ false
        → is_alert w f (alert w' f' s) ≡ false
    unfolding is_alert
    other_key w' f' s other = ground (arith, alert-workspace w' f' s, alert-fingerprint w' f' s)

    count_probe_other :
        (ok : Bool) (w' : ℕ) (f' : String) (now : ℕ)
        → ((w' == w) && str_eq f' f) ≡ false
        → Keeps w f e (count_probe fleet race f' ok w' now)
    unfolding count_probe is_alert
    count_probe_other true w' f' now other s =
        let r = alert w' f' s in
        let k = other_key w' f' s other in
        let saved = save-core_other w f (better r) s k in
        ground (arith, saved, close_alert_other (better r) w' f' now k (save_alert (better r) s))
    count_probe_other false w' f' now other s =
        let r = alert w' f' s in
        let k = other_key w' f' s other in
        let saved = save-core_other w f (worse r) s k in
        ground (arith, saved, open_alert_other (worse r) w' f' now k (save_alert (worse r) s))

    observe-view :
        (ok : Bool) (now : ℕ) (s : Noise) (h : List Reading)
        → view (alert w f s) ≡ view_of h
        → view (alert w f (observe fleet race f ok w now s))
          ≡ view_of (
              record {
                ok = ok;
                held = is_held_now w f now (maybe_resolve_flap (raise_alert fleet race) w f now s);
              }
              ∷ h)
    unfolding observe
    observe-view ok now s h v =
        let s' = maybe_resolve_flap (raise_alert fleet race) w f now s in
        let kept =
          maybe_resolve_flap-Keeps w f e (raise_alert fleet race)
            (raise_alert-Keeps w f e fleet race) w f now s in
        let next = next_row ok (is_held_now w f now s') now (alert w f s') in
        view-core (alert w f (count_probe fleet race f ok w now s')) next
          (count_probe_self ok now s')
        ∙ next_row-view ok (is_held_now w f now s') now (alert w f s') h
            (view-core (alert w f s') (alert w f s) kept ∙ v)

    observe-view_other :
        (ok : Bool) (w' : ℕ) (f' : String) (now : ℕ) (s : Noise)
        → ((w' == w) && str_eq f' f) ≡ false
        → view (alert w f (observe fleet race f' ok w' now s)) ≡ view (alert w f s)
    unfolding observe
    observe-view_other ok w' f' now s other =
        let s' = maybe_resolve_flap (raise_alert fleet race) w' f' now s in
        view-core (alert w f (count_probe fleet race f' ok w' now s')) (alert w f s) (
          count_probe_other ok w' f' now other s'
          ∙ maybe_resolve_flap-Keeps w f e (raise_alert fleet race)
              (raise_alert-Keeps w f e fleet race) w' f' now s)

    observe-view_at :
        (ok : Bool) (w' : ℕ) (f' : String) (now : ℕ) (s : Noise) (h : List Reading)
        → ((w' == w) && str_eq f' f) ≡ true
        → view (alert w f s) ≡ view_of h
        → view (alert w f (observe fleet race f' ok w' now s))
          ≡ view_of (
              record {
                ok = ok;
                held =
                    is_held_now w f now (maybe_resolve_flap (raise_alert fleet race) w' f' now s);
              }
              ∷ h)
    observe-view_at ok w' f' now s h about v =
        let same_workspace : w' ≡ w = ground arith in
        let same_fingerprint : f' ≡ f = ground (arith, str_eq_iff f' f) in
        rw (same_workspace, same_fingerprint) (observe-view ok now s h v)

    observe_all-view :
        (probes : List Probe) (s : Noise) (h : List Reading)
        → view (alert w f s) ≡ view_of h
        → view (alert w f (observe_all probes s)) ≡ view_of (readings_of w f probes s h)
    unfolding observe_all readings_of
    observe_all-view [] s h v = v
    observe_all-view (p ∷ probes) s h v =
        let t = observe fleet race p.fingerprint p.ok p.workspace p.now s in
        let s' = maybe_resolve_flap (raise_alert fleet race) p.workspace p.fingerprint p.now s in
        elim (Bool-cases (is_about w f p)) [
          | inl b ↦
              let x : Reading = record { ok = p.ok; held = is_held_now w f p.now s' } in
              rw (readings_of, b)
                (observe_all-view probes t (x ∷ h)
                  (observe-view_at p.ok p.workspace p.fingerprint p.now s h b v))
          | inr b ↦
              rw (readings_of, b)
                (observe_all-view probes t h
                  (observe-view_other p.ok p.workspace p.fingerprint p.now s b ∙ v))
        ]

    -- Over any sequence of observations, of whatever fingerprints, an alert that starts fresh is open
    -- exactly when its own readings say so: the third failure in a row opens it, unless it is held then,
    -- and the second success in a row shuts it. The row of the storm is not meant.
    pub observe_all-alarmed :
        (probes : List Probe) (s : Noise)
        → alert w f s ≡ fresh w f
        → is_open (alert w f (observe_all probes s)) ≡ alarmed (readings_of w f probes s [])
    unfolding view view_of is_open
    observe_all-alarmed probes s new =
        ap (λ (v : View). v.2) (observe_all-view probes s [] (ap view new))
