-- ===== src/Noise/Rate.antt =====
-- The rate of the pushes in monitor/antinoise.py, and what one call of storm_breaker makes of the storm.
use deploy_hub.Prelude.{
  ℕ, suc, ◌≤◌, String, ◌≡◌, refl, ap, ◌∙◌, Bool, true, false, none, some, List, [], ◌∷◌, ◌++◌, ltb,
  arith, if◌then◌else◌, length, filter, length-append, Option-cases, inl, inr,
}
use deploy_hub.Findings.{Finding, Inbox, by_key, is_key, resolve, transition}
use deploy_hub.Findings.Consistency.{first_holds}
use deploy_hub.Noise.State.{
  AlertState, Push, Noise, alert, save_alert, is_open, record_push, default_workspace,
  storm_state_fp, storm_finding_fp, storm_limit, is_recent, recent_pushes, is_alert,
}
use deploy_hub.Noise.Fleet.{Fleet}
use deploy_hub.Noise.Delivery.{unresolved, is_storming}
use deploy_hub.Noise.Engine.{
  Alert, storm_alert, file_alert, settle, counts, notice, notice_title, end_storm, storm_breaker,
  raise_nested,
}
use deploy_hub.Noise.Alerts.{alert-save, alert_key}

unfoldable pub is_storm_open : Noise → Bool
is_storm_open s = is_open (alert default_workspace storm_state_fp s)

filter-snoc :
    (p : Push → Bool) (x : Push) (xs : List Push)
    → filter p (xs ++ x ∷ []) ≡ (if p x then filter p xs ++ x ∷ [] else filter p xs)
filter-snoc p x [] = ground arith
filter-snoc p x (y ∷ xs) = ground (arith, filter-snoc p x xs)

abbrev push_of : Finding → ℕ → String → Bool → Push
push_of r at title counts = record {
  at = at;
  fingerprint = r.fingerprint;
  workspace = r.workspace;
  severity = r.severity;
  delivered = false;
  title = title;
  counts_for_storm = counts;
}

-- A push that does not count leaves the rate; one that counts adds itself at most.
uncounted :
    (r : Finding) (at now : ℕ) (title : String) (s : Noise)
    → recent_pushes now (record_push r at title false s) ≡ recent_pushes now s
unfolding recent_pushes record_push
uncounted r at now title s = filter-snoc (is_recent now) (push_of r at title false) s.pushes

pub counted :
    (r : Finding) (at now : ℕ) (title : String) (counts : Bool) (s : Noise)
    → length (recent_pushes now (record_push r at title counts s))
      ≤ suc (length (recent_pushes now s))
unfolding recent_pushes record_push
counted r at now title counts s =
    let x = push_of r at title counts in
    ground (
      arith,
      filter-snoc (is_recent now) x s.pushes,
      length-append (filter (is_recent now) s.pushes) (x ∷ []),
    )

-- The row of the storm is found under its own fingerprint, so its notice does not count.
unresolved-counts :
    (s : Noise) (r : Finding)
    → unresolved default_workspace storm_finding_fp s ≡ some r
    → counts (settle r s).0 ≡ false
unfolding unresolved settle by_key is_key resolve transition
unresolved-counts s r e =
    let found : by_key default_workspace storm_finding_fp s.inbox ≡ some r = ground arith in
    ground (arith, found, first_holds (is_key default_workspace storm_finding_fp) s.inbox.rows r)

notice-recent :
    (now : ℕ) (r : Finding) (s : Noise)
    → counts r ≡ false
    → recent_pushes now (notice now r s) ≡ recent_pushes now s
unfolding notice
notice-recent now r s c = rw (notice, c) (uncounted r now now (notice_title now r s) s)

end_storm-recent : (now : ℕ) (s : Noise) → recent_pushes now (end_storm now s) ≡ recent_pushes now s
unfolding end_storm recent_pushes
end_storm-recent now s = elim (Option-cases (unresolved default_workspace storm_finding_fp s)) [
  | inl u ↦ rw (end_storm, u) refl
  | inr (r, u) ↦
      rw (end_storm, u) (notice-recent now (settle r s).0 (settle r s).1 (unresolved-counts s r u))
]

-- Saves of rows, and filings, leave the push log.
pub save_alert-recent :
    (now : ℕ) (r : AlertState) (s : Noise)
    → recent_pushes now (save_alert r s) ≡ recent_pushes now s
unfolding recent_pushes save_alert
save_alert-recent now r s = refl

end_storm-alert :
    (w : ℕ) (f : String) (now : ℕ) (s : Noise) → alert w f (end_storm now s) ≡ alert w f s
unfolding end_storm alert notice record_push settle
end_storm-alert w f now s = elim (Option-cases (unresolved default_workspace storm_finding_fp s)) [
  | inl u ↦ rw (end_storm, u) refl
  | inr (r, u) ↦ rw (end_storm, u) refl
]

module _ (fleet : Fleet) (race : Inbox → Inbox) where
  raise_nested-recent :
      (a : Alert) (now : ℕ) (s : Noise)
      → recent_pushes now (raise_nested fleet race a s) ≡ recent_pushes now s
  unfolding raise_nested file_alert recent_pushes
  raise_nested-recent a now s = refl

  raise_nested-alert :
      (w : ℕ) (f : String) (a : Alert) (s : Noise)
      → alert w f (raise_nested fleet race a s) ≡ alert w f s
  unfolding raise_nested file_alert alert
  raise_nested-alert w f a s = refl

  pub storm_breaker-recent :
      (now : ℕ) (s : Noise)
      → recent_pushes now (storm_breaker (raise_nested fleet race) now s) ≡ recent_pushes now s
  unfolding storm_breaker
  storm_breaker-recent now s =
      let storm = alert default_workspace storm_state_fp s in
      let a = storm_alert (length (recent_pushes now s)) in
      let begun = record storm {
        opened_at = some now;
        closed_at = none;
        last_push_at = some now;
      } in
      let told = record storm { last_push_at = some now } in
      let ended = record storm { closed_at = some now } in
      ground (
        arith,
        raise_nested-recent a now (save_alert begun s),
        raise_nested-recent a now (save_alert told s),
        save_alert-recent now begun s,
        save_alert-recent now told s,
        save_alert-recent now ended s,
        end_storm-recent now (save_alert ended s),
      )

  pub is_storming-breaker :
      (now : ℕ) (s : Noise)
      → is_storming now (storm_breaker (raise_nested fleet race) now s) ≡ is_storming now s
  unfolding is_storming
  is_storming-breaker now s =
      ap (λ (l : List Push). ltb storm_limit (length l)) (storm_breaker-recent now s)

  -- The storm's row after a save of it.
  saved_open :
      (r : AlertState) (s : Noise)
      → is_alert default_workspace storm_state_fp r ≡ true
      → is_storm_open (save_alert r s) ≡ is_open r
  unfolding is_storm_open
  saved_open r s k =
      ap is_open (alert-save default_workspace storm_state_fp r s)
      ∙ ap (λ (b : Bool). is_open (if b then r else alert default_workspace storm_state_fp s)) k

  pub storm_breaker-open :
      (now : ℕ) (s : Noise)
      → is_storm_open (storm_breaker (raise_nested fleet race) now s) ≡ is_storming now s
  unfolding storm_breaker is_alert is_open is_storm_open
  storm_breaker-open now s =
      let storm = alert default_workspace storm_state_fp s in
      let own = alert_key default_workspace storm_state_fp s in
      let a = storm_alert (length (recent_pushes now s)) in
      let begun = record storm {
        opened_at = some now;
        closed_at = none;
        last_push_at = some now;
      } in
      let told = record storm { last_push_at = some now } in
      let ended = record storm { closed_at = some now } in
      ground (
        arith,
        raise_nested-alert default_workspace storm_state_fp a (save_alert begun s),
        raise_nested-alert default_workspace storm_state_fp a (save_alert told s),
        saved_open begun s own,
        saved_open told s own,
        saved_open ended s own,
        end_storm-alert default_workspace storm_state_fp now (save_alert ended s),
      )
