-- ===== src/Noise/Engine.antt =====
-- monitor/antinoise.py: the storm breaker, the recovery notice, the end of a flap, and after_raise,
-- with raise_alert of monitor/alerts.py, which calls it.
-- The source counts the depth of after_raise: a filing inside one is annotated and no more. So the
-- operations that may file take what a filing does there, `raise`: `raise_nested` or `raise_alert`.
-- A call happens at one instant. Its result, which no caller reads, and the pager are left out.
use Prim.Native.String.{◌++◌ as ◌<>◌}
use Prim.Native.Nat.{◌/◌}
use deploy_hub.Prelude.{
  ℕ, ◌+◌, ◌-◌, String, Bool, true, false, not, none, some, leb, str_eq, if◌then◌else◌, is_some,
  length,
}
use deploy_hub.Findings.{
  Finding, State, acked, Filing, row, refused, Inbox, finding, resolve, is_resolved,
}
use deploy_hub.Noise.Text.{remove_prefix, flap_fp, decimal}
use deploy_hub.Noise.State.{
  AlertState, Noise, alert, save_alert, is_open, is_stable, recent_pushes, record_push,
  default_workspace, storm_state_fp, storm_finding_fp, storm_window,
}
use deploy_hub.Noise.Fleet.{Fleet, Kind, alert_storm, classify}
use deploy_hub.Noise.Delivery.{Raised, unresolved, is_storming, annotate}

-- The arguments of raise_alert; its source_engine is "monitor.antinoise", and its fingerprint is given
-- and not empty.
pub record Alert : Type 0 where
  pub kind : Kind
  pub entity : String
  pub fingerprint : String
  pub workspace : ℕ
  pub title : String
  pub body : String
  pub fix_action : String

-- The filing of raise_alert.
unfoldable pub file_alert : (Inbox → Inbox) → Alert → Noise → Filing × Noise
file_alert race a s =
    let (filing, inbox) =
      finding race "monitor.antinoise" a.fingerprint (some a.workspace)
        (record {
          severity = classify a.kind;
          entity = a.entity;
          title = a.title;
          body = a.body;
          fix_action = a.fix_action;
        })
        s.inbox in
    (filing, record s { inbox = inbox })

abbrev row_after : Finding → Filing → Finding
row_after old (row r) = r
row_after old (refused e) = old

-- `resolve(row)`, then `row.refresh_from_db()`.
unfoldable pub settle : Finding → Noise → Finding × Noise
settle r s =
    let (filing, inbox) = resolve r s.inbox in (row_after r filing, record s { inbox = inbox })

-- The storm's own notice is not counted.
abbrev pub counts : Finding → Bool
counts r = not (str_eq r.fingerprint storm_finding_fp)

unfoldable pub notice_title : ℕ → Finding → Noise → String
notice_title now r s =
    let start : ℕ = elim (alert r.workspace r.fingerprint s).opened_at [
      | none ↦ r.first_seen
      | some at ↦ at
    ] in
    "UP after " <> (decimal ((now - start) / 60) <> " min")

-- recovery_notice, up to the call of storm_breaker.
unfoldable pub notice : ℕ → Finding → Noise → Noise
notice now r s = record_push r now (notice_title now r s) (counts r) s

unfoldable pub storm_alert : ℕ → Alert
storm_alert n = record {
  kind = alert_storm;
  entity = "fleet";
  fingerprint = storm_finding_fp;
  workspace = default_workspace;
  title = "ALERT STORM (" <> (decimal n <> ")");
  body =
      decimal n <> " pushes in 10 minutes. Collapsing to 10-minute summaries until the rate drops.";
  fix_action = "Find the noisy source; do not ack individual pages.";
}

-- `last_push_at is None or now - last_push_at >= STORM_WINDOW`
abbrev pub is_due : AlertState → ℕ → Bool
is_due storm now = elim storm.last_push_at [ none ↦ true | some at ↦ leb (at + storm_window) now ]

-- The storm's row, once it is over; its notice ends without another look at the rate.
unfoldable pub end_storm : ℕ → Noise → Noise
unfolding settle
end_storm now s = elim (unresolved default_workspace storm_finding_fp s) [
  | none ↦ s
  | some r ↦ let (settled, s') = settle r s in notice now settled s'
]

module _ (raise : Alert → Noise → Noise) where
  unfoldable pub storm_breaker : ℕ → Noise → Noise
  storm_breaker now s =
      let n = length (recent_pushes now s) in
      let storm = alert default_workspace storm_state_fp s in
      if is_storming now s
      then (if not (is_open storm)
          then raise (storm_alert n) (
              save_alert
                (record storm { opened_at = some now; closed_at = none; last_push_at = some now })
                s)
          else if is_due storm now
          then raise (storm_alert n) (save_alert (record storm { last_push_at = some now }) s)
          else s)
      else if is_open storm
      then end_storm now (save_alert (record storm { closed_at = some now }) s)
      else s

  unfoldable pub recovery_notice : ℕ → Finding → Noise → Noise
  recovery_notice now r s = let s' = notice now r s in if counts r then storm_breaker now s' else s'

  -- _resolve_engine_finding
  unfoldable pub resolve_engine_finding : ℕ → Finding → Noise → Noise
  resolve_engine_finding now r s =
      if is_resolved r.state
      then s
      else let (settled, s') = settle r s in recovery_notice now settled s'

  -- _maybe_resolve_flap
  unfoldable pub maybe_resolve_flap : ℕ → String → ℕ → Noise → Noise
  maybe_resolve_flap workspace fingerprint now s =
      let (base, flap) : String × String = elim (remove_prefix "FLAPPING:" fingerprint) [
        | some base ↦ (base, fingerprint)
        | none ↦ (fingerprint, flap_fp fingerprint)
      ] in
      elim (unresolved workspace flap s) [
        | none ↦ s
        | some r ↦
            if is_stable (alert workspace base s) now then resolve_engine_finding now r s else s
      ]

abbrev pub is_acked : State → Bool
is_acked acked = true
is_acked _ = false

module _ (fleet : Fleet) (race : Inbox → Inbox) where
  -- raise_alert inside after_raise: the annotation that it adds is read by the pager alone.
  unfoldable pub raise_nested : Alert → Noise → Noise
  raise_nested a s = (file_alert race a s).1

  -- The push of a row that is to be pushed.
  unfoldable pub push_if : Raised → ℕ → Noise → Noise
  push_if raised now s =
      let r = raised.row in
      if raised.will_push
      then save_alert (record (alert r.workspace r.fingerprint s) { last_push_at = some now })
          (record_push r now r.title true s)
      else s

  unfoldable pub acknowledge : Finding → ℕ → Noise → Noise
  acknowledge r now s =
      let state = alert r.workspace r.fingerprint s in
      if is_some state.acked_at then s else save_alert (record state { acked_at = some now }) s

  -- _after_raise_body
  unfoldable pub after_raise_body : Raised → ℕ → Noise → Noise
  after_raise_body raised now s =
      if is_acked raised.row.state
      then acknowledge raised.row now s
      else storm_breaker raise_nested now (push_if raised now s)

  unfoldable pub after_raise : Finding → ℕ → Noise → Noise
  after_raise r now s =
      let s1 = maybe_resolve_flap raise_nested r.workspace r.fingerprint now s in
      let s2 = storm_breaker raise_nested now s1 in
      after_raise_body (annotate fleet r now s2) now s2

  -- What follows the filing.
  unfoldable pub hand_off : Filing → Noise → Noise
  hand_off (row r) s = after_raise r s.inbox.clock s
  hand_off (refused e) s = s

  unfoldable pub raise_alert : Alert → Noise → Noise
  raise_alert a s = let (filing, s') = file_alert race a s in hand_off filing s'
