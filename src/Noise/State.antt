-- ===== src/Noise/State.antt =====
-- The rows that monitor/antinoise.py keeps: AlertState of core/models/fleet.py, and the push log, which
-- the source keeps in the transitions of one such row, "__pushes__".
-- A missing row reads as a fresh one, which is what each reader of the source makes of it.
use deploy_hub.Prelude.{
  ℕ, suc, ◌+◌, String, Bool, true, false, not, ◌&&◌, Option, none, some, List, [], ◌∷◌, ◌++◌, ◌==◌,
  leb, str_eq, if◌then◌else◌, first, filter, is_some,
}
use deploy_hub.Findings.{Finding, Severity, Inbox}

abbrev pub open_after : ℕ
open_after = 3

abbrev pub close_after : ℕ
close_after = 2

abbrev pub flap_window : ℕ
flap_window = 1800

abbrev pub flap_cycles : ℕ
flap_cycles = 3

abbrev pub storm_window : ℕ
storm_window = 600

abbrev pub storm_limit : ℕ
storm_limit = 10

abbrev pub group_p2_window : ℕ
group_p2_window = 600

abbrev pub storm_state_fp : String
storm_state_fp = "__storm__"

abbrev pub storm_finding_fp : String
storm_finding_fp = "alert-storm"

-- DEFAULT_WORKSPACE_ID
abbrev pub default_workspace : ℕ
default_workspace = 1

-- "open" and "close"
pub data Change : Type 0 where
  opening closing : Change

pub record Event : Type 0 where
  pub at : ℕ
  pub event : Change

pub record AlertState : Type 0 where
  pub workspace : ℕ
  pub fingerprint : String
  pub consecutive_fail : ℕ
  pub consecutive_ok : ℕ
  pub opened_at : Option ℕ
  pub closed_at : Option ℕ
  pub last_push_at : Option ℕ
  pub acked_at : Option ℕ
  pub transitions : List Event

-- One event of the push log. The log's own `last_push_at` is written and never read.
pub record Push : Type 0 where
  pub at : ℕ
  pub fingerprint : String
  pub workspace : ℕ
  pub severity : Severity
  pub delivered : Bool
  pub title : String
  pub counts_for_storm : Bool

pub record Noise : Type 0 where
  pub inbox : Inbox
  pub alerts : List AlertState
  pub pushes : List Push

abbrev pub fresh : ℕ → String → AlertState
fresh workspace fingerprint = record {
  workspace = workspace;
  fingerprint = fingerprint;
  consecutive_fail = 0;
  consecutive_ok = 0;
  opened_at = none;
  closed_at = none;
  last_push_at = none;
  acked_at = none;
  transitions = [];
}

unfoldable pub is_alert : ℕ → String → AlertState → Bool
is_alert workspace fingerprint r = (r.workspace == workspace) && str_eq r.fingerprint fingerprint

unfoldable pub alert_in : ℕ → String → List AlertState → AlertState
alert_in workspace fingerprint rows = elim (first (is_alert workspace fingerprint) rows) [
  | none ↦ fresh workspace fingerprint
  | some r ↦ r
]

unfoldable pub save_in : AlertState → List AlertState → List AlertState
save_in row [] = row ∷ []
save_in row (r ∷ rows) =
    let rest = save_in row rows in
    if is_alert row.workspace row.fingerprint r then row ∷ rows else r ∷ rest

-- `get_or_create(workspace=…, fingerprint=…)`, and the save of a row.
unfoldable pub alert : ℕ → String → Noise → AlertState
unfolding alert_in
alert workspace fingerprint s = alert_in workspace fingerprint s.alerts

unfoldable pub save_alert : AlertState → Noise → Noise
save_alert row s = record s { alerts = save_in row s.alerts }

-- _is_open
unfoldable pub is_open : AlertState → Bool
is_open r = is_some r.opened_at && not (is_some r.closed_at)

-- _note_transition
unfoldable pub note_transition : Change → ℕ → AlertState → AlertState
note_transition event now r = record r {
  transitions = r.transitions ++ record { at = now; event = event } ∷ [];
}

-- The loop of _cycle_count: whether it is open, the events, and the cycles that they close.
unfoldable pub cycles_from : ℕ → Bool → List Event → ℕ
cycles_from now opened [] = 0
cycles_from now opened (e ∷ events) =
    let as_before = cycles_from now opened events in
    let after_open = cycles_from now true events in
    let after_close = cycles_from now false events in
    if not (leb now (e.at + flap_window)) then as_before else elim e.event [
      | opening ↦ after_open
      | closing ↦ if opened then suc after_close else as_before
    ]

unfoldable pub cycle_count : AlertState → ℕ → ℕ
unfolding cycles_from
cycle_count r now = cycles_from now false r.transitions

abbrev pub last_at : List Event → Option ℕ
last_at [] = none
last_at (e ∷ events) = elim (last_at events) [ none ↦ some e.at | some t ↦ some t ]

-- `now - last >= FLAP_WINDOW`, of the last transition, when there is one.
unfoldable pub is_stable : AlertState → ℕ → Bool
is_stable r now = elim (last_at r.transitions) [
  | none ↦ false
  | some at ↦ leb (at + flap_window) now
]

-- _recent_pushes
abbrev pub is_recent : ℕ → Push → Bool
is_recent now p = p.counts_for_storm && leb now (p.at + storm_window)

unfoldable pub recent_pushes : ℕ → Noise → List Push
recent_pushes now s = filter (is_recent now) s.pushes

-- _record_push
unfoldable pub record_push : Finding → ℕ → String → Bool → Noise → Noise
record_push row now title counts s = record s {
  pushes =
      s.pushes
      ++ record {
        at = now;
        fingerprint = row.fingerprint;
        workspace = row.workspace;
        severity = row.severity;
        delivered = false;
        title = title;
        counts_for_storm = counts;
      }
        ∷ [];
}
