-- ===== src/Examples/Findings.antt =====
-- The findings inbox at concrete rows.
use deploy_hub.Prelude.{◌≡◌, refl, false, some, [], ◌∷◌, arith}
use deploy_hub.Prelude.Table.{find}
use deploy_hub.Findings.{
  refresh, transition, allowed, Finding, Fields, State, opened, accepted, p1, p2, Note, Inbox, row,
  filed, by_key, refreshed, finding, accept_risk, has_copy, is_key,
}
use deploy_hub.Findings.Text.{is_blank, is_space, strip}
use deploy_hub.Findings.Consistency.{IsConsistent}
use deploy_hub.Findings.Lifecycle.{filing_is_stored, accepted_stays_quiet}

abbrev site_down : State → Finding
site_down s = record {
  pk = 0;
  workspace = 1;
  source_engine = "uptime";
  severity = p1;
  entity = "site:x";
  title = "down";
  body = "why";
  fix_action = "fix";
  state = s;
  first_seen = 3;
  last_seen = 3;
  fingerprint = "fp";
  accepted_reason = "";
}

abbrev inbox_with : State → Inbox
inbox_with s =
    let note : Note = record { action = filed; id = 0; state = s } in
    record {
      rows = site_down s ∷ [];
      audits = note ∷ [];
      events = note ∷ [];
      next_pk = 1;
      clock = 9;
    }

abbrev empty_inbox : Inbox
empty_inbox = record { rows = []; audits = []; events = []; next_pk = 0; clock = 9 }

abbrev fields : Fields
fields = record {
  severity = p2;
  entity = "site:x";
  title = "still down";
  body = "why";
  fix_action = "fix";
}

abbrev no_title : Fields
no_title = record {
  severity = p2;
  entity = "site:x";
  title = "  ";
  body = "why";
  fix_action = "fix";
}

-- Another engine files the fingerprint between the SELECT and the INSERT.
abbrev rival : Inbox → Inbox
rival inbox = inbox_with opened

empty_inbox-IsConsistent : IsConsistent empty_inbox
unfolding find
empty_inbox-IsConsistent = record {
  pks = tt;
  below = tt;
  keys = tt;
  same_trail = refl;
  told = λ k. refl;
}

inbox_with-IsConsistent : (s : State) → IsConsistent (inbox_with s)
unfolding find
inbox_with-IsConsistent s = record {
  pks = (refl, tt);
  below = ground arith;
  keys = (refl, tt);
  same_trail = refl;
  told = λ k. ground arith;
}

filing_is_stored_example :
    by_key 1 "fp" (finding rival "uptime" "fp" (some 1) fields empty_inbox).1
    ≡ some (refreshed "uptime" fields 9 (site_down opened))
unfolding finding refresh refreshed by_key is_key has_copy is_blank is_space
filing_is_stored_example =
    filing_is_stored rival "uptime" "fp" 1 fields empty_inbox
      (refreshed "uptime" fields 9 (site_down opened)) (inbox_with-IsConsistent opened)
      empty_inbox-IsConsistent refl

accepted_stays_quiet_example :
    let before = (accept_risk (site_down opened) " known " (inbox_with opened)).1 in
    let after = finding rival "uptime" "fp" (some 1) fields before in
    let r = record (site_down opened) { state = accepted; accepted_reason = "known" } in
    (is_blank "known" ≡ false)
    × (after.0 ≡ row (refreshed "uptime" fields before.clock r))
    × ((refreshed "uptime" fields before.clock r).state ≡ accepted)
    × (after.1.events ≡ before.events)
    × (after.1.audits ≡ before.audits)
unfolding accept_risk transition allowed by_key is_key has_copy is_blank is_space strip
accepted_stays_quiet_example =
    accepted_stays_quiet rival "uptime" "fp" " known " 1 fields (inbox_with opened)
      (site_down opened) (record (site_down opened) { state = accepted; accepted_reason = "known" })
      (inbox_with-IsConsistent opened) refl refl refl
