-- ===== src/Examples/Evaluator.antt =====
-- A site under pressure, whose cheap remediations are accepted, before its proposal to rent.
use deploy_hub.Prelude.{
  ℕ, ◌*◌, String, ◌≡◌, refl, true, false, not, ◌&&◌, Option, none, some, [], ◌∷◌, arith,
}
use deploy_hub.Prelude.Table.{find}
use deploy_hub.Findings.{
  Finding, State, opened, accepted, Note, Inbox, filed, Severity, by_key, is_key, finding, insert,
  created, announce, has_copy,
}
use deploy_hub.Findings.Text.{is_blank, is_space}
use deploy_hub.Findings.Consistency.{IsConsistent}
use deploy_hub.Scaling.{
  minute, minute_of, overflow_axis, sustained_pressure, ram_over, is_fresh, minute_buckets,
  add_sample, insert as insert_bucket, in_window, consecutive, axis_of, has_headroom,
}
use deploy_hub.Scaling.Destination.{
  Fleet, Metric, Target, permanent, sample_of, in_gap, latest_in_window, is_idle, is_candidate,
  pick_overflow_home,
}
use deploy_hub.Scaling.Evaluator.{
  Site, is_active, cheap_fp, proposal_fp, refuse_if_attack, engaged_finding, samples_of,
  is_eligible, evaluate_eligible, evaluate_site, next_step, next_of, propose, raise_alert, handed,
  entity_of, proposal_body, text_of_axis,
}
use deploy_hub.Scaling.Evaluator.Retract.{has_state, is_accepted, NothingPending}
use deploy_hub.Scaling.Evaluator.Order.{blocked_is_retracted, proposal_is_earned}

abbrev str : ℕ → String
str n = "7"

abbrev fold : String → String
fold s = s

abbrev race : Inbox → Inbox
race inbox = inbox

abbrev handoff : Finding → Inbox → Inbox
handoff r inbox = inbox

abbrev busy : ℕ → Metric
busy m = record {
  target = 4;
  ts = m * minute;
  ram = some 90000;
  load = some 500;
  cores = some 2000;
}

abbrev idle : Metric
idle = record { target = 5; ts = 10 * minute; ram = some 100; load = some 100; cores = some 2000 }

abbrev spare : Target
spare = record { pk = 5; is_ready = true; lifecycle = permanent; host = "spare" }

abbrev fleet : Fleet
fleet = record {
  targets = record spare { pk = 4; host = "own" } ∷ spare ∷ [];
  metrics = busy 6 ∷ busy 7 ∷ busy 8 ∷ busy 9 ∷ busy 10 ∷ idle ∷ [];
  partner_pks = [];
  hub_host = "hub";
}

abbrev site : Site
site = record {
  pk = 7;
  name = "shop";
  domain = "";
  workspace = 1;
  primary_target = some 4;
  scale_ready = true;
  is_mesh_only = false;
  dns_zone = none;
  is_partner = false;
}

abbrev cheap : State → Finding
cheap state = record {
  pk = 0;
  workspace = 1;
  source_engine = "scaling.evaluator";
  severity = Severity.p2;
  entity = "site:shop";
  title = "cheap";
  body = "why";
  fix_action = "fix";
  state = state;
  first_seen = 3;
  last_seen = 3;
  fingerprint = "scale-cheap-remediation:7";
  accepted_reason = "";
}

abbrev inbox_with : State → Inbox
inbox_with state =
    let note : Note = record { action = filed; id = 0; state = state } in
    record {
      rows = cheap state ∷ [];
      audits = note ∷ [];
      events = note ∷ [];
      next_pk = 1;
      clock = 9;
    }

inbox_with-IsConsistent : (state : State) → IsConsistent (inbox_with state)
unfolding find
inbox_with-IsConsistent state = record {
  pks = (refl, tt);
  below = ground arith;
  keys = (refl, tt);
  same_trail = refl;
  told = λ k. ground arith;
}

abbrev now : ℕ
now = 10 * minute

abbrev evaluate : Site → Inbox → Option Finding × Inbox
evaluate = λ s. evaluate_site str race handoff fold s now fleet

abbrev partner : Site
partner = record site { is_partner = true }

partner_is_blocked :
    (not (refuse_if_attack str partner (inbox_with opened))
      && is_eligible partner
      && sustained_pressure now (samples_of partner now fleet))
    ≡ false
unfolding refuse_if_attack engaged_finding
partner_is_blocked = refl

blocked_is_retracted_example :
    ((evaluate partner (inbox_with opened)).0 ≡ none)
    × NothingPending str partner (evaluate partner (inbox_with opened)).1
blocked_is_retracted_example =
    blocked_is_retracted str race handoff fold partner now fleet (inbox_with opened)
      (inbox_with-IsConsistent opened) partner_is_blocked

no_proposal_yet :
    has_state is_active (by_key 1 (proposal_fp str site) (inbox_with accepted)) ≡ false
unfolding by_key is_key proposal_fp
no_proposal_yet = refl

proposes :
    has_state is_active (by_key 1 (proposal_fp str site) (evaluate site (inbox_with accepted)).1)
    ≡ true
unfolding evaluate_site evaluate_eligible refuse_if_attack engaged_finding is_eligible samples_of
    sample_of sustained_pressure overflow_axis minute_buckets add_sample insert_bucket in_window
    minute_of consecutive axis_of ram_over is_fresh next_step next_of propose raise_alert handed
    by_key is_key finding insert created announce has_copy is_blank is_space proposal_fp cheap_fp
    proposal_body text_of_axis entity_of pick_overflow_home is_candidate is_idle latest_in_window
    in_gap has_headroom is_active
proposes = refl

proposal_is_earned_example :
    (refuse_if_attack str site (inbox_with accepted) ≡ false)
    × (is_eligible site ≡ true)
    × (sustained_pressure now (samples_of site now fleet) ≡ true)
    × (has_state is_accepted (by_key 1 (cheap_fp str site) (inbox_with accepted)) ≡ true)
proposal_is_earned_example =
    proposal_is_earned str race handoff fold site now fleet (inbox_with accepted)
      (inbox_with-IsConsistent accepted) (inbox_with-IsConsistent accepted) refl (λ r i. refl)
      no_proposal_yet proposes
