-- ===== src/Scaling/Evaluator.antt =====
-- scaling/evaluator.py with scaling/attack_gate.py and engaged_finding of monitor/attack_playbook.py:
-- what is proposed for one site, and what is taken back. `str` writes a key. `race` is what other
-- engines commit while a proposal is filed, and `handoff` what monitor/alerts.py does with the row after.
pub mod Retract
pub mod Order
use Prim.Native.String.{◌++◌ as ◌<>◌}
use deploy_hub.Prelude.{
  ℕ, ◌+◌, String, Bool, true, false, not, ◌&&◌, ◌||◌, Option, none, some, List, [], ◌∷◌, ◌==◌, ltb,
  leb, str_eq, if◌then◌else◌, is_in, is_some, map, filter,
}
use deploy_hub.Findings.{
  Finding, Fields, Inbox, Filing, row, refused, Severity, State, opened, acked, resolved, accepted,
  by_key, finding, resolve,
}
use deploy_hub.Scaling.{Sample, Axis, overflow_axis, sustained_pressure, window}
use deploy_hub.Scaling.Destination.{Fleet, Metric, Target, sample_of, pick_overflow_home}

-- A DnsZone with the workspace of its account.
pub record Zone : Type 0 where
  pub pk : ℕ
  pub workspace : ℕ

pub record Site : Type 0 where
  pub pk : ℕ
  pub name : String
  pub domain : String
  pub workspace : ℕ
  pub primary_target : Option ℕ
  pub scale_ready : Bool
  pub is_mesh_only : Bool
  pub dns_zone : Option Zone
  pub is_partner : Bool

unfoldable pub is_active : State → Bool
is_active opened = true
is_active acked = true
is_active accepted = true
is_active resolved = false

-- OPEN or ACKED
unfoldable pub is_pending : State → Bool
is_pending opened = true
is_pending acked = true
is_pending _ = false

unfoldable pub is_eligible : Site → Bool
is_eligible site = is_some site.primary_target && site.scale_ready && not site.is_mesh_only

unfoldable pub retract_one : ℕ → String → Inbox → Inbox
unfolding is_pending
retract_one workspace fingerprint inbox = elim (by_key workspace fingerprint inbox) [
  | none ↦ inbox
  | some r ↦ if is_pending r.state then (resolve r inbox).1 else inbox
]

unfoldable pub text_of_axis : Option Axis → String
text_of_axis (some Axis.load) = "load"
text_of_axis _ = "ram"

unfoldable pub entity_of : Site → String
entity_of site = "site:" <> (if str_eq site.domain "" then site.name else site.domain)

-- _samples
unfoldable pub samples_of : Site → ℕ → Fleet → List Sample
unfolding sample_of
samples_of site now fleet = map sample_of (
    filter
      (λ (m : Metric).
        (elim site.primary_target [ none ↦ false | some p ↦ m.target == p ])
        && leb now (m.ts + window)
        && leb m.ts now)
      fleet.metrics)

unfoldable pub cheap_body : Site → Option Axis → String
unfolding text_of_axis
cheap_body site axis =
    site.name
    <> (" has sustained "
        <> (text_of_axis axis
            <> (" pressure. Apply cheap remediations before overflow: Cache-Control, Cloudflare cache, "
                <> "gunicorn 2×CPU+1. propose-mode does not launch.")))

unfoldable pub proposal_body : Site → Option Axis → Option Target → String
unfolding text_of_axis
proposal_body site axis home =
    site.name
    <> (" has sustained "
        <> (text_of_axis axis
            <> (" pressure. Overflow estimate "
                <> (elim home [
                  | none ↦ "0.0416 USD/hour on t3.medium. "
                  | some t ↦
                      "0 USD/hour on own-machine. idle registered machine " <> (t.host <> ". ")
                ]
                    <> "propose-mode does not launch."))))

unfoldable pub cheap_fields : Site → List Sample → ℕ → Fields
unfolding entity_of cheap_body
cheap_fields site samples now = record {
  severity = Severity.p2;
  entity = entity_of site;
  title = "Cheap remediations before overflow (propose mode)";
  body = cheap_body site (overflow_axis now samples);
  fix_action = "Ack is not launch. Apply cache and workers before overflow.";
}

-- _handoff. `none`: finding() raised, and evaluate_site swallows that.
unfoldable pub handed : (Finding → Inbox → Inbox) → Filing → Inbox → Option Finding × Inbox
handed handoff (row r) later = (some r, handoff r later)
handed handoff (refused x) later = (none, later)

module _ (str : ℕ → String) where
  unfoldable pub cheap_fp : Site → String
  cheap_fp site = "scale-cheap-remediation:" <> str site.pk

  unfoldable pub proposal_fp : Site → String
  proposal_fp site = "scale-out-proposal:" <> str site.pk

  unfoldable pub engaged_finding : Option Zone → Inbox → Option Finding
  engaged_finding none inbox = none
  engaged_finding (some zone) inbox =
      elim (by_key zone.workspace ("attack-playbook-engaged:" <> str zone.pk) inbox) [
        | none ↦ none
        | some r ↦ if is_active r.state then some r else none
      ]

  -- refuse_if_attack: whether it raises.
  unfoldable pub refuse_if_attack : Site → Inbox → Bool
  unfolding engaged_finding
  refuse_if_attack site inbox = is_some (engaged_finding site.dns_zone inbox) || site.is_partner

  -- _retract
  unfoldable pub retract : Site → Inbox → Inbox
  unfolding retract_one cheap_fp proposal_fp
  retract site inbox =
      retract_one site.workspace (proposal_fp site)
        (retract_one site.workspace (cheap_fp site) inbox)

  module _ (race : Inbox → Inbox) (handoff : Finding → Inbox → Inbox)
      (casefold : String → String) where
    -- raise_alert of monitor/alerts.py, for the two kinds, both of severity p2.
    unfoldable pub raise_alert : Site → String → Fields → Inbox → Option Finding × Inbox
    unfolding handed
    raise_alert site fingerprint fields inbox =
        let (filing, later) =
          finding race "scaling.evaluator" fingerprint (some site.workspace) fields inbox in
        handed handoff filing later

    -- _file_cheap
    unfoldable pub file_cheap : Site → List Sample → ℕ → Inbox → Option Finding × Inbox
    unfolding raise_alert cheap_fp cheap_fields
    file_cheap site samples now inbox =
        raise_alert site (cheap_fp site) (cheap_fields site samples now) inbox

    -- The end of _evaluate_eligible, once the cheap remediations are accepted.
    unfoldable pub propose : Site → List Sample → ℕ → Fleet → Inbox → Option Finding × Inbox
    unfolding raise_alert proposal_fp entity_of proposal_body is_active
    propose site samples now fleet inbox =
        let file =
          raise_alert site (proposal_fp site)
            (record {
              severity = Severity.p2;
              entity = entity_of site;
              title = "Scale-out proposal awaiting approval (propose mode)";
              body =
                  proposal_body site (overflow_axis now samples)
                    (pick_overflow_home casefold site.primary_target now fleet fleet.targets);
              fix_action = "Ack is not launch. Propose-mode does not launch.";
            })
            inbox in
        elim (by_key site.workspace (proposal_fp site) inbox) [
          | none ↦ file
          | some existing ↦ if is_active existing.state then (some existing, inbox) else file
        ]

    -- By the row of the cheap remediations, for a site under sustained pressure.
    unfoldable pub next_of :
        State → Finding → Site → List Sample → ℕ → Fleet → Inbox → Option Finding × Inbox
    unfolding file_cheap propose
    next_of resolved cheap site samples now fleet inbox = file_cheap site samples now inbox
    next_of opened cheap site samples now fleet inbox = (some cheap, inbox)
    next_of acked cheap site samples now fleet inbox = (some cheap, inbox)
    next_of accepted cheap site samples now fleet inbox = propose site samples now fleet inbox

    unfoldable pub next_step :
        Option Finding → Site → List Sample → ℕ → Fleet → Inbox → Option Finding × Inbox
    unfolding next_of file_cheap
    next_step none site samples now fleet inbox = file_cheap site samples now inbox
    next_step (some cheap) site samples now fleet inbox =
        next_of cheap.state cheap site samples now fleet inbox

    -- _evaluate_eligible
    unfoldable pub evaluate_eligible : Site → ℕ → Fleet → Inbox → Option Finding × Inbox
    unfolding retract samples_of next_step cheap_fp is_eligible
    evaluate_eligible site now fleet inbox =
        let samples = samples_of site now fleet in
        if not (is_eligible site)
        then (none, retract site inbox)
        else if not (sustained_pressure now samples)
        then (none, retract site inbox)
        else next_step (by_key site.workspace (cheap_fp site) inbox) site samples now fleet inbox

    unfoldable pub evaluate_site : Site → ℕ → Fleet → Inbox → Option Finding × Inbox
    unfolding refuse_if_attack evaluate_eligible retract
    evaluate_site site now fleet inbox =
        if refuse_if_attack site inbox
        then (none, retract site inbox)
        else evaluate_eligible site now fleet inbox
