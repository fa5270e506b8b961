-- ===== src/Examples/Noise.antt =====
-- A site that fails three probes, in a workspace beside the default one, and a push that is one too many.
use deploy_hub.Prelude.{
  ℕ, ◌≡◌, refl, Bool, true, false, none, some, List, [], ◌∷◌, ◌≤◌, arith, length,
}
use deploy_hub.Findings.{Finding, Inbox, p1, p2, opened, by_key}
use deploy_hub.Noise.Text.{entity_of, Runs, entity_of-Runs, remove_prefix, flap_fp}
use deploy_hub.Noise.State.{
  AlertState, Noise, alert, alert_in, save_alert, is_open, fresh, recent_pushes,
}
use deploy_hub.Noise.Fleet.{Fleet, Target, production}
use deploy_hub.Noise.Delivery.{suppressed_by, is_storming, unresolved}
use deploy_hub.Noise.Engine.{after_raise}
use deploy_hub.Noise.Readings.{Probe, Reading, alarmed}
use deploy_hub.Noise.Hysteresis.{observe_all, readings_of, observe_all-alarmed}
use deploy_hub.Noise.Rate.{is_storm_open}
use deploy_hub.Noise.Storm.{after_raise-Settled, after_raise-recent}
use deploy_hub.Noise.Tenants.{suppressed_by-save}
use deploy_hub.Noise.Group.{Batch, deliver_grouped}
use deploy_hub.Noise.Delivered.{deliver_grouped_again}

abbrev host : Target
host = record { pk = 1; host = "h1"; zone = record { slug = "lan"; purpose = "prod" } }

abbrev fleet : Fleet
fleet = record {
  sites =
      record {
        pk = 1;
        name = "web";
        environment = production;
        primary_target = some host;
        dns_purpose = none;
      }
      ∷ [];
  targets = host ∷ [];
  partners = [];
  partner_sites = [];
}

abbrev quiet : Inbox → Inbox
quiet inbox = inbox

abbrev start : Noise
start = record {
  inbox = record { rows = []; audits = []; events = []; next_pk = 1; clock = 120 };
  alerts = [];
  pushes = [];
}

abbrev probe : Bool → ℕ → Probe
probe ok now = record { workspace = 2; fingerprint = "site-down:web"; ok = ok; now = now }

abbrev probes : List Probe
probes = probe false 0 ∷ probe false 60 ∷ probe false 120 ∷ probe true 180 ∷ []

abbrev reading : Bool → Reading
reading ok = record { ok = ok; held = false }

test_alarmed : alarmed (reading true ∷ reading false ∷ reading false ∷ reading false ∷ []) ≡ true
unfolding alarmed
test_alarmed = refl

test_shut :
    alarmed (reading true ∷ reading true ∷ reading false ∷ reading false ∷ reading false ∷ [])
    ≡ false
unfolding alarmed
test_shut = refl

start-fresh : alert 2 "site-down:web" start ≡ fresh 2 "site-down:web"
unfolding alert alert_in
start-fresh = refl

observe_all-alarmed_example :
    is_open (alert 2 "site-down:web" (observe_all fleet quiet probes start))
    ≡ alarmed (readings_of fleet quiet 2 "site-down:web" probes start [])
observe_all-alarmed_example =
    observe_all-alarmed fleet quiet 2 "site-down:web" refl probes start start-fresh

entity_of-Runs_example : Runs "FLAPPING:site-down:web" (entity_of "FLAPPING:site-down:web")
entity_of-Runs_example = entity_of-Runs "FLAPPING:site-down:web"

abbrev down : Finding
down = record {
  pk = 1;
  workspace = 2;
  source_engine = "monitor.antinoise";
  severity = p1;
  entity = "site:web";
  title = "Site web is down";
  body = "Three consecutive probes failed for web.";
  fix_action = "Check docker ps on the target; restart the container.";
  state = opened;
  first_seen = 120;
  last_seen = 120;
  fingerprint = "site-down:web";
  accepted_reason = "";
}

after_raise-Settled_example :
    is_storm_open (after_raise fleet quiet down 120 start)
    ≡ is_storming 120 (after_raise fleet quiet down 120 start)
after_raise-Settled_example = after_raise-Settled fleet quiet down 120 start

no_flapping : unresolved 2 "FLAPPING:site-down:web" start ≡ none
unfolding unresolved by_key
no_flapping = refl

after_raise-recent_example :
    length (recent_pushes 120 (after_raise fleet quiet down 120 start)) ≤ 11
unfolding remove_prefix flap_fp recent_pushes
after_raise-recent_example =
    after_raise-recent fleet quiet 11 down 120 start refl refl no_flapping (omega arith)
      (omega arith)

abbrev host_down : AlertState
host_down = record (fresh 2 "host-down:h1") { opened_at = some 100 }

suppressed_by-save_example :
    suppressed_by fleet "site:web" (save_alert host_down start)
    ≡ suppressed_by fleet "site:web" start
suppressed_by-save_example = suppressed_by-save fleet "site:web" host_down start refl

abbrev published : Batch → Bool
published b = true

-- One P2 that is pending, with its row.
abbrev pending_one : Noise
pending_one = record {
  inbox = record {
    rows = record down { severity = p2 } ∷ [];
    audits = [];
    events = [];
    next_pk = 2;
    clock = 300;
  };
  alerts = [];
  pushes =
      record {
        at = 200;
        fingerprint = "site-down:web";
        workspace = 2;
        severity = p2;
        delivered = false;
        title = "Site web is down";
        counts_for_storm = true;
      }
      ∷ [];
}

deliver_grouped_again_example :
    (deliver_grouped published 600 300 (deliver_grouped published 600 300 pending_one).1).0 ≡ 0
deliver_grouped_again_example = deliver_grouped_again 600 300 published pending_one (λ b. refl)
