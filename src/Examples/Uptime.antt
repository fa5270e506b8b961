-- ===== src/Examples/Uptime.antt =====
-- A cycle over two sites, one of which is down.
use deploy_hub.Prelude.{
  ℕ, suc, String, ◌≡◌, refl, Bool, true, Option, some, List, [], ◌∷◌, arith, str_eq, if◌then◌else◌,
  all,
}
use deploy_hub.Uptime.{
  Site, public, Uptime, Response, status, unreachable, probe_cycle, entity_of, down,
}
use deploy_hub.Findings.{Inbox}
use deploy_hub.Noise.State.{Noise, alert, alert_in, fresh, is_open}
use deploy_hub.Noise.Fleet.{Fleet}
use deploy_hub.Noise.Readings.{alarmed}
use deploy_hub.Noise.Hysteresis.{readings_of}
use deploy_hub.Uptime.Alerts.{Cycle, run_cycles, answers, run_cycles-alarmed}
use deploy_hub.Uptime.Transitions.{HasHistory}
use deploy_hub.Uptime.Cycle.{ready, is_told, Distinct, probe_cycle-HasHistory, probe_cycle_told}

abbrev get : String → Option String → Response
get url host =
    if str_eq url "https://a.example/healthz" then status (some 200) else unreachable "URLError"

abbrev observe : String → Bool → ℕ → ℕ → ℕ
observe fingerprint ok workspace n = suc n

abbrev shop : Site
shop = record {
  pk = 1;
  name = "a";
  domain = "a.example";
  liveness_path = "/healthz";
  exposure = public;
  host = "h1";
  target_is_ready = true;
  workspace = 1;
}

abbrev blog : Site
blog = record shop { pk = 2; name = "b"; domain = "b.example" }

abbrev sites : List Site
sites = shop ∷ blog ∷ []

abbrev before : Uptime ℕ
before = record {
  events = record { pk = 1; entity = "site:a"; state = down; at = 50 } ∷ [];
  next_pk = 2;
  clock = 100;
  locks = [];
  audits = [];
  alerts = 0;
}

before-HasHistory : HasHistory before
before-HasHistory = record {
  ordered = (tt, tt);
  alternates = (refl, tt);
  past = ((omega arith, omega arith), tt);
}

names_differ : Distinct (ready sites)
unfolding entity_of
names_differ = (refl, (refl, tt))

probe_cycle-HasHistory_example : HasHistory (probe_cycle get observe sites before).1
probe_cycle-HasHistory_example = probe_cycle-HasHistory get observe sites before before-HasHistory

probe_cycle_told_example :
    all
      (is_told (probe_cycle get observe sites before).1.events)
      (probe_cycle get observe sites before).0.results
    ≡ true
probe_cycle_told_example = probe_cycle_told get observe sites before before-HasHistory names_differ

-- Three cycles, in each of which one site answers and the other does not.
abbrev cycle : ℕ → Cycle
cycle now = record { get = get; now = now; sites = sites }

abbrev cycles : List Cycle
cycles = cycle 0 ∷ cycle 60 ∷ cycle 120 ∷ []

abbrev no_fleet : Fleet
no_fleet = record { sites = []; targets = []; partners = []; partner_sites = [] }

abbrev alone : Inbox → Inbox
alone inbox = inbox

abbrev unalarmed : Uptime Noise
unalarmed = record {
  events = [];
  next_pk = 1;
  clock = 120;
  locks = [];
  audits = [];
  alerts = record {
    inbox = record { rows = []; audits = []; events = []; next_pk = 1; clock = 120 };
    alerts = [];
    pushes = [];
  };
}

unalarmed-fresh : alert 1 "site-down:b" unalarmed.alerts ≡ fresh 1 "site-down:b"
unfolding alert alert_in
unalarmed-fresh = refl

run_cycles-alarmed_example :
    is_open (alert 1 "site-down:b" (run_cycles no_fleet alone cycles unalarmed).alerts)
    ≡ alarmed (
        readings_of no_fleet alone 1 "site-down:b"
          (answers no_fleet alone cycles)
          unalarmed.alerts
          [])
run_cycles-alarmed_example =
    run_cycles-alarmed no_fleet alone cycles unalarmed 1 "site-down:b" refl unalarmed-fresh
