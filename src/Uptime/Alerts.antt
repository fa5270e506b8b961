-- ===== src/Uptime/Alerts.antt =====
-- The probes of monitor/uptime.py over the engine of monitor/antinoise.py, to which they give what
-- they find.
use Prim.Native.String.{◌++◌ as ◌<>◌}
use deploy_hub.Prelude.{
  ℕ, String, ◌≡◌, refl, sym, ap, ◌∙◌, Bool, false, Option, List, [], ◌∷◌, ◌++◌, if◌then◌else◌,
  Option-cases, Bool-cases, inl, inr,
}
use deploy_hub.Findings.{Inbox}
use deploy_hub.Noise.State.{Noise, alert, fresh, is_open}
use deploy_hub.Noise.Fleet.{Fleet}
use deploy_hub.Noise.Alerts.{is_storm}
use deploy_hub.Noise.Readings.{Probe, alarmed}
use deploy_hub.Noise.Observe.{observe}
use deploy_hub.Noise.Hysteresis.{observe_all, readings_of, observe_all-alarmed}
use deploy_hub.Uptime.{
  Site, Response, status, unreachable, error, Uptime, is_ok, probe_url, judge, settle, probe,
  probe_each, run_cycle, record_transition, UpDown, up, down, latest, same_state, entity_of,
}
use deploy_hub.Uptime.Cycle.{ready}

unfoldable pub seen : ℕ → Site → Bool → Probe
seen now site ok = record {
  workspace = site.workspace;
  fingerprint = "site-down:" <> site.name;
  ok = ok;
  now = now;
}

-- The observation that a response makes of a site; a probe that failed makes none.
unfoldable pub observed : ℕ → Site → Response → List Probe → List Probe
observed now site (status code) rest = seen now site (is_ok code) ∷ rest
observed now site (unreachable name) rest = seen now site false ∷ rest
observed now site (error name) rest = rest

unfoldable pub response : (String → Option String → Response) → Site → Response
response get site = let (url, host) = probe_url site in get url host

unfoldable pub observations : (String → Option String → Response) → ℕ → List Site → List Probe
observations get now [] = []
observations get now (site ∷ sites) =
    observed now site (response get site) (observations get now sites)

record_transition-alerts :
    (entity : String) (state : UpDown) (s : Uptime Noise)
    → (record_transition entity state s).1.alerts ≡ s.alerts
unfolding record_transition
record_transition-alerts entity state s = elim (Option-cases (latest entity s.events)) [
  | inl e ↦ rw (record_transition, e) refl
  | inr (last, e) ↦ elim (Bool-cases (same_state last.state state)) [
    | inl b ↦ rw (record_transition, e, b) refl
    | inr b ↦ rw (record_transition, e, b) refl
  ]
]

module _ (get : String → Option String → Response) (fleet : Fleet) (race : Inbox → Inbox)
    (now : ℕ) where
  -- observe of a probe, at the instant of the cycle.
  abbrev pub feed : String → Bool → ℕ → Noise → Noise
  feed fingerprint ok workspace s = observe fleet race fingerprint ok workspace now s

  -- What is fed to the engine is the same before and after the event of the transition.
  transition-alerts :
      (rest : List Probe) (fingerprint entity : String) (ok : Bool) (workspace : ℕ) (state : UpDown)
      (s : Uptime Noise)
      → observe_all fleet race rest (observe fleet race fingerprint ok workspace now s.alerts)
        ≡ observe_all fleet race rest
            (feed fingerprint ok workspace (record_transition entity state s).1.alerts)
  transition-alerts rest fingerprint entity ok workspace state s =
      ap
        (λ (n : Noise).
          observe_all fleet race rest (observe fleet race fingerprint ok workspace now n))
        (sym (record_transition-alerts entity state s))

  judge-alerts :
      (site : Site) (r : Response) (rest : List Probe) (s : Uptime Noise)
      → observe_all fleet race (observed now site r rest) s.alerts
        ≡ observe_all fleet race rest (judge get feed site r s).1.alerts
  unfolding judge settle observed observe_all seen
  judge-alerts site (status code) rest s =
      transition-alerts rest ("site-down:" <> site.name) (entity_of site) (is_ok code)
        site.workspace (if is_ok code then up else down) s
  judge-alerts site (unreachable name) rest s =
      transition-alerts rest ("site-down:" <> site.name) (entity_of site) false site.workspace down
        s
  judge-alerts site (error name) rest s = refl

  probe-alerts :
      (site : Site) (rest : List Probe) (s : Uptime Noise)
      → observe_all fleet race (observed now site (response get site) rest) s.alerts
        ≡ observe_all fleet race rest (probe get feed site s).1.alerts
  unfolding probe response
  probe-alerts site rest s = judge-alerts site (response get site) rest s

  probe_each-alerts :
      (sites : List Site) (s : Uptime Noise)
      → observe_all fleet race (observations get now sites) s.alerts
        ≡ (probe_each get feed sites s).1.alerts
  unfolding probe_each observations observe_all
  probe_each-alerts [] s = refl
  probe_each-alerts (site ∷ sites) s =
      probe-alerts site (observations get now sites) s
      ∙ probe_each-alerts sites (probe get feed site s).1

  run_cycle-alerts :
      (sites : List Site) (s : Uptime Noise)
      → (run_cycle get feed sites s).1.alerts
        ≡ observe_all fleet race (observations get now (ready sites)) s.alerts
  unfolding run_cycle
  run_cycle-alerts sites s = sym (probe_each-alerts (ready sites) s)

-- One cycle: what the sites answer in it, its instant, and the sites.
pub record Cycle : Type 0 where
  pub get : String → Option String → Response
  pub now : ℕ
  pub sites : List Site

module _ (fleet : Fleet) (race : Inbox → Inbox) where
  unfoldable pub run_cycles : List Cycle → Uptime Noise → Uptime Noise
  run_cycles [] s = s
  run_cycles (c ∷ cycles) s =
      run_cycles cycles (run_cycle c.get (feed c.get fleet race c.now) c.sites s).1

  -- The observations of the cycles, in their order.
  unfoldable pub answers : List Cycle → List Probe
  answers [] = []
  answers (c ∷ cycles) = observations c.get c.now (ready c.sites) ++ answers cycles

  observe_all-append :
      (xs ys : List Probe) (s : Noise)
      → observe_all fleet race (xs ++ ys) s
        ≡ observe_all fleet race ys (observe_all fleet race xs s)
  unfolding observe_all
  observe_all-append [] ys s = refl
  observe_all-append (x ∷ xs) ys s =
      observe_all-append xs ys (observe fleet race x.fingerprint x.ok x.workspace x.now s)

  run_cycles-alerts :
      (cycles : List Cycle) (s : Uptime Noise)
      → (run_cycles cycles s).alerts ≡ observe_all fleet race (answers cycles) s.alerts
  unfolding run_cycles answers observe_all
  run_cycles-alerts [] s = refl
  run_cycles-alerts (c ∷ cycles) s =
      let t = (run_cycle c.get (feed c.get fleet race c.now) c.sites s).1 in
      let seen = observations c.get c.now (ready c.sites) in
      run_cycles-alerts cycles t
      ∙ (ap (λ (n : Noise). observe_all fleet race (answers cycles) n)
            (run_cycle-alerts c.get fleet race c.now c.sites s)
          ∙ sym (observe_all-append seen (answers cycles) s.alerts))

  -- Over any cycles of probes, an alert that starts fresh, and is not the storm's, is open exactly when
  -- the answers to the probes of its sites say so: the third failure in a row opens it, unless it is
  -- held then, and the second success in a row shuts it.
  pub run_cycles-alarmed :
      (cycles : List Cycle) (s : Uptime Noise) (w : ℕ) (f : String)
      → is_storm w f ≡ false
      → alert w f s.alerts ≡ fresh w f
      → is_open (alert w f (run_cycles cycles s).alerts)
        ≡ alarmed (readings_of fleet race w f (answers cycles) s.alerts [])
  run_cycles-alarmed cycles s w f e new =
      ap (λ (n : Noise). is_open (alert w f n)) (run_cycles-alerts cycles s)
      ∙ observe_all-alarmed fleet race w f e (answers cycles) s.alerts new
