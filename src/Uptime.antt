-- ===== src/Uptime.antt =====
-- monitor/uptime.py: the cycle that probes every site and records what changed.
-- `get` is the HTTP request and `observe` the hysteresis engine, which works on what is in `alerts`.
-- `clock` is the `now` of the cycle. The metric of a websocket site, read from the collected payload
-- for its card, is left out of the report.
pub mod History
pub mod Transitions
pub mod Cycle
pub mod Alerts
use Prim.Native.String.{◌++◌ as ◌<>◌}
use deploy_hub.Prelude.{
  ℕ, zero, suc, ◌+◌, String, Bool, true, false, not, ◌&&◌, ◌||◌, Option, none, some, List, [], ◌∷◌,
  ◌++◌, ◌==◌, ltb, leb, str_eq, if◌then◌else◌, is_some, length, filter,
}
use deploy_hub.Locks.{OperationLock, release}
use deploy_hub.Locks.Cycle.{acquire_cycle_lock, probe_cycle_lock, probe_cycle_holder}

pub data Exposure : Type 0 where
  public mesh_only : Exposure

-- A site with what the cycle reads of its project and of its primary target.
pub record Site : Type 0 where
  pub pk : ℕ
  pub name : String
  pub domain : String
  pub liveness_path : String
  pub exposure : Exposure
  pub host : String
  pub target_is_ready : Bool
  pub workspace : ℕ

pub data UpDown : Type 0 where
  up down : UpDown

-- UptimeEvent, all of the kind "http".
pub record UptimeEvent : Type 0 where
  pub pk : ℕ
  pub entity : String
  pub state : UpDown
  pub at : ℕ

-- What the request comes to: its status, an OSError, or another exception, by their types' names.
pub data Response : Type 0 where
  status : Option ℕ → Response
  unreachable error : String → Response

pub data Result : Type 0 where
  failed : String → String → Result
  probed : String → Bool → Option ℕ → UpDown → Bool → String → Result

pub record Report : Type 0 where
  pub completed : Bool
  pub skipped : Bool
  pub n : ℕ
  pub errors : ℕ
  pub results : List Result

pub data Audit : Type 0 where
  probe_error : ℕ → Audit
  cycle_skipped lock_broken : Audit

pub record Uptime {ℓ} (Alerts : Type ℓ) : Type ℓ where
  pub events : List UptimeEvent
  pub next_pk : ℕ
  pub clock : ℕ
  pub locks : List OperationLock
  pub audits : List Audit
  pub alerts : Alerts

abbrev pub is_failed : Result → Bool
is_failed (failed entity name) = true
is_failed (probed entity ok code state changed detail) = false

unfoldable pub same_state : UpDown → UpDown → Bool
same_state up up = true
same_state down down = true
same_state _ _ = false

unfoldable pub entity_of : Site → String
entity_of site = "site:" <> site.name

unfoldable pub probe_url : Site → String × Option String
probe_url site =
    let path = if str_eq site.liveness_path "" then "/healthz" else site.liveness_path in
    elim site.exposure [
      | mesh_only ↦ (
        "http://" <> (site.host <> path),
        if str_eq site.domain "" then none else some site.domain,
      )
      | public ↦ ("https://" <> (site.domain <> path), none)
    ]

-- `.order_by("-at", "-pk")`: the second comes before the first.
unfoldable pub is_newer : UptimeEvent → UptimeEvent → Bool
is_newer a b = ltb a.at b.at || (a.at == b.at && ltb a.pk b.pk)

unfoldable pub latest : String → List UptimeEvent → Option UptimeEvent
unfolding is_newer
latest entity [] = none
latest entity (e ∷ events) =
    let rest = latest entity events in
    let best : Option UptimeEvent = elim rest [
      | none ↦ some e
      | some l ↦ if is_newer e l then some l else some e
    ] in
    if str_eq e.entity entity then best else rest

-- `200 <= int(status) < 400`
unfoldable pub is_ok : Option ℕ → Bool
is_ok none = false
is_ok (some code) = leb 200 code && ltb code 400

module _ {ℓ} {Alerts : Type ℓ} where
  -- The Boolean says whether an event was created.
  unfoldable pub record_transition : String → UpDown → Uptime Alerts → Bool × Uptime Alerts
  unfolding latest same_state
  record_transition entity state s =
      let event : UptimeEvent = record {
        pk = s.next_pk;
        entity = entity;
        state = state;
        at = s.clock;
      } in
      let create = record s { events = s.events ++ event ∷ []; next_pk = suc s.next_pk } in
      elim (latest entity s.events) [
        | none ↦ (true, create)
        | some last ↦ if same_state last.state state then (false, s) else (true, create)
      ]

  module _ (get : String → Option String → Response)
      (observe : String → Bool → ℕ → Alerts → Alerts) where
    -- A probe that came to a result.
    unfoldable pub settle : Site → Option ℕ → Bool → String → Uptime Alerts → Result × Uptime Alerts
    unfolding record_transition entity_of
    settle site code ok detail s =
        let state = if ok then up else down in
        let (changed, s') = record_transition (entity_of site) state s in
        (
          probed (entity_of site) ok code state changed detail,
          record s' { alerts = observe ("site-down:" <> site.name) ok site.workspace s'.alerts },
        )

    unfoldable pub judge : Site → Response → Uptime Alerts → Result × Uptime Alerts
    unfolding is_ok settle entity_of
    judge site (status code) s = settle site code (is_ok code) "" s
    judge site (unreachable name) s = settle site none false name s
    judge site (error name) s =
        (failed (entity_of site) name, record s { audits = s.audits ++ probe_error site.pk ∷ [] })

    unfoldable pub probe : Site → Uptime Alerts → Result × Uptime Alerts
    unfolding probe_url judge
    probe site s = let (url, host) = probe_url site in judge site (get url host) s

    -- The loop of _run_cycle.
    unfoldable pub probe_each : List Site → Uptime Alerts → List Result × Uptime Alerts
    unfolding probe
    probe_each [] s = ([], s)
    probe_each (site ∷ sites) s =
        let (result, s1) = probe site s in
        let (results, s2) = probe_each sites s1 in (result ∷ results, s2)

    unfoldable pub run_cycle : List Site → Uptime Alerts → Report × Uptime Alerts
    unfolding probe_each
    run_cycle sites s =
        let (results, s') = probe_each (filter (λ (x : Site). x.target_is_ready) sites) s in
        let errors = length (filter is_failed results) in
        (
          record {
            completed = errors == 0;
            skipped = false;
            n = length results;
            errors = errors;
            results = results;
          },
          s',
        )

    unfoldable pub probe_cycle : List Site → Uptime Alerts → Report × Uptime Alerts
    unfolding run_cycle
    probe_cycle sites s =
        let (locks, lock, broken) =
          acquire_cycle_lock s.clock probe_cycle_lock probe_cycle_holder s.locks in
        let held = record s {
          locks = locks;
          audits = if broken then s.audits ++ lock_broken ∷ [] else s.audits;
        } in
        if is_some lock
        then (let (report, s') = run_cycle sites held in
            (
              report,
              record s' { locks = (release probe_cycle_lock (some probe_cycle_holder) s'.locks).0 },
            ))
        else (
          record { completed = false; skipped = true; n = 0; errors = 0; results = [] },
          record held { audits = held.audits ++ cycle_skipped ∷ [] },
        )
