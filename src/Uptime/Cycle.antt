-- ===== src/Uptime/Cycle.antt =====
-- What one cycle of monitor/uptime.py does and reports.

use deploy_hub.Prelude.{
  ℕ, suc, String, ◌≡◌, refl, ap, ◌∙◌, Bool, true, false, Option, List, [], ◌∷◌, ◌++◌, ◌==◌, str_eq,
  if◌then◌else◌, arith, inl, inr, Bool-cases, all, any, length, filter, is_some,
}
use deploy_hub.Locks.Cycle.{acquire_cycle_lock, probe_cycle_lock, probe_cycle_holder}
use deploy_hub.Uptime.{
  UptimeEvent, up, down, Uptime, Result, probed, failed, Response, Site, latest, settle, judge,
  is_ok, probe_url, probe, probe_each, run_cycle, probe_cycle, is_failed, status, unreachable,
  error, entity_of, lock_broken,
}
use deploy_hub.Uptime.History.{repeats}
use deploy_hub.Uptime.Transitions.{
  HasHistory, record_transition_tells, record_transition_other, probe-HasHistory,
  probe_each-HasHistory,
}

abbrev pub ready : List Site → List Site
ready = filter (λ (x : Site). x.target_is_ready)

-- The events tell the state that a result reports; a probe that failed reports none.
abbrev pub is_told : List UptimeEvent → Result → Bool
is_told events (failed entity name) = true
is_told events (probed entity ok code state changed detail) = repeats (latest entity events) state

abbrev pub about : Site → Site → Bool
about x site = str_eq (entity_of site) (entity_of x)

abbrev pub Distinct : List Site → Type 0
Distinct [] = Unit
Distinct (site ∷ sites) = (any (about site) sites ≡ false) × Distinct sites

module _ {ℓ} {Alerts : Type ℓ} (get : String → Option String → Response)
    (observe : String → Bool → ℕ → Alerts → Alerts) where
  -- A cycle, skipped or run, keeps the history: each event changes the state of its entity, and none is
  -- later than the clock.
  pub probe_cycle-HasHistory :
      (sites : List Site) (s : Uptime Alerts)
      → HasHistory s
      → HasHistory (probe_cycle get observe sites s).1
  unfolding probe_cycle run_cycle
  probe_cycle-HasHistory sites s h =
      let (locks, lock, broken) =
        acquire_cycle_lock s.clock probe_cycle_lock probe_cycle_holder s.locks in
      elim (Bool-cases (is_some lock)) [
        | inr held ↦ rw (held) h
        | inl granted ↦ rw (granted) (
            probe_each-HasHistory get observe (ready sites)
              (record s {
                locks = locks;
                audits = if broken then s.audits ++ lock_broken ∷ [] else s.audits;
              })
              h)
      ]

  judge_other :
      (x : String) (site : Site) (r : Response) (s : Uptime Alerts)
      → HasHistory s
      → str_eq (entity_of site) x ≡ false
      → latest x (judge get observe site r s).1.events ≡ latest x s.events
  unfolding judge settle
  judge_other x site (status code) s h other =
      record_transition_other x (entity_of site) (if is_ok code then up else down) s h other
  judge_other x site (unreachable name) s h other =
      record_transition_other x (entity_of site) down s h other
  judge_other x site (error name) s h other = refl

  probe_each_other :
      (x : Site) (sites : List Site) (s : Uptime Alerts)
      → HasHistory s
      → any (about x) sites ≡ false
      → latest (entity_of x) (probe_each get observe sites s).1.events
        ≡ latest (entity_of x) s.events
  unfolding probe_each probe
  probe_each_other x [] s h others = refl
  probe_each_other x (site ∷ sites) s h others =
      let (url, host) = probe_url site in
      probe_each_other x sites (probe get observe site s).1 (probe-HasHistory get observe site s h)
        (ground arith)
      ∙ judge_other (entity_of x) site (get url host) s h (ground arith)

  judge_told :
      (site : Site) (r : Response) (s : Uptime Alerts)
      → HasHistory s
      → (later : List UptimeEvent)
      → latest (entity_of site) later
        ≡ latest (entity_of site) (judge get observe site r s).1.events
      → is_told later (judge get observe site r s).0 ≡ true
  unfolding judge settle
  judge_told site (status code) s h later same =
      let state = if is_ok code then up else down in
      ap (λ o. repeats o state) same ∙ record_transition_tells (entity_of site) state s h
  judge_told site (unreachable name) s h later same =
      ap (λ o. repeats o down) same ∙ record_transition_tells (entity_of site) down s h
  judge_told site (error name) s h later same = refl

  probe_each_told :
      (sites : List Site) (s : Uptime Alerts)
      → HasHistory s
      → Distinct sites
      → all (is_told (probe_each get observe sites s).1.events) (probe_each get observe sites s).0
        ≡ true
  unfolding probe_each probe
  probe_each_told [] s h d = refl
  probe_each_told (site ∷ sites) s h d =
      let (url, host) = probe_url site in
      let s1 = (probe get observe site s).1 in
      let kept = probe-HasHistory get observe site s h in
      let here =
        judge_told site (get url host) s h (probe_each get observe sites s1).1.events
          (probe_each_other site sites s1 kept d.0) in
      rw (here) (probe_each_told sites s1 kept d.1)

  run_cycle_told :
      (sites : List Site) (s : Uptime Alerts)
      → HasHistory s
      → Distinct (ready sites)
      → all
          (is_told (run_cycle get observe sites s).1.events)
          (run_cycle get observe sites s).0.results
        ≡ true
  unfolding run_cycle
  run_cycle_told sites s h d = probe_each_told (ready sites) s h d

  abbrev granted_state : Uptime Alerts → Uptime Alerts
  granted_state s =
      let (locks, lock, broken) =
        acquire_cycle_lock s.clock probe_cycle_lock probe_cycle_holder s.locks in
      record s { locks = locks; audits = if broken then s.audits ++ lock_broken ∷ [] else s.audits }

  -- If the events are a history of the past and the ready sites' names differ, then after a cycle, skipped
  -- or run, the latest event of every site that was probed tells the state that its result reports.
  pub probe_cycle_told :
      (sites : List Site) (s : Uptime Alerts)
      → HasHistory s
      → Distinct (ready sites)
      → all
          (is_told (probe_cycle get observe sites s).1.events)
          (probe_cycle get observe sites s).0.results
        ≡ true
  unfolding probe_cycle
  probe_cycle_told sites s h d =
      let (locks, lock, broken) =
        acquire_cycle_lock s.clock probe_cycle_lock probe_cycle_holder s.locks in
      elim (Bool-cases (is_some lock)) [
        | inr held ↦ rw (held) refl
        | inl granted ↦ rw (granted) (run_cycle_told sites (granted_state s) h d)
      ]

  length-probe_each :
      (sites : List Site) (s : Uptime Alerts)
      → length (probe_each get observe sites s).0 ≡ length sites
  unfolding probe_each
  length-probe_each [] s = refl
  length-probe_each (site ∷ sites) s = ap suc (length-probe_each sites (probe get observe site s).1)

  none_failed :
      (results : List Result)
      → (length (filter is_failed results) == 0) ≡ true
      → any is_failed results ≡ false
  none_failed [] e = refl
  none_failed (failed entity name ∷ results) e = absurd (ground (arith, e))
  none_failed (probed entity ok code state changed detail ∷ results) e = none_failed results e

  -- A cycle is reported as completed only if it was not skipped and has a result for each ready site, none
  -- of which is an internal error.
  pub probe_cycle-completed :
      (sites : List Site) (s : Uptime Alerts)
      → (probe_cycle get observe sites s).0.completed ≡ true
      → ((probe_cycle get observe sites s).0.skipped ≡ false)
        × (length (probe_cycle get observe sites s).0.results ≡ length (ready sites))
        × (any is_failed (probe_cycle get observe sites s).0.results ≡ false)
  unfolding probe_cycle run_cycle
  probe_cycle-completed sites s =
      let (locks, lock, broken) =
        acquire_cycle_lock s.clock probe_cycle_lock probe_cycle_holder s.locks in
      elim (Bool-cases (is_some lock)) [
        | inr held ↦ rw (held) (λ e. absurd (cc))
        | inl granted ↦ rw (granted) (λ e. (
          refl,
          length-probe_each (ready sites) (granted_state s),
          none_failed (probe_each get observe (ready sites) (granted_state s)).0 e,
        ))
      ]
