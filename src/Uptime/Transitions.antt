-- ===== src/Uptime/Transitions.antt =====
-- record_transition of monitor/uptime.py writes an event for a change, never one per probe.

use deploy_hub.Prelude.{
  ℕ, suc, ◌<◌, ◌≤◌, String, ◌≡◌, refl, ap, ◌∙◌, Bool, true, false, Option, some, List, [], ◌∷◌,
  ◌++◌, str_eq, str_eq_iff, if◌then◌else◌, arith, inl, inr, Bool-cases, Option-cases,
}
use deploy_hub.Uptime.{
  UptimeEvent, UpDown, up, down, Uptime, Response, Site, same_state, latest, record_transition,
  settle, judge, is_ok, probe_url, probe, probe_each, status, unreachable, error, entity_of,
}
use deploy_hub.Uptime.History.{
  repeats, IsHistory, snoc-All, snoc-Ordered, latest-snoc, past_newer, same_state_refl,
  snoc-Alternates, later_past,
}

module _ {ℓ} {Alerts : Type ℓ} where
  -- An event at the time of the clock, with the next primary key.
  snoc-IsHistory :
      (s : Uptime Alerts) (entity : String) (state : UpDown)
      → IsHistory s.clock s.next_pk s.events
      → repeats (latest entity s.events) state ≡ false
      → IsHistory s.clock
          (suc s.next_pk)
          (s.events ++ record { pk = s.next_pk; entity = entity; state = state; at = s.clock } ∷ [])
  snoc-IsHistory s entity state h changes =
      let n : UptimeEvent = record {
        pk = s.next_pk;
        entity = entity;
        state = state;
        at = s.clock;
      } in
      record {
        ordered = snoc-Ordered s.clock s.next_pk s.events n h.past refl refl h.ordered;
        alternates = snoc-Alternates s.events n h.ordered h.alternates changes;
        past =
            snoc-All (λ (e : UptimeEvent). (e.at ≤ s.clock) × (e.pk < suc s.next_pk)) s.events n
              (later_past s.clock s.next_pk s.events h.past) (omega arith, omega arith);
      }

  abbrev pub HasHistory : Uptime Alerts → Type 0
  HasHistory s = IsHistory s.clock s.next_pk s.events

  record_transition-HasHistory :
      (entity : String) (state : UpDown) (s : Uptime Alerts)
      → HasHistory s
      → HasHistory (record_transition entity state s).1
  unfolding record_transition
  record_transition-HasHistory entity state s h = elim (Option-cases (latest entity s.events)) [
    | inl none_yet ↦
        rw (record_transition, none_yet)
          (snoc-IsHistory s entity state h (ap (λ o. repeats o state) none_yet))
    | inr (l, is) ↦ elim (Bool-cases (same_state l.state state)) [
      | inl same ↦ rw (record_transition, is, same) h
      | inr changed ↦
          rw (record_transition, is, changed)
            (snoc-IsHistory s entity state h (ap (λ o. repeats o state) is ∙ changed))
    ]
  ]

  abbrev new_event : String → UpDown → Uptime Alerts → UptimeEvent
  new_event entity state s = record { pk = s.next_pk; entity = entity; state = state; at = s.clock }

  latest-new_event :
      (x entity : String) (state : UpDown) (s : Uptime Alerts)
      → HasHistory s
      → latest x (s.events ++ new_event entity state s ∷ [])
        ≡ (if str_eq entity x then some (new_event entity state s) else latest x s.events)
  latest-new_event x entity state s h =
      latest-snoc x s.events (new_event entity state s)
        (past_newer s.clock s.next_pk s.events (new_event entity state s) h.past refl refl)

  created_tells :
      (entity : String) (state : UpDown) (s : Uptime Alerts)
      → HasHistory s
      → repeats (latest entity (s.events ++ new_event entity state s ∷ [])) state ≡ true
  created_tells entity state s h =
      rw (latest-new_event entity entity state s h, (str_eq_iff entity entity).1 refl)
        (same_state_refl state)

  -- After a transition the latest event of the entity tells the state, whether it is a new one or not.
  pub record_transition_tells :
      (entity : String) (state : UpDown) (s : Uptime Alerts)
      → HasHistory s
      → repeats (latest entity (record_transition entity state s).1.events) state ≡ true
  unfolding record_transition
  record_transition_tells entity state s h = elim (Option-cases (latest entity s.events)) [
    | inl none_yet ↦ rw (record_transition, none_yet) (created_tells entity state s h)
    | inr (l, is) ↦ elim (Bool-cases (same_state l.state state)) [
      | inl same ↦ rw (record_transition, is, same) (ap (λ o. repeats o state) is ∙ same)
      | inr changed ↦ rw (record_transition, is, changed) (created_tells entity state s h)
    ]
  ]

  -- The other entities keep theirs.
  pub record_transition_other :
      (x entity : String) (state : UpDown) (s : Uptime Alerts)
      → HasHistory s
      → str_eq entity x ≡ false
      → latest x (record_transition entity state s).1.events ≡ latest x s.events
  unfolding record_transition
  record_transition_other x entity state s h other =
      let kept : latest x (s.events ++ new_event entity state s ∷ []) ≡ latest x s.events =
        latest-new_event x entity state s h ∙ rw (other) refl in
      elim (Option-cases (latest entity s.events)) [
        | inl none_yet ↦ rw (record_transition, none_yet) kept
        | inr (l, is) ↦ elim (Bool-cases (same_state l.state state)) [
          | inl same ↦ rw (record_transition, is, same) refl
          | inr changed ↦ rw (record_transition, is, changed) kept
        ]
      ]

  module _ (get : String → Option String → Response)
      (observe : String → Bool → ℕ → Alerts → Alerts) where
    judge-HasHistory :
        (site : Site) (r : Response) (s : Uptime Alerts)
        → HasHistory s
        → HasHistory (judge get observe site r s).1
    unfolding judge settle
    judge-HasHistory site (status code) s h =
        record_transition-HasHistory (entity_of site) (if is_ok code then up else down) s h
    judge-HasHistory site (unreachable name) s h =
        record_transition-HasHistory (entity_of site) down s h
    judge-HasHistory site (error name) s h = h

    pub probe-HasHistory :
        (site : Site) (s : Uptime Alerts) → HasHistory s → HasHistory (probe get observe site s).1
    unfolding probe
    probe-HasHistory site s h =
        let (url, host) = probe_url site in judge-HasHistory site (get url host) s h

    pub probe_each-HasHistory :
        (sites : List Site) (s : Uptime Alerts)
        → HasHistory s
        → HasHistory (probe_each get observe sites s).1
    unfolding probe_each
    probe_each-HasHistory [] s h = h
    probe_each-HasHistory (site ∷ sites) s h =
        probe_each-HasHistory sites (probe get observe site s).1 (probe-HasHistory site s h)
