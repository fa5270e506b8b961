-- ===== src/Uptime/History.antt =====
-- A history of uptime events, as monitor/uptime.py keeps it: in the order of time, and alternating.

use deploy_hub.Prelude.{
  ℕ, suc, ◌<◌, ◌≤◌, String, ◌≡◌, refl, sym, ap, ◌∙◌, Bool, true, false, Option, none, some, List,
  [], ◌∷◌, ◌++◌, str_eq, str_eq_iff, if◌then◌else◌, arith, inl, inr, Bool-cases, Option-cases,
  first, All,
}
use deploy_hub.Uptime.{UptimeEvent, UpDown, up, down, same_state, latest, is_newer}

abbrev pub is_about : String → UptimeEvent → Bool
is_about entity e = str_eq e.entity entity

-- The states differ, if there is an event.
abbrev pub repeats : Option UptimeEvent → UpDown → Bool
repeats none state = false
repeats (some e) state = same_state e.state state

-- Each event is older than those after it.
abbrev pub Ordered : List UptimeEvent → Type 0
Ordered [] = Unit
Ordered (e ∷ events) = All (λ x. is_newer e x ≡ true) events × Ordered events

-- The next event about the same entity tells another state.
abbrev pub Alternates : List UptimeEvent → Type 0
Alternates [] = Unit
Alternates (e ∷ events) =
    (repeats (first (is_about e.entity) events) e.state ≡ false) × Alternates events

-- The events change their entity's state, and are all of the past.
pub record IsHistory (clock next_pk : ℕ) (events : List UptimeEvent) : Type 0 where
  pub ordered : Ordered events
  pub alternates : Alternates events
  pub past : All (λ (e : UptimeEvent). (e.at ≤ clock) × (e.pk < next_pk)) events

pub snoc-All :
    (P : UptimeEvent → Type 0) (events : List UptimeEvent) (n : UptimeEvent)
    → All P events
    → P n
    → All P (events ++ n ∷ [])
snoc-All P [] n h p = (p, tt)
snoc-All P (e ∷ events) n h p = (h.0, snoc-All P events n h.1 p)

pub snoc-Ordered :
    (clock next_pk : ℕ) (events : List UptimeEvent) (n : UptimeEvent)
    → All (λ (e : UptimeEvent). (e.at ≤ clock) × (e.pk < next_pk)) events
    → n.at ≡ clock
    → n.pk ≡ next_pk
    → Ordered events
    → Ordered (events ++ n ∷ [])
unfolding is_newer
snoc-Ordered clock next_pk [] n past at pk o = (tt, tt)
snoc-Ordered clock next_pk (e ∷ events) n past at pk o = (
  snoc-All (λ x. is_newer e x ≡ true) events n o.0 (ground (arith, at, pk, past.0)),
  snoc-Ordered clock next_pk events n past.1 at pk o.1,
)

-- What comes latest is an event of the list.
latest-newer :
    (entity : String) (e l : UptimeEvent) (events : List UptimeEvent)
    → All (λ x. is_newer e x ≡ true) events
    → latest entity events ≡ some l
    → is_newer e l ≡ true
unfolding latest
latest-newer entity e l [] h at = absurd (cc)
latest-newer entity e l (x ∷ events) h at = ground (arith, h, latest-newer entity e l events h.1)

pub latest-cons :
    (entity : String) (e : UptimeEvent) (events : List UptimeEvent)
    → All (λ x. is_newer e x ≡ true) events
    → latest entity (e ∷ events) ≡ elim (latest entity events) [
      | none ↦ (if is_about entity e then some e else none)
      | some l ↦ some l
    ]
unfolding latest
latest-cons entity e events h = elim (Option-cases (latest entity events)) [
  | inl none_yet ↦ rw (none_yet) refl
  | inr (l, is) ↦ rw (is, latest-newer entity e l events h is) (ground arith)
]

first-none-latest :
    (entity : String) (events : List UptimeEvent)
    → first (is_about entity) events ≡ none
    → latest entity events ≡ none
unfolding latest
first-none-latest entity [] h = refl
first-none-latest entity (e ∷ events) h = ground (arith, first-none-latest entity events)

first-snoc :
    (p : UptimeEvent → Bool) (events : List UptimeEvent) (n : UptimeEvent)
    → first p (events ++ n ∷ [])
      ≡ elim (first p events) [ none ↦ (if p n then some n else none) | some l ↦ some l ]
first-snoc p [] n = refl
first-snoc p (e ∷ events) n = elim (Bool-cases (p e)) [
  | inl found ↦ rw (found) refl
  | inr missed ↦ rw (missed) (first-snoc p events n)
]

same_state_sym : (a b : UpDown) → same_state a b ≡ same_state b a
unfolding same_state
same_state_sym up up = refl
same_state_sym up down = refl
same_state_sym down up = refl
same_state_sym down down = refl

snoc_next :
    (e n : UptimeEvent) (events : List UptimeEvent)
    → All (λ x. is_newer e x ≡ true) events
    → repeats (first (is_about e.entity) events) e.state ≡ false
    → repeats (latest n.entity (e ∷ events)) n.state ≡ false
    → repeats (first (is_about e.entity) (events ++ n ∷ [])) e.state ≡ false
snoc_next e n events newer now changes = elim (Option-cases (first (is_about e.entity) events)) [
  | inr (l, is) ↦
      rw (first-snoc (is_about e.entity) events n, is) (sym (ap (λ o. repeats o e.state) is) ∙ now)
  | inl ends ↦ elim (Bool-cases (str_eq n.entity e.entity)) [
    | inr other ↦ rw (first-snoc (is_about e.entity) events n, ends, other) refl
    | inl same ↦
        let entity : n.entity ≡ e.entity = (str_eq_iff n.entity e.entity).0 same in
        let last : latest n.entity (e ∷ events) ≡ some e =
          rw
            (
              entity,
              latest-cons e.entity e events newer,
              first-none-latest e.entity events ends,
              (str_eq_iff e.entity e.entity).1 refl,
            )
            refl in
        rw (first-snoc (is_about e.entity) events n, ends, same)
          (ground (arith, last, changes, same_state_sym e.state n.state))
  ]
]

repeats_later :
    (entity : String) (state : UpDown) (e : UptimeEvent) (events : List UptimeEvent)
    → All (λ x. is_newer e x ≡ true) events
    → repeats (latest entity (e ∷ events)) state ≡ false
    → repeats (latest entity events) state ≡ false
repeats_later entity state e events newer changes = elim (Option-cases (latest entity events)) [
  | inl none_yet ↦ rw (none_yet) refl
  | inr (l, is) ↦
      let last : latest entity (e ∷ events) ≡ some l =
        latest-cons entity e events newer ∙ rw (is) refl in
      ap (λ o. repeats o state) (is ∙ sym last) ∙ changes
]

pub snoc-Alternates :
    (events : List UptimeEvent) (n : UptimeEvent)
    → Ordered events
    → Alternates events
    → repeats (latest n.entity events) n.state ≡ false
    → Alternates (events ++ n ∷ [])
snoc-Alternates [] n o a changes = (refl, tt)
snoc-Alternates (e ∷ events) n o a changes = (
  snoc_next e n events o.0 a.0 changes,
  snoc-Alternates events n o.1 a.1 (repeats_later n.entity n.state e events o.0 changes),
)

pub latest-snoc :
    (entity : String) (events : List UptimeEvent) (n : UptimeEvent)
    → All (λ e. is_newer e n ≡ true) events
    → latest entity (events ++ n ∷ [])
      ≡ (if is_about entity n then some n else latest entity events)
unfolding latest
latest-snoc entity [] n h = refl
latest-snoc entity (e ∷ events) n h = elim (Bool-cases (str_eq n.entity entity)) [
  | inl about ↦
      let rest : latest entity (events ++ n ∷ []) ≡ some n =
        latest-snoc entity events n h.1 ∙ rw (about) refl in
      rw (about, rest, h.0) (ground arith)
  | inr other ↦
      let rest : latest entity (events ++ n ∷ []) ≡ latest entity events =
        latest-snoc entity events n h.1 ∙ rw (other) refl in
      rw (other, rest) refl
]

pub past_newer :
    (clock next_pk : ℕ) (events : List UptimeEvent) (n : UptimeEvent)
    → All (λ (e : UptimeEvent). (e.at ≤ clock) × (e.pk < next_pk)) events
    → n.at ≡ clock
    → n.pk ≡ next_pk
    → All (λ e. is_newer e n ≡ true) events
unfolding is_newer
past_newer clock next_pk [] n past at pk = tt
past_newer clock next_pk (e ∷ events) n past at pk =
    (ground (arith, at, pk, past.0), past_newer clock next_pk events n past.1 at pk)

pub same_state_refl : (a : UpDown) → same_state a a ≡ true
unfolding same_state
same_state_refl up = refl
same_state_refl down = refl

pub later_past :
    (clock next_pk : ℕ) (events : List UptimeEvent)
    → All (λ (e : UptimeEvent). (e.at ≤ clock) × (e.pk < next_pk)) events
    → All (λ (e : UptimeEvent). (e.at ≤ clock) × (e.pk < suc next_pk)) events
later_past clock next_pk [] h = tt
later_past clock next_pk (e ∷ events) h =
    ((h.0.0, ground (arith, h.0.1)), later_past clock next_pk events h.1)
