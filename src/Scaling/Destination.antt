-- ===== src/Scaling/Destination.antt =====
-- scaling/destination.py: the choice of a machine that is idle already, before one is rented.
-- `casefold` is str.casefold; the hub's host name comes folded from the settings, "" when there is none.

use deploy_hub.Prelude.{
  ℕ, ◌+◌, String, ◌≡◌, ◌≢◌, refl, Bool, true, false, not, ◌&&◌, Option, none, some, List, [], ◌∷◌,
  ◌==◌, ltb, leb, str_eq, if◌then◌else◌, is_in, any, arith, inl, inr, Option-cases, Bool-cases,
}
use deploy_hub.Scaling.{Sample, has_headroom, max_sample_gap}

pub data Lifecycle : Type 0 where
  permanent ephemeral : Lifecycle

pub record Target : Type 0 where
  pub pk : ℕ
  pub is_ready : Bool
  pub lifecycle : Lifecycle
  pub host : String

-- HostMetric; its time is always set.
pub record Metric : Type 0 where
  pub target : ℕ
  pub ts : ℕ
  pub ram : Option ℕ
  pub load : Option ℕ
  pub cores : Option ℕ

-- The tables that are read. `targets` is in the order of the keys; `partner_pks` holds the keys that the
-- destination orders of the partners name.
pub record Fleet : Type 0 where
  pub targets : List Target
  pub metrics : List Metric
  pub partner_pks : List ℕ
  pub hub_host : String

abbrev pub is_permanent : Lifecycle → Bool
is_permanent permanent = true
is_permanent ephemeral = false

unfoldable pub sample_of : Metric → Sample
sample_of m = record { ts = some m.ts; ram_pct = m.ram; load_avg = m.load; cores = m.cores }

unfoldable pub in_gap : ℕ → ℕ → Metric → Bool
in_gap now target m = m.target == target && leb now (m.ts + max_sample_gap) && leb m.ts now

-- _latest_in_window; the last of those with one time, which the source leaves open.
unfoldable pub latest_in_window : ℕ → ℕ → List Metric → Option Metric
unfolding in_gap
latest_in_window now target [] = none
latest_in_window now target (m ∷ metrics) =
    let rest = latest_in_window now target metrics in
    if in_gap now target m
    then elim rest [ none ↦ some m | some l ↦ if ltb l.ts m.ts then some m else some l ]
    else rest

unfoldable pub is_candidate : Option ℕ → Target → Bool
is_candidate primary target =
    target.is_ready
    && is_permanent target.lifecycle
    && not (elim primary [ none ↦ false | some p ↦ target.pk == p ])

module _ (casefold : String → String) where
  -- The body of the loop: what is not passed over.
  unfoldable pub is_idle : ℕ → Fleet → Target → Bool
  unfolding latest_in_window sample_of
  is_idle now fleet target =
      if is_in target.pk fleet.partner_pks
      then false
      else if not (str_eq fleet.hub_host "") && str_eq (casefold target.host) fleet.hub_host
      then false
      else elim (latest_in_window now target.pk fleet.metrics) [
        | none ↦ false
        | some m ↦ has_headroom (sample_of m)
      ]

  -- pick_overflow_home; `none`: the quote of a rented machine.
  unfoldable pub pick_overflow_home : Option ℕ → ℕ → Fleet → List Target → Option Target
  unfolding is_idle is_candidate
  pick_overflow_home primary now fleet [] = none
  pick_overflow_home primary now fleet (t ∷ targets) =
      let rest = pick_overflow_home primary now fleet targets in
      if is_candidate primary t && is_idle now fleet t then some t else rest

stays_permanent : (l : Lifecycle) → is_permanent l ≡ true → l ≡ permanent
stays_permanent permanent e = refl
stays_permanent ephemeral e = absurd (cc)

not_own : (primary : Option ℕ) (t : Target) → is_candidate primary t ≡ true → primary ≢ some t.pk
unfolding is_candidate
not_own none t h e = absurd (cc)
not_own (some p) t h e = ground (arith, h, e)

latest-in_gap :
    (now target : ℕ) (metrics : List Metric) (m : Metric)
    → latest_in_window now target metrics ≡ some m
    → in_gap now target m ≡ true
unfolding latest_in_window
latest-in_gap now target [] m e = absurd (cc)
latest-in_gap now target (x ∷ metrics) m e = ground (arith, latest-in_gap now target metrics m)

module _ (casefold : String → String) where
  -- What is_idle has seen of a target.
  pub record IsIdle (primary : Option ℕ) (now : ℕ) (fleet : Fleet) (t : Target) : Type 0 where
    pub ready : t.is_ready ≡ true
    pub stays : t.lifecycle ≡ permanent
    pub not_primary : primary ≢ some t.pk
    pub not_partner : is_in t.pk fleet.partner_pks ≡ false
    pub not_hub :
        (not (str_eq fleet.hub_host "") && str_eq (casefold t.host) fleet.hub_host) ≡ false
    pub metric : Metric
    pub recent : in_gap now t.pk metric ≡ true
    pub headroom : has_headroom (sample_of metric) ≡ true

  is_idle-IsIdle :
      (primary : Option ℕ) (now : ℕ) (fleet : Fleet) (t : Target)
      → is_candidate primary t ≡ true
      → is_idle casefold now fleet t ≡ true
      → IsIdle primary now fleet t
  unfolding is_idle is_candidate
  is_idle-IsIdle primary now fleet t stands idle =
      elim (Bool-cases (is_in t.pk fleet.partner_pks)) [
        | inl partner ↦ absurd (ground (arith, partner, idle))
        | inr free ↦
            elim (Bool-cases
              (not (str_eq fleet.hub_host "") && str_eq (casefold t.host) fleet.hub_host)) [
                | inl hub ↦ absurd (ground (arith, free, hub, idle))
                | inr other ↦ elim (Option-cases (latest_in_window now t.pk fleet.metrics)) [
                  | inl silent ↦ absurd (ground (arith, free, other, silent, idle))
                  | inr (m, found) ↦ record {
                    ready = ground arith;
                    stays = stays_permanent t.lifecycle (ground arith);
                    not_primary = not_own primary t stands;
                    not_partner = free;
                    not_hub = other;
                    metric = m;
                    recent = latest-in_gap now t.pk fleet.metrics m found;
                    headroom = ground (arith, free, other, found, idle);
                  }
                ]
              ]
      ]

  abbrev pub Picked : Option ℕ → ℕ → Fleet → List Target → Option Target → Type 0
  Picked primary now fleet targets (some t) = IsIdle primary now fleet t
  Picked primary now fleet targets none =
      any (λ (t : Target). is_candidate primary t && is_idle casefold now fleet t) targets ≡ false

  cons-Picked :
      (primary : Option ℕ) (now : ℕ) (fleet : Fleet) (t : Target) (targets : List Target)
      (o : Option Target)
      → (is_candidate primary t && is_idle casefold now fleet t) ≡ false
      → Picked primary now fleet targets o
      → Picked primary now fleet (t ∷ targets) o
  cons-Picked primary now fleet t targets none bad p = rw (bad) p
  cons-Picked primary now fleet t targets (some x) bad p = p

  -- The machine that is picked is ready, permanent and not the site's own, no partner's and not the hub, and
  -- a sample of the last two minutes shows that it has headroom. None is picked only when no target would do.
  pub pick_overflow_home-Picked :
      (primary : Option ℕ) (now : ℕ) (fleet : Fleet) (targets : List Target)
      → Picked primary now fleet targets (pick_overflow_home casefold primary now fleet targets)
  unfolding pick_overflow_home
  pick_overflow_home-Picked primary now fleet [] = refl
  pick_overflow_home-Picked primary now fleet (t ∷ targets) =
      elim (Bool-cases (is_candidate primary t && is_idle casefold now fleet t)) [
        | inl good ↦
            rw (good)
              (is_idle-IsIdle primary now fleet t (ground (arith, good)) (ground (arith, good)))
        | inr bad ↦ rw (bad) (
            cons-Picked primary now fleet t targets
              (pick_overflow_home casefold primary now fleet targets) bad
              (pick_overflow_home-Picked primary now fleet targets))
      ]
