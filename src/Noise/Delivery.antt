-- ===== src/Noise/Delivery.antt =====
-- What monitor/antinoise.py decides of a filed row without a write: whether it is suppressed or held
-- back, and how it is to be pushed.
-- Where the source gives no workspace to _fingerprint_open and to _flap_holds, the default one is read.
use Prim.Native.String.{◌++◌ as ◌<>◌}
use deploy_hub.Prelude.{
  ℕ, String, Bool, true, false, not, ◌&&◌, Option, none, some, ltb, str_eq, if◌then◌else◌, is_some,
  length,
}
use deploy_hub.Findings.{
  Finding, Severity, p1, p2, p3, State, opened, acked, resolved, accepted, by_key, is_resolved,
}
use deploy_hub.Noise.Text.{partition, starts_with, flap_fp}
use deploy_hub.Noise.State.{
  Noise, alert, is_open, is_stable, recent_pushes, default_workspace, storm_limit, storm_finding_fp,
}
use deploy_hub.Noise.Fleet.{Fleet, site_named, target_at}

-- A row with the fields that are set on it in memory; `is_max` tells the priority "max" from "default".
pub record Raised : Type 0 where
  pub row : Finding
  pub will_push : Bool
  pub is_max : Bool
  pub respects_quiet_hours : Bool

-- _fingerprint_open
unfoldable pub fingerprint_open : String → Noise → Bool
unfolding alert is_open
fingerprint_open fingerprint s = is_open (alert default_workspace fingerprint s)

unfoldable pub suppressed_by : Fleet → String → Noise → Option String
unfolding site_named target_at
suppressed_by fleet entity s =
    let (kind, name) = partition entity in
    if str_eq kind "site"
    then elim (site_named fleet name) [
      | none ↦ none
      | some site ↦ elim site.primary_target [
        | none ↦ none
        | some t ↦
            if fingerprint_open ("host-down:" <> t.host) s
            then some ("host:" <> t.host)
            else if fingerprint_open ("zone-down:" <> t.zone.slug) s
            then some ("zone:" <> t.zone.slug)
            else none
      ]
    ]
    else if str_eq kind "host"
    then elim (target_at fleet name) [
      | none ↦ none
      | some t ↦
          if fingerprint_open ("zone-down:" <> t.zone.slug) s
          then some ("zone:" <> t.zone.slug)
          else none
    ]
    else none

abbrev unless_resolved : Option Finding → Option Finding
unless_resolved none = none
unless_resolved (some r) = if is_resolved r.state then none else some r

-- `.exclude(state=RESOLVED).first()`
unfoldable pub unresolved : ℕ → String → Noise → Option Finding
unresolved workspace fingerprint s = unless_resolved (by_key workspace fingerprint s.inbox)

unfoldable pub flap_holds : ℕ → String → ℕ → Noise → Bool
unfolding unresolved
flap_holds workspace fingerprint now s =
    not (starts_with fingerprint "FLAPPING:")
    && (is_some (unresolved workspace (flap_fp fingerprint) s)
        && not (is_stable (alert workspace fingerprint s) now))

unfoldable pub is_storming : ℕ → Noise → Bool
unfolding recent_pushes
is_storming now s = ltb storm_limit (length (recent_pushes now s))

-- _storming_except
unfoldable pub storming_except : String → ℕ → Noise → Bool
storming_except fingerprint now s = not (str_eq fingerprint storm_finding_fp) && is_storming now s

abbrev is_p1 : Severity → Bool
is_p1 p1 = true
is_p1 p2 = false
is_p1 p3 = false

abbrev is_opened : State → Bool
is_opened opened = true
is_opened acked = false
is_opened resolved = false
is_opened accepted = false

-- _annotate_delivery
unfoldable pub annotate : Fleet → Finding → ℕ → Noise → Raised
annotate fleet row now s = record {
  row = row;
  will_push =
      is_opened row.state
      && (not (flap_holds default_workspace row.fingerprint now s)
          && (not (is_some (suppressed_by fleet row.entity s))
              && not (storming_except row.fingerprint now s)));
  is_max = is_p1 row.severity;
  respects_quiet_hours = not (is_p1 row.severity);
}
