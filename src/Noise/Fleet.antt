-- ===== src/Noise/Fleet.antt =====
-- What monitor/antinoise.py reads of the fleet: the tables of core/models/fleet.py that it looks a
-- site or a host up in, the class of an alert, and its copy.
-- A Site and a Target have none of the fields `tier`, `role` and `env` that _env_role_label asks for.
use Prim.Native.String.{◌++◌ as ◌<>◌, compare}
use Prim.Native.Nat.{Ordering}
use deploy_hub.Prelude.{
  ℕ, String, Bool, false, not, ◌||◌, Option, none, some, List, [], ◌∷◌, map, ◌==◌, str_eq,
  if◌then◌else◌, first, filter, any, is_in,
}
use deploy_hub.Findings.{Severity, p1, p2}
use deploy_hub.Noise.Text.{partition, starts_with}

pub record NetworkZone : Type 0 where
  pub slug : String
  pub purpose : String

pub record Target : Type 0 where
  pub pk : ℕ
  pub host : String
  pub zone : NetworkZone

pub data Environment : Type 0 where
  production staging development preview : Environment

pub record Site : Type 0 where
  pub pk : ℕ
  pub name : String
  pub environment : Environment
  pub primary_target : Option Target
  pub dns_purpose : Option String

pub record Partner : Type 0 where
  pub pk : ℕ
  pub workspace : ℕ
  pub slug : String
  pub destination_order : List ℕ

pub record PartnerSite : Type 0 where
  pub partner : Partner
  pub site : Site

pub record Fleet : Type 0 where
  pub sites : List Site
  pub targets : List Target
  pub partners : List Partner
  pub partner_sites : List PartnerSite

-- The kinds of monitor/alert_rules.py that are raised here, and classify() of them.
pub data Kind : Type 0 where
  prod_site_hard_down partner_site_hard_down staging_or_flapping partner_aggregate_down : Kind
  flapping alert_storm : Kind

unfoldable pub classify : Kind → Severity
classify prod_site_hard_down = p1
classify partner_site_hard_down = p2
classify staging_or_flapping = p2
classify partner_aggregate_down = p1
classify flapping = p2
classify alert_storm = p1

unfoldable pub site_named : Fleet → String → Option Site
site_named fleet name = first (λ (x : Site). str_eq x.name name) fleet.sites

unfoldable pub target_at : Fleet → String → Option Target
target_at fleet host = first (λ (t : Target). str_eq t.host host) fleet.targets

abbrev is_on : (Target → Bool) → Site → Bool
is_on p site = elim site.primary_target [ none ↦ false | some t ↦ p t ]

unfoldable pub is_partner_site : Fleet → Site → Bool
is_partner_site fleet site = any (λ (b : PartnerSite). b.site.pk == site.pk) fleet.partner_sites

abbrev non_empty : String → Option String
non_empty s = if str_eq s "" then none else some s

unfoldable pub env_role_label : Fleet → Site → String
unfolding is_partner_site
env_role_label fleet site =
    let of_zone : Option String = elim site.primary_target [
      | none ↦ none
      | some t ↦ non_empty t.zone.purpose
    ] in
    let of_dns : Option String = elim site.dns_purpose [ none ↦ none | some p ↦ non_empty p ] in
    if is_partner_site fleet site then "partner" else elim of_zone [
      | some purpose ↦ purpose
      | none ↦ elim of_dns [ some purpose ↦ purpose | none ↦ "prod" ]
    ]

unfoldable pub site_down_kind : Fleet → String → Kind
unfolding env_role_label site_named
site_down_kind fleet entity =
    let (kind, name) = partition entity in
    if not (str_eq kind "site") then prod_site_hard_down else elim (site_named fleet name) [
      | none ↦ prod_site_hard_down
      | some site ↦
          let label = env_role_label fleet site in
          if str_eq label "partner"
          then partner_site_hard_down
          else if str_eq label "staging" || (str_eq label "experiment" || str_eq label "test")
          then staging_or_flapping
          else prod_site_hard_down
    ]

unfoldable pub host_is_partner_tier : Fleet → String → Bool
unfolding target_at
host_is_partner_tier fleet host = elim (target_at fleet host) [
  | none ↦ false
  | some t ↦
      any (λ (b : PartnerSite). is_on (λ (x : Target). x.pk == t.pk) b.site) fleet.partner_sites
      || any (λ (p : Partner). is_in t.pk p.destination_order) fleet.partners
]

-- `.order_by(…)` of texts.
unfoldable insert : String → List String → List String
insert s [] = s ∷ []
insert s (x ∷ xs) =
    let rest = insert s xs in elim (compare s x) [ Ordering.gt ↦ x ∷ rest | _ ↦ s ∷ x ∷ xs ]

unfoldable pub sort : List String → List String
unfolding insert
sort [] = []
sort (s ∷ rest) = insert s (sort rest)

-- `", ".join(f"{prefix}{n}" for n in names) or "(none)"`
unfoldable join : String → List String → String
join prefix [] = ""
join prefix (s ∷ rest) =
    let others = join prefix rest in
    elim rest [ [] ↦ prefix <> s | _ ↦ prefix <> (s <> (", " <> others)) ]

unfoldable pub listed : String → List String → String
unfolding sort join
listed prefix [] = "(none)"
listed prefix (s ∷ rest) = join prefix (sort (s ∷ rest))

-- _open_copy: the title, the body and the fix.
unfoldable pub open_copy : Fleet → String → String → String × String × String
unfolding listed
open_copy fleet fingerprint entity =
    let name = (partition entity).1 in
    let sites : List String =
      map (λ (x : Site). x.name)
        (filter (is_on (λ (t : Target). str_eq t.host name)) fleet.sites) in
    let hosts : List String =
      map (λ (t : Target). t.host)
        (filter (λ (t : Target). str_eq t.zone.slug name) fleet.targets) in
    if starts_with fingerprint "host-down:"
    then (
      "Host " <> (name <> " is down"),
      "Host " <> (name <> (" is unreachable. Suppressed: " <> (listed "site:" sites <> "."))),
      "Check the host: SSH, disk, and docker.",
    )
    else if starts_with fingerprint "zone-down:"
    then (
      "Zone " <> (name <> " is down"),
      "All targets in zone "
          <> (name <> (" are unreachable. Suppressed: " <> (listed "host:" hosts <> "."))),
      "Check zone connectivity before paging every host.",
    )
    else (
      "Site " <> (name <> " is down"),
      "Three consecutive probes failed for " <> (name <> "."),
      "Check docker ps on the target; restart the container.",
    )
