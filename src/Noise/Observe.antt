-- ===== src/Noise/Observe.antt =====
-- monitor/antinoise.py: observe, what it files when an alert opens, and what follows when one closes.
use Prim.Native.String.{◌++◌ as ◌<>◌}
use deploy_hub.Prelude.{
  ℕ, suc, String, Bool, true, false, not, ◌&&◌, ◌||◌, Option, none, some, ltb, leb, str_eq, ◌==◌,
  if◌then◌else◌, is_some, length, filter, first,
}
use deploy_hub.Findings.{Finding, Inbox, by_key, is_resolved}
use deploy_hub.Noise.Text.{partition, starts_with, entity_of, flap_fp, decimal}
use deploy_hub.Noise.State.{
  AlertState, Noise, alert, save_alert, is_open, note_transition, opening, closing, cycle_count,
  open_after, close_after, flap_cycles,
}
use deploy_hub.Noise.Fleet.{
  Fleet, Partner, PartnerSite, prod_site_hard_down, partner_site_hard_down, partner_aggregate_down,
  flapping, Kind, site_down_kind, host_is_partner_tier, open_copy,
}
use deploy_hub.Noise.Delivery.{fingerprint_open, suppressed_by, unresolved, flap_holds}
use deploy_hub.Noise.Engine.{Alert, settle, recovery_notice, maybe_resolve_flap, raise_alert}

-- The partner sites of _maybe_file_partner_aggregate that are down.
unfoldable pub partner_down : Fleet → Partner → Noise → ℕ
partner_down fleet partner s = length (
    filter
      (λ (b : PartnerSite).
        b.partner.pk == partner.pk && fingerprint_open ("site-down:" <> b.site.name) s)
      fleet.partner_sites)

unfoldable pub aggregate_alert : Partner → ℕ → Alert
aggregate_alert partner down = record {
  kind = partner_aggregate_down;
  entity = "partner:" <> decimal partner.pk;
  fingerprint = "partner-aggregate-down:" <> decimal partner.pk;
  workspace = partner.workspace;
  title = "Partner " <> (partner.slug <> " aggregate down");
  body = decimal down <> " partner sites are down.";
  fix_action = "Check the partner-tier destination host before paging each site.";
}

unfoldable pub flap_alert : ℕ → String → ℕ → Alert
flap_alert workspace fingerprint cycles = record {
  kind = flapping;
  entity = entity_of fingerprint;
  fingerprint = flap_fp fingerprint;
  workspace = workspace;
  title = "FLAPPING";
  body =
      entity_of fingerprint
      <> (" opened and closed "
          <> (decimal cycles
              <> " times in 30 minutes. Individual transitions are suppressed until 30 minutes stable."));
  fix_action = "Find the oscillating cause; do not chase each flap.";
}

-- The kind under which _file_open files.
unfoldable pub open_kind : Fleet → String → String → Kind
open_kind fleet fingerprint entity =
    if starts_with fingerprint "host-down:"
    then (if host_is_partner_tier fleet (partition entity).1
        then partner_aggregate_down
        else prod_site_hard_down)
    else if starts_with fingerprint "zone-down:"
    then prod_site_hard_down
    else site_down_kind fleet entity

abbrev is_partner_kind : Kind → Bool
is_partner_kind partner_site_hard_down = true
is_partner_kind _ = false

module _ (fleet : Fleet) (race : Inbox → Inbox) where
  unfoldable pub flap_check : ℕ → String → ℕ → Noise → Noise
  flap_check workspace fingerprint now s =
      let cycles = cycle_count (alert workspace fingerprint s) now in
      if ltb cycles flap_cycles then s else elim (unresolved workspace (flap_fp fingerprint) s) [
        | some r ↦ s
        | none ↦ raise_alert fleet race (flap_alert workspace fingerprint cycles) s
      ]

  -- _maybe_file_partner_aggregate
  unfoldable pub file_partner_aggregate : String → Noise → Noise
  file_partner_aggregate entity s =
      let (kind, name) = partition entity in
      if not (str_eq kind "site")
      then s
      else elim (first (λ (b : PartnerSite). str_eq b.site.name name) fleet.partner_sites) [
        | none ↦ s
        | some b ↦
            let a = aggregate_alert b.partner (partner_down fleet b.partner s) in
            if ltb (partner_down fleet b.partner s) 2
            then s
            else elim (unresolved b.partner.workspace a.fingerprint s) [
              | some r ↦ s
              | none ↦ raise_alert fleet race a s
            ]
      ]

  -- _file_open
  unfoldable pub file_open : ℕ → String → String → Noise → Noise
  file_open workspace fingerprint entity s =
      let (title, body, fix_action) = open_copy fleet fingerprint entity in
      let kind = open_kind fleet fingerprint entity in
      let s' =
        raise_alert fleet race
          (record {
            kind = kind;
            entity = entity;
            fingerprint = fingerprint;
            workspace = workspace;
            title = title;
            body = body;
            fix_action = fix_action;
          })
          s in
      if is_partner_kind kind then file_partner_aggregate entity s' else s'

  -- Whether _open leaves the alert shut.
  unfoldable pub is_held : ℕ → String → ℕ → Noise → Bool
  is_held workspace fingerprint now s =
      flap_holds workspace fingerprint now s
      || is_some (suppressed_by fleet (entity_of fingerprint) s)

  -- _open
  unfoldable pub open_alert : AlertState → ℕ → String → ℕ → Noise → Noise
  open_alert state workspace fingerprint now s =
      if is_held workspace fingerprint now s
      then s
      else file_open workspace fingerprint (entity_of fingerprint) (
          save_alert
            (note_transition opening now (record state { opened_at = some now; closed_at = none }))
            s)

  -- The row of a closed alert is resolved, the flaps are counted, and its recovery is told.
  unfoldable pub settle_closed : ℕ → String → ℕ → Option Finding → Noise → Noise
  settle_closed workspace fingerprint now none s = flap_check workspace fingerprint now s
  settle_closed workspace fingerprint now (some r) s =
      let (settled, s') = if is_resolved r.state then (r, s) else settle r s in
      recovery_notice (raise_alert fleet race) now settled (flap_check workspace fingerprint now s')

  -- _close
  unfoldable pub close_alert : AlertState → ℕ → String → ℕ → Noise → Noise
  close_alert state workspace fingerprint now s =
      settle_closed workspace fingerprint now (by_key workspace fingerprint s.inbox)
        (save_alert (note_transition closing now (record state { closed_at = some now })) s)

  -- observe, once a flap that is over is resolved.
  unfoldable pub count_probe : String → Bool → ℕ → ℕ → Noise → Noise
  count_probe fingerprint ok workspace now s =
      let old = alert workspace fingerprint s in
      let better = record old { consecutive_ok = suc old.consecutive_ok; consecutive_fail = 0 } in
      let worse = record old { consecutive_fail = suc old.consecutive_fail; consecutive_ok = 0 } in
      if ok
      then (if is_open better && leb close_after better.consecutive_ok
          then close_alert better workspace fingerprint now (save_alert better s)
          else save_alert better s)
      else (if leb open_after worse.consecutive_fail && not (is_open worse)
          then open_alert worse workspace fingerprint now (save_alert worse s)
          else save_alert worse s)

  unfoldable pub observe : String → Bool → ℕ → ℕ → Noise → Noise
  observe fingerprint ok workspace now s =
      count_probe fingerprint ok workspace now
        (maybe_resolve_flap (raise_alert fleet race) workspace fingerprint now s)
