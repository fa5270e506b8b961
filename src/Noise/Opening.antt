-- ===== src/Noise/Opening.antt =====
-- What follows in monitor/antinoise.py when an alert opens or closes leaves the counters of every
-- alert, its times and its transitions.
use deploy_hub.Prelude.{
  ℕ, String, ◌≡◌, refl, ◌∙◌, false, Option, none, some, arith, str_eq, if◌then◌else◌, first,
  Option-cases, Bool-cases, inl, inr,
}
use deploy_hub.Findings.{Finding, Inbox, is_resolved}
use deploy_hub.Noise.Text.{partition, flap_fp}
use deploy_hub.Noise.State.{alert, cycle_count}
use deploy_hub.Noise.Fleet.{Fleet, PartnerSite, open_copy}
use deploy_hub.Noise.Delivery.{unresolved}
use deploy_hub.Noise.Engine.{Alert, settle, raise_alert}
use deploy_hub.Noise.Observe.{
  flap_alert, flap_check, aggregate_alert, partner_down, file_partner_aggregate, open_kind,
  file_open, settle_closed,
}
use deploy_hub.Noise.Alerts.{core, is_storm}
use deploy_hub.Noise.Keeps.{Keeps, settle-Keeps, recovery_notice-Keeps, raise_alert-Keeps}

module _ (fleet : Fleet) (race : Inbox → Inbox) (w : ℕ) (f : String)
    (e : is_storm w f ≡ false) where
  flap_check-Keeps :
      (workspace : ℕ) (fingerprint : String) (now : ℕ)
      → Keeps w f e (flap_check fleet race workspace fingerprint now)
  unfolding flap_check
  flap_check-Keeps workspace fingerprint now s =
      let cycles = cycle_count (alert workspace fingerprint s) now in
      elim (Option-cases (unresolved workspace (flap_fp fingerprint) s)) [
        | inr (r, u) ↦ ground (arith, u)
        | inl u ↦ ground (
          arith,
          u,
          raise_alert-Keeps w f e fleet race (flap_alert workspace fingerprint cycles) s,
        )
      ]

  file_partner_aggregate-Keeps :
      (entity : String) → Keeps w f e (file_partner_aggregate fleet race entity)
  unfolding file_partner_aggregate
  file_partner_aggregate-Keeps entity s =
      let name = (partition entity).1 in
      elim (Option-cases
        (first (λ (b : PartnerSite). str_eq b.site.name name) fleet.partner_sites)) [
          | inl u ↦ ground (arith, u)
          | inr (b, u) ↦
              let a = aggregate_alert b.partner (partner_down fleet b.partner s) in
              elim (Option-cases (unresolved b.partner.workspace a.fingerprint s)) [
                | inr (r, v) ↦ ground (arith, u, v)
                | inl v ↦ ground (arith, u, v, raise_alert-Keeps w f e fleet race a s)
              ]
        ]

  pub file_open-Keeps :
      (workspace : ℕ) (fingerprint entity : String)
      → Keeps w f e (file_open fleet race workspace fingerprint entity)
  unfolding file_open
  file_open-Keeps workspace fingerprint entity s =
      let (title, body, fix_action) = open_copy fleet fingerprint entity in
      let a : Alert = record {
        kind = open_kind fleet fingerprint entity;
        entity = entity;
        fingerprint = fingerprint;
        workspace = workspace;
        title = title;
        body = body;
        fix_action = fix_action;
      } in
      ground (
        arith,
        raise_alert-Keeps w f e fleet race a s,
        file_partner_aggregate-Keeps entity (raise_alert fleet race a s),
      )

  pub settle_closed-Keeps :
      (workspace : ℕ) (fingerprint : String) (now : ℕ) (found : Option Finding)
      → Keeps w f e (settle_closed fleet race workspace fingerprint now found)
  unfolding settle_closed
  settle_closed-Keeps workspace fingerprint now none s =
      flap_check-Keeps workspace fingerprint now s
  settle_closed-Keeps workspace fingerprint now (some r) s =
      let (settled, s') = if is_resolved r.state then (r, s) else settle r s in
      let kept : core (alert w f s') ≡ core (alert w f s) =
        elim (Bool-cases (is_resolved r.state)) [
          | inl h ↦ rw (h) refl
          | inr h ↦ rw (h) (settle-Keeps w f e r s)
        ] in
      recovery_notice-Keeps w f e (raise_alert fleet race) (raise_alert-Keeps w f e fleet race) now
        settled (flap_check fleet race workspace fingerprint now s')
      ∙ (flap_check-Keeps workspace fingerprint now s' ∙ kept)
