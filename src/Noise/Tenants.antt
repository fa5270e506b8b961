-- ===== src/Noise/Tenants.antt =====
-- Whose alerts suppress in monitor/antinoise.py.
use Prim.Native.String.{◌++◌ as ◌<>◌}
use deploy_hub.Prelude.{
  String, ◌≡◌, ap, ◌∙◌, Bool, false, ◌&&◌, ◌==◌, arith, str_eq, if◌then◌else◌, Option-cases, inl,
  inr,
}
use deploy_hub.Noise.Text.{partition}
use deploy_hub.Noise.State.{
  AlertState, Noise, alert, save_alert, is_open, is_alert, default_workspace,
}
use deploy_hub.Noise.Fleet.{Fleet, Target, site_named, target_at}
use deploy_hub.Noise.Delivery.{fingerprint_open, suppressed_by}
use deploy_hub.Noise.Alerts.{alert-save}

fingerprint_open-save :
    (fingerprint : String) (r : AlertState) (s : Noise)
    → (r.workspace == default_workspace) ≡ false
    → fingerprint_open fingerprint (save_alert r s) ≡ fingerprint_open fingerprint s
unfolding fingerprint_open is_alert
fingerprint_open-save fingerprint r s other = ap is_open (
    alert-save default_workspace fingerprint r s
    ∙ ap
        (λ (b : Bool).
          if b && str_eq r.fingerprint fingerprint
          then r
          else alert default_workspace fingerprint s)
        other)

-- A write to an alert of any workspace but the default one changes nothing of what suppresses an entity:
-- a host that is down in another workspace suppresses none of its sites.
pub suppressed_by-save :
    (fleet : Fleet) (entity : String) (r : AlertState) (s : Noise)
    → (r.workspace == default_workspace) ≡ false
    → suppressed_by fleet entity (save_alert r s) ≡ suppressed_by fleet entity s
unfolding suppressed_by
suppressed_by-save fleet entity r s other =
    let name = (partition entity).1 in
    let host_open = λ (t : Target). fingerprint_open-save ("host-down:" <> t.host) r s other in
    let zone_open = λ (t : Target). fingerprint_open-save ("zone-down:" <> t.zone.slug) r s other in
    elim (Option-cases (site_named fleet name)) [
      | inl e ↦ elim (Option-cases (target_at fleet name)) [
        | inl f ↦ ground (arith, e, f)
        | inr (t, f) ↦ ground (arith, e, f, zone_open t)
      ]
      | inr (site, e) ↦ elim (Option-cases site.primary_target) [
        | inl g ↦ elim (Option-cases (target_at fleet name)) [
          | inl f ↦ ground (arith, e, g, f)
          | inr (t, f) ↦ ground (arith, e, g, f, zone_open t)
        ]
        | inr (p, g) ↦ elim (Option-cases (target_at fleet name)) [
          | inl f ↦ ground (arith, e, g, f, host_open p, zone_open p)
          | inr (t, f) ↦ ground (arith, e, g, f, host_open p, zone_open p, zone_open t)
        ]
      ]
    ]
