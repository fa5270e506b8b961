-- ===== src/Roles/Table.antt =====
-- The tables of core/rbac.py: the capabilities of a role, and the capability that an action needs.
use deploy_hub.Prelude.{
  ℕ, String, Bool, Option, none, some, List, [], ◌∷◌, ◌==◌, str_eq, first, any,
}

pub data Role : Type 0 where
  viewer auditor operator deployer admin owner : Role

pub data Capability : Type 0 where
  hud_ui_v1 admin_read audit_export deployment_cancel deployment_rollback deployment_retry
        findings_manage :
      Capability
  config_write deployment_request secrets_manage members_manage deployment_approve_prod
        findings_accept_risk lifecycle_destroy :
      Capability

unfoldable pub role_capabilities : Role → List Capability
role_capabilities viewer = hud_ui_v1 ∷ admin_read ∷ []
role_capabilities auditor = hud_ui_v1 ∷ admin_read ∷ audit_export ∷ []
role_capabilities operator =
    hud_ui_v1 ∷ admin_read ∷ deployment_cancel ∷ deployment_rollback ∷ deployment_retry
    ∷ findings_manage ∷ []
role_capabilities deployer =
    hud_ui_v1 ∷ admin_read ∷ config_write ∷ deployment_request ∷ deployment_cancel
    ∷ deployment_rollback ∷ deployment_retry ∷ findings_manage ∷ []
role_capabilities admin =
    hud_ui_v1 ∷ admin_read ∷ audit_export ∷ config_write ∷ secrets_manage ∷ members_manage
    ∷ deployment_request ∷ deployment_approve_prod ∷ deployment_cancel ∷ deployment_rollback
    ∷ deployment_retry ∷ findings_manage ∷ findings_accept_risk ∷ []
role_capabilities owner =
    hud_ui_v1 ∷ admin_read ∷ audit_export ∷ config_write ∷ deployment_request
    ∷ deployment_approve_prod ∷ deployment_cancel ∷ deployment_rollback ∷ deployment_retry
    ∷ secrets_manage ∷ members_manage ∷ lifecycle_destroy ∷ findings_manage ∷ findings_accept_risk
    ∷ []

abbrev number : Capability → ℕ
number hud_ui_v1 = 0
number admin_read = 1
number audit_export = 2
number deployment_cancel = 3
number deployment_rollback = 4
number deployment_retry = 5
number findings_manage = 6
number config_write = 7
number deployment_request = 8
number secrets_manage = 9
number members_manage = 10
number deployment_approve_prod = 11
number findings_accept_risk = 12
number lifecycle_destroy = 13

unfoldable pub same : Capability → Capability → Bool
same a b = number a == number b

unfoldable pub has : Capability → List Capability → Bool
unfolding same
has c caps = any (same c) caps

-- ACTION_CAPABILITY
unfoldable pub action_capability : List (String × Capability)
action_capability =
    ("target.create", config_write)
    ∷ ("target.probe", config_write)
    ∷ ("target.delete", lifecycle_destroy)
    ∷ ("target.router_probe", config_write)
    ∷ ("instance.create", config_write)
    ∷ ("instance.terminate", lifecycle_destroy)
    ∷ ("ssh.rotate", secrets_manage)
    ∷ ("partner.create", config_write)
    ∷ ("partner.suspend", members_manage)
    ∷ ("partner.site_takedown", deployment_request)
    ∷ ("partner.destination_rank", config_write)
    ∷ ("site.create", config_write)
    ∷ ("site.deploy", deployment_request)
    ∷ ("site.env", config_write)
    ∷ ("site.rollback", deployment_rollback)
    ∷ ("site.adopt", config_write)
    ∷ ("site.preview_create", deployment_request)
    ∷ ("site.overflow_deploy", deployment_request)
    ∷ ("site.overflow_join", deployment_request)
    ∷ ("site.overflow_scale_in", deployment_request)
    ∷ ("site.backup_restore", lifecycle_destroy)
    ∷ ("site.backup_test", config_write)
    ∷ ("site.edge_owner", config_write)
    ∷ ("project.scan", config_write)
    ∷ ("project.create", config_write)
    ∷ ("wizard.answers", config_write)
    ∷ ("wizard.materialize", deployment_request)
    ∷ ("integration.verify", config_write)
    ∷ ("aws.verify", config_write)
    ∷ ("cloudflare.verify", config_write)
    ∷ ("dns.verify", config_write)
    ∷ ("dns.origin_ca_plant", secrets_manage)
    ∷ ("dns.cloudflare_connect", secrets_manage)
    ∷ ("deployment.cancel", deployment_cancel)
    ∷ ("deployment.abort", deployment_cancel)
    ∷ ("deployment.retry", deployment_retry)
    ∷ ("deployment.rollback", deployment_rollback)
    ∷ ("finding.ack", findings_manage)
    ∷ ("finding.resolve", findings_manage)
    ∷ ("finding.transition", findings_manage)
    ∷ ("finding.accept_risk", findings_accept_risk)
    ∷ ("secret.create", secrets_manage)
    ∷ ("member.invite", members_manage)
    ∷ []

unfoldable pub capability_of : String → Option Capability
unfolding action_capability
capability_of action =
    elim (first (λ (p : String × Capability). str_eq p.0 action) action_capability) [
      | none ↦ none
      | some (name, c) ↦ some c
    ]
