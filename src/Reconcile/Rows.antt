-- ===== src/Reconcile/Rows.antt =====
-- The rows that the reconciler reads and writes: sites, instances and audit events of
-- core/models/fleet.py, and _audit_once of reconcile/loop.py.
use deploy_hub.Prelude.{
  ℕ, Bool, true, false, ◌&&◌, Option, none, some, List, [], ◌∷◌, ◌++◌, ◌==◌, ltb, if◌then◌else◌,
  any,
}
use deploy_hub.Prelude.Table.{find, update}
use deploy_hub.Locks.{OperationLock}

pub data DesiredState : Type 0 where
  running stopped absent : DesiredState

pub data ObservedState : Type 0 where
  running stopped absent unhealthy warming : ObservedState

-- What _reason_key of the reason is compared with: STALE_REASONS, UPSTREAM_REASONS,
-- LISTEN_PORT_UNKNOWN, or none of these.
pub data Reason : Type 0 where
  stale upstream_down listen_port_unknown other : Reason

pub data Action : Type 0 where
  start stop restart : Action

pub record Site : Type 0 where
  pub pk : ℕ
  pub reconcile_enabled : Bool
  pub maintenance_until : Option ℕ

pub record Instance : Type 0 where
  pub pk : ℕ
  pub site : ℕ
  pub target : ℕ
  pub desired_state : DesiredState
  pub observed_state : ObservedState
  pub observed_at : Option ℕ
  pub last_reconciled_at : Option ℕ
  pub consecutive_failures : ℕ

-- The state is none for a text that is not one of ObservedState.
pub record Observed : Type 0 where
  pub state : Option ObservedState
  pub reason : Reason

pub data AuditAction : Type 0 where
  globally_disabled disabled data_stale upstream_down backoff : AuditAction
  flap_pause repair rearmed tick_failed : AuditAction

-- (object_type, object_id)
pub data Object : Type 0 where
  nothing : Object
  site_row : ℕ → Object
  instance_row : ℕ → Object

pub record Event : Type 0 where
  pub ts : ℕ
  pub action : AuditAction
  pub about : Object
  pub op : Option Action

-- `collect_at` is that of a target; `outside` is what the hub does not keep.
pub record World (W : Type 0) : Type 0 where
  pub instances : List Instance
  pub locks : List OperationLock
  pub audits : List Event
  pub collect_at : ℕ → Option ℕ
  pub clock : ℕ
  pub outside : W

unfoldable pub action_eq : AuditAction → AuditAction → Bool
action_eq AuditAction.globally_disabled AuditAction.globally_disabled = true
action_eq AuditAction.disabled AuditAction.disabled = true
action_eq AuditAction.data_stale AuditAction.data_stale = true
action_eq AuditAction.upstream_down AuditAction.upstream_down = true
action_eq AuditAction.backoff AuditAction.backoff = true
action_eq AuditAction.flap_pause AuditAction.flap_pause = true
action_eq AuditAction.repair AuditAction.repair = true
action_eq AuditAction.rearmed AuditAction.rearmed = true
action_eq AuditAction.tick_failed AuditAction.tick_failed = true
action_eq _ _ = false

unfoldable pub object_eq : Object → Object → Bool
object_eq Object.nothing Object.nothing = true
object_eq (Object.site_row a) (Object.site_row b) = a == b
object_eq (Object.instance_row a) (Object.instance_row b) = a == b
object_eq _ _ = false

unfoldable pub is_about : AuditAction → Object → Event → Bool
is_about action about e = action_eq e.action action && object_eq e.about about

-- `.order_by("-ts").first()` of the events of one action on one object.
unfoldable pub last_of : AuditAction → Object → List Event → Option Event
last_of action about [] = none
last_of action about (e ∷ events) = elim (last_of action about events) [
  | some later ↦ some later
  | none ↦ if is_about action about e then some e else none
]

-- REARM_SCOPED_AUDITS
abbrev pub is_rearm_scoped : AuditAction → Bool
is_rearm_scoped AuditAction.flap_pause = true
is_rearm_scoped AuditAction.backoff = true
is_rearm_scoped _ = false

-- `ts > rearmed.ts`, where there was a re-arm.
unfoldable pub after : Option Event → Event → Bool
after none e = true
after (some last) e = ltb last.ts e.ts

abbrev pub find_row : ℕ → List Instance → Option Instance
find_row = find (λ (r : Instance). r.pk)

module _ {W : Type 0} where
  -- save(update_fields=…)
  unfoldable pub put : ℕ → (Instance → Instance) → World W → World W
  put k f w = record w { instances = update (λ (r : Instance). r.pk) k f w.instances }

  unfoldable pub audit : AuditAction → Object → Option Action → World W → World W
  audit action about op w = record w {
    audits = w.audits ++ record { ts = w.clock; action = action; about = about; op = op } ∷ [];
  }

  unfoldable pub audit_once : AuditAction → Object → World W → World W
  unfolding audit
  audit_once action about w =
      let last =
        if is_rearm_scoped action then last_of AuditAction.rearmed about w.audits else none in
      if any (λ (e : Event). is_about action about e && after last e) w.audits
      then w
      else audit action about none w
