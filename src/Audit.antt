-- ===== src/Audit.antt =====
-- core/audit.py: the audit trail as hash chains, one for each workspace and one for the system.
-- `dumps` is json.dumps of the canonical row and `sha256` the hex digest. `fails` says which of the
-- attempts the database refuses; a refused attempt is rolled back.
pub mod Chain
pub mod Evidence
pub mod Ship
use deploy_hub.Prelude.{
  ℕ, zero, suc, ◌+◌, String, Bool, true, false, not, ◌&&◌, ◌||◌, Option, none, some, List, [], ◌∷◌,
  ◌++◌, ◌==◌, str_eq, if◌then◌else◌, is_some,
}
use Prim.Native.String.{◌++◌ as ◌<>◌}

abbrev pub chain_version : ℕ
chain_version = 2

abbrev pub attempts : ℕ
attempts = 8

-- `none` is the chain of the system.
pub data Scope : Type 0 where
  system workspace : Scope

-- The fields that _canonical_row takes over; `detail` is its JSON text.
pub record Row : Type 0 where
  pub action : String
  pub actor_id : Option ℕ
  pub chain_version : ℕ
  pub detail : String
  pub object_id : String
  pub object_type : String
  pub partner_id : Option ℕ
  pub scope : Scope
  pub severity : String
  pub source : String
  pub source_ip : Option String
  pub ts : ℕ
  pub workspace_id : Option ℕ

pub record AuditEvent : Type 0 where
  pub pk : ℕ
  pub row : Row
  pub prev_hash : String
  pub shipped_at : Option ℕ

-- AuditChainHead; `last_event` is a primary key.
pub record Head : Type 0 where
  pub chain : Option ℕ
  pub last_hash : String
  pub last_event : Option ℕ

pub record Trail : Type 0 where
  pub events : List AuditEvent
  pub heads : List Head
  pub next_pk : ℕ
  pub clock : ℕ

-- What audit() asks of the object: its type's name, str(pk), workspace_of, whether it has an
-- owner_type, its `partner`, and its key if it is a Partner.
pub record Subject : Type 0 where
  pub type_name : String
  pub key : String
  pub workspace : Option ℕ
  pub has_owner_type : Bool
  pub partner : Option ℕ
  pub partner_key : Option ℕ

pub record Call : Type 0 where
  pub action : String
  pub subject : Option Subject
  pub actor : Option ℕ
  pub source : String
  pub severity : String
  pub source_ip : Option String
  pub workspace : Option ℕ
  pub scope : Option Scope
  pub partner : Option ℕ
  pub detail : String

pub data Error : Type 0 where
  workspace_required database : Error

pub data Result : Type 0 where
  written : AuditEvent → Result
  raised : Error → Result

unfoldable pub or_else {ℓ} : {A : Type ℓ} → Option A → Option A → Option A
or_else none b = b
or_else (some a) b = some a

unfoldable pub bind {ℓ κ} : {A : Type ℓ} {B : Type κ} → Option A → (A → Option B) → Option B
bind none f = none
bind (some a) f = f a

-- The default of `scope`.
unfoldable pub default_scope : Call → Scope
default_scope call = elim call.scope [
  | some scope ↦ scope
  | none ↦ if is_some call.workspace || is_some call.subject then workspace else system
]

-- The chain that the row goes to, _resolve_workspace included; `none` when the workspace is required.
unfoldable pub chain_of_call : Call → Option (Option ℕ)
unfolding default_scope or_else bind
chain_of_call call = elim (default_scope call) [
  | system ↦ some none
  | workspace ↦ elim (or_else call.workspace (bind call.subject (λ s. s.workspace))) [
    | some w ↦ some (some w)
    | none ↦ elim call.subject [
      | none ↦ none
      | some s ↦ if s.has_owner_type then some none else none
    ]
  ]
]

unfoldable pub partner_of : Call → Option ℕ
unfolding or_else bind
partner_of call =
    or_else call.partner
      (or_else (bind call.subject (λ s. s.partner)) (bind call.subject (λ s. s.partner_key)))

unfoldable pub same_chain : Option ℕ → Option ℕ → Bool
same_chain none none = true
same_chain (some a) (some b) = a == b
same_chain _ _ = false

unfoldable pub find_head : Option ℕ → List Head → Option Head
find_head c [] = none
find_head c (h ∷ heads) =
    let rest = find_head c heads in if same_chain h.chain c then some h else rest

-- get or create
unfoldable pub last_hash : Option ℕ → List Head → String
unfolding find_head
last_hash c heads = elim (find_head c heads) [ none ↦ "" | some h ↦ h.last_hash ]

unfoldable pub put_head : Head → List Head → List Head
put_head h [] = h ∷ []
put_head h (x ∷ heads) =
    let rest = put_head h heads in if same_chain x.chain h.chain then h ∷ heads else x ∷ rest

unfoldable pub row_of : Call → Option ℕ → ℕ → Row
unfolding partner_of bind
row_of call chain now = record {
  action = call.action;
  actor_id = call.actor;
  chain_version = chain_version;
  detail = call.detail;
  object_id = elim call.subject [ none ↦ "" | some s ↦ s.key ];
  object_type = elim call.subject [ none ↦ "" | some s ↦ s.type_name ];
  partner_id = partner_of call;
  scope = elim chain [ none ↦ system | some w ↦ workspace ];
  severity = call.severity;
  source = call.source;
  source_ip = call.source_ip;
  ts = now;
  workspace_id = chain;
}

module _ (dumps : Row → String) (sha256 : String → String) where
  unfoldable pub row_hash : AuditEvent → String
  row_hash e = sha256 (e.prev_hash <> dumps e.row)

  -- The loop of verify_chain after `prev`.
  unfoldable pub verify_from : Option AuditEvent → List AuditEvent → Bool
  verify_from prev [] = true
  verify_from none (e ∷ events) = str_eq e.prev_hash "" && verify_from (some e) events
  verify_from (some prev) (e ∷ events) =
      str_eq e.prev_hash (row_hash prev) && verify_from (some e) events

  unfoldable pub verify_chain : List AuditEvent → Bool
  verify_chain = verify_from none

  -- One attempt that the database takes.
  unfoldable pub append : Call → Option ℕ → Trail → Result × Trail
  append call chain trail =
      let event : AuditEvent = record {
        pk = trail.next_pk;
        row = row_of call chain trail.clock;
        prev_hash = last_hash chain trail.heads;
        shipped_at = none;
      } in
      let head : Head = record {
        chain = chain;
        last_hash = row_hash event;
        last_event = some event.pk;
      } in
      (
        written event,
        record trail {
          events = trail.events ++ event ∷ [];
          heads = put_head head trail.heads;
          next_pk = suc trail.next_pk;
        },
      )

  -- `for attempt in range(8)`, from the attempts that are left.
  unfoldable pub attempt : (ℕ → Bool) → Call → Option ℕ → ℕ → Trail → Result × Trail
  attempt fails call chain zero trail = (raised database, trail)
  attempt fails call chain (suc left) trail =
      let again = attempt fails call chain left trail in
      if fails left then again else append call chain trail

  unfoldable pub audit : (ℕ → Bool) → Call → Trail → Result × Trail
  audit fails call trail = elim (chain_of_call call) [
    | none ↦ (raised workspace_required, trail)
    | some chain ↦ attempt fails call chain attempts trail
  ]
