-- ===== src/Envelope.antt =====
-- core/task_envelope.py: a task's signed envelope, and the checks before a worker acts on it.
-- `dumps` is json.dumps of the body with sorted keys, `hmac` the hex digest under the hub's secret and
-- `reason_json` the detail of an audit row. The cache is Django's: Nonces says what is used of it. Times
-- are whole seconds, as int(time.time()) gives them; one call sees one time.
pub mod Replay
use Prim.Native.String.{◌++◌ as ◌<>◌}
use deploy_hub.Prelude.{
  ℕ, ◌+◌, ◌-◌, ◌<◌, ◌≤◌, String, ◌≡◌, Bool, true, false, not, ◌&&◌, ◌||◌, Option, none, some, List,
  [], ◌∷◌, ◌==◌, ltb, str_eq, if◌then◌else◌,
}
use deploy_hub.Audit.{Row, Trail, Call, Result, written, raised, audit, or_else, same_chain}

pub record Body : Type 0 where
  pub task : Option String
  pub workspace_id : Option ℕ
  pub resource_type : Option String
  pub resource_id : Option String
  pub producer : Option String
  pub issued_at : Option ℕ
  pub expires_at : Option ℕ
  pub nonce : Option String

pub record Envelope : Type 0 where
  pub body : Body
  pub sig : String

-- What the object to act on says: its workspace_id, and the key of workspace_of.
pub record Resource : Type 0 where
  pub workspace_id : Option ℕ
  pub workspace_of : Option ℕ

-- The arguments of reauthorize next to the envelope.
pub record Expected : Type 0 where
  pub resource : Option Resource
  pub task : Option String
  pub resource_id : Option String

pub data Reason : Type 0 where
  missing tampered expired replay task_mismatch resource_mismatch workspace_mismatch : Reason

-- `audit_failed`: what audit raises takes the place of the EnvelopeError.
pub data Outcome : Type 0 where
  returned : Body → Outcome
  refused : Reason → Outcome
  audit_failed : Outcome

-- The cache that holds the nonces: `add key timeout now` adds a key that is not held and says so; the key
-- is held for `timeout` seconds, whatever else is added: nothing is evicted before its time.
pub record Nonces : Type 1 where
  pub Cache : Type 0
  pub add : String → ℕ → ℕ → Cache → Bool × Cache
  pub held : ℕ → String → Cache → Bool
  pub add_held : (k : String) (t now : ℕ) (c : Cache) → (add k t now c).0 ≡ not (held now k c)
  pub held_kept :
      (k k' : String) (t now later : ℕ) (c : Cache)
      → held later k c ≡ true
      → held later k (add k' t now c).1 ≡ true
  pub held_until :
      (k : String) (t now later : ℕ) (c : Cache)
      → now ≤ later
      → held now k c ≡ false
      → held later k (add k t now c).1 ≡ ltb later (now + t)

pub record State (nonces : Nonces) : Type 0 where
  pub cache : nonces.Cache
  pub trail : Trail

unfoldable pub or_zero : Option ℕ → ℕ
or_zero none = 0
or_zero (some n) = n

unfoldable pub or_empty : Option String → String
or_empty none = ""
or_empty (some s) = s

-- The `reason` of the audit row.
unfoldable pub text_of : Reason → String
text_of missing = "envelope missing"
text_of tampered = "tampered envelope"
text_of expired = "expired envelope"
text_of replay = "replay"
text_of task_mismatch = "task mismatch"
text_of resource_mismatch = "resource mismatch"
text_of workspace_mismatch = "workspace mismatch"

unfoldable pub nonce_key : Option String → String
nonce_key none = "task-envelope-nonce:None"
nonce_key (some n) = "task-envelope-nonce:" <> n

unfoldable pub max : ℕ → ℕ → ℕ
max a b = if ltb a b then b else a

-- `task is not None and body.get("task") != task`
unfoldable pub task_differs : Option String → Option String → Bool
task_differs none got = false
task_differs (some t) none = true
task_differs (some t) (some got) = not (str_eq got t)

unfoldable pub resource_differs : Option String → Option String → Bool
unfolding or_empty
resource_differs none got = false
resource_differs (some r) got = not (str_eq (or_empty got) r)

unfoldable pub workspace_differs : Option Resource → Option ℕ → Bool
unfolding or_else same_chain
workspace_differs none claimed = false
workspace_differs (some r) claimed =
    not (same_chain (or_else r.workspace_id r.workspace_of) claimed)

unfoldable pub workspace_of : Option Resource → Option ℕ
workspace_of none = none
workspace_of (some r) = r.workspace_of

-- The `workspace` of the audit row.
unfoldable pub blamed : Reason → Option Resource → Option ℕ
unfolding workspace_of
blamed workspace_mismatch resource = workspace_of resource
blamed reason resource = none

-- The first of the checks after the nonce that fails.
unfoldable pub mismatch : Expected → Body → Option Reason
unfolding task_differs resource_differs workspace_differs
mismatch expected body =
    if task_differs expected.task body.task
    then some task_mismatch
    else if resource_differs expected.resource_id body.resource_id
    then some resource_mismatch
    else if workspace_differs expected.resource body.workspace_id
    then some workspace_mismatch
    else none

module _ (dumps : Body → String) (hmac : String → String) where
  unfoldable pub wrap : String → Option ℕ → String → String → String → ℕ → ℕ → String → Envelope
  wrap task workspace_id resource_type resource_id producer ttl issued nonce =
      let body : Body = record {
        task = some task;
        workspace_id = workspace_id;
        resource_type = some resource_type;
        resource_id = some resource_id;
        producer = some producer;
        issued_at = some issued;
        expires_at = some (issued + ttl);
        nonce = some nonce;
      } in
      record { body = body; sig = hmac (dumps body) }

  -- `none`: the argument is not a dict. `some reason`: an EnvelopeError.
  unfoldable pub verify : ℕ → Option Envelope → Option Reason
  unfolding or_zero
  verify now none = some missing
  verify now (some e) =
      if not (str_eq e.sig (hmac (dumps e.body)))
      then some tampered
      else if ltb (or_zero e.body.expires_at) now || ltb now (or_zero e.body.issued_at - 30)
      then some expired
      else none

  module _ (nonces : Nonces) (row_dumps : Row → String) (sha256 : String → String)
      (reason_json : String → String) where
    -- The audit row, and the exception after it. `fails` says which attempts of audit are refused.
    unfoldable pub reject : (ℕ → Bool) → Reason → Option ℕ → State nonces → Outcome × State nonces
    reject fails reason workspace s =
        let call : Call = record {
          action = "task_envelope_rejected";
          subject = none;
          actor = none;
          source = "celery";
          severity = "security";
          source_ip = none;
          workspace = workspace;
          scope = none;
          partner = none;
          detail = reason_json (text_of reason);
        } in
        let (result, trail) = audit row_dumps sha256 fails call s.trail in
        (
          elim result [ written e ↦ refused reason | raised e ↦ audit_failed ],
          record s { trail = trail },
        )

    -- From the nonce on, for a body that was verified.
    unfoldable pub admit : (ℕ → Bool) → Expected → ℕ → Body → State nonces → Outcome × State nonces
    unfolding max or_zero nonce_key blamed
    admit fails expected now body s =
        let ttl = max (or_zero body.expires_at - now) 1 in
        let (added, cache) = nonces.add (nonce_key body.nonce) ttl now s.cache in
        let s' = record s { cache = cache } in
        if not added then reject fails replay none s' else elim (mismatch expected body) [
          | none ↦ (returned body, s')
          | some reason ↦ reject fails reason (blamed reason expected.resource) s'
        ]

    unfoldable pub reauthorize :
        (ℕ → Bool) → Expected → ℕ → Option Envelope → State nonces → Outcome × State nonces
    reauthorize fails expected now none s = reject fails missing none s
    reauthorize fails expected now (some e) s = elim (verify now (some e)) [
      | some reason ↦ reject fails reason none s
      | none ↦ admit fails expected now e.body s
    ]
