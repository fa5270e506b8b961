-- ===== src/Findings.antt =====
-- core/findings.py: the one attention queue. Filing is an upsert by (workspace, fingerprint), and
-- every creation and every change of state writes one audit entry and publishes one event.
-- `fields` holds the five that each engine passes; the wire shape is cut to what identifies the event.
pub mod Text
pub mod Consistency
pub mod Keeps
pub mod Lifecycle
pub mod Others
use deploy_hub.Prelude.{
  ℕ, suc, String, Bool, true, false, not, ◌&&◌, ◌||◌, Option, none, some, List, [], ◌∷◌, ◌++◌, ◌==◌,
  str_eq, if◌then◌else◌, first,
}
use deploy_hub.Prelude.Table.{find, update}
use Text.{is_blank, strip}

pub data Severity : Type 0 where
  p1 p2 p3 : Severity

pub data State : Type 0 where
  opened acked resolved accepted : State

pub record Finding : Type 0 where
  pub pk : ℕ
  pub workspace : ℕ
  pub source_engine : String
  pub severity : Severity
  pub entity : String
  pub title : String
  pub body : String
  pub fix_action : String
  pub state : State
  pub first_seen : ℕ
  pub last_seen : ℕ
  pub fingerprint : String
  pub accepted_reason : String

pub record Fields : Type 0 where
  pub severity : Severity
  pub entity : String
  pub title : String
  pub body : String
  pub fix_action : String

-- "finding_filed" and "filed", and so on.
pub data Action : Type 0 where
  filed reopened acknowledged settled risk_accepted : Action

-- An audit entry and an event, cut to the action, the row and its state.
pub record Note : Type 0 where
  pub action : Action
  pub id : ℕ
  pub state : State

pub record Inbox : Type 0 where
  pub rows : List Finding
  pub audits : List Note
  pub events : List Note
  pub next_pk : ℕ
  pub clock : ℕ

-- TypeError, ValueError
pub data Refusal : Type 0 where
  type_error value_error : Refusal

pub data Filing : Type 0 where
  row : Finding → Filing
  refused : Refusal → Filing

unfoldable pub is_key : ℕ → String → Finding → Bool
is_key workspace fingerprint r = (r.workspace == workspace) && str_eq r.fingerprint fingerprint

unfoldable pub by_key : ℕ → String → Inbox → Option Finding
by_key workspace fingerprint inbox = first (is_key workspace fingerprint) inbox.rows

-- _require_copy_values: each of title, body and fix_action holds something beside white space.
unfoldable pub has_copy : String → String → String → Bool
has_copy title body fix_action =
    not (is_blank title) && not (is_blank body) && not (is_blank fix_action)

-- audit(…), then _publish(…)
unfoldable pub announce : Action → Finding → Inbox → Inbox
announce action r inbox =
    let note : Note = record { action = action; id = r.pk; state = r.state } in
    record inbox { audits = inbox.audits ++ note ∷ []; events = inbox.events ++ note ∷ [] }

-- row.save(): all the fields of the row.
unfoldable pub save : Finding → Inbox → Inbox
save r inbox = record inbox { rows = update (λ (x : Finding). x.pk) r.pk (λ _. r) inbox.rows }

-- `now` was read before the SELECT.
unfoldable pub created : String → String → ℕ → Fields → ℕ → Inbox → Finding
created source_engine fingerprint workspace fields now inbox = record {
  pk = inbox.next_pk;
  workspace = workspace;
  source_engine = source_engine;
  severity = fields.severity;
  entity = fields.entity;
  title = fields.title;
  body = fields.body;
  fix_action = fields.fix_action;
  state = opened;
  first_seen = now;
  last_seen = now;
  fingerprint = fingerprint;
  accepted_reason = "";
}

abbrev pub is_resolved : State → Bool
is_resolved resolved = true
is_resolved _ = false

-- The row of a fingerprint that fires again.
unfoldable pub refreshed : String → Fields → ℕ → Finding → Finding
refreshed source_engine fields now r = record r {
  source_engine = source_engine;
  severity = fields.severity;
  entity = fields.entity;
  title = fields.title;
  body = fields.body;
  fix_action = fields.fix_action;
  last_seen = now;
  state = if is_resolved r.state then opened else r.state;
}

unfoldable pub refresh : String → Fields → Finding → Inbox → Filing × Inbox
refresh source_engine fields existing inbox =
    let r = refreshed source_engine fields inbox.clock existing in
    if not (has_copy r.title r.body r.fix_action)
    then (refused value_error, inbox)
    else if is_resolved existing.state
    then (row r, announce reopened r (save r inbox))
    else (row r, save r inbox)

unfoldable pub insert : Finding → Inbox → Filing × Inbox
insert r inbox = (
  row r,
  announce filed r (record inbox { rows = inbox.rows ++ r ∷ []; next_pk = suc inbox.next_pk }),
)

-- `race` is what other engines commit between the SELECT and the INSERT. When one of them has filed
-- the fingerprint, the INSERT conflicts and the call is made again, which then finds the row.
unfoldable pub finding :
    (Inbox → Inbox) → String → String → Option ℕ → Fields → Inbox → Filing × Inbox
finding race source_engine fingerprint none fields inbox = (refused type_error, inbox)
finding race source_engine fingerprint (some workspace) fields inbox =
    elim (by_key workspace fingerprint inbox) [
      | some existing ↦ refresh source_engine fields existing inbox
      | none ↦
          if not (has_copy fields.title fields.body fields.fix_action)
          then (refused value_error, inbox)
          else let later = race inbox in
            elim (by_key workspace fingerprint later) [
              | some existing ↦ refresh source_engine fields existing later
              | none ↦
                  insert (created source_engine fingerprint workspace fields inbox.clock later)
                    later
            ]
    ]

-- _ALLOWED
unfoldable pub allowed : State → State → Bool
allowed opened acked = true
allowed opened resolved = true
allowed opened accepted = true
allowed acked resolved = true
allowed acked accepted = true
allowed accepted resolved = true
allowed _ _ = false

-- _transition
unfoldable pub transition : Action → State → Finding → Inbox → Filing × Inbox
transition action to r inbox =
    if not (allowed r.state to)
    then (refused value_error, inbox)
    else let moved = record r { state = to } in
      (row moved, announce action moved (save moved inbox))

unfoldable pub ack : Finding → Inbox → Filing × Inbox
ack = transition acknowledged acked

unfoldable pub resolve : Finding → Inbox → Filing × Inbox
resolve = transition settled resolved

-- The reason is kept without the white space around it.
unfoldable pub accept_risk : Finding → String → Inbox → Filing × Inbox
accept_risk r reason inbox =
    if is_blank reason
    then (refused value_error, inbox)
    else transition risk_accepted accepted (record r { accepted_reason = strip reason }) inbox
