-- ===== src/Audit/Ship.antt =====
-- core/audit_ship.py: the audit trail copied to an append-only store, and its check there.
-- `up` says which keys the store can be reached for: the source's `down` is one that holds for none.
-- A key is the event's; `row` is the canonical text, which json.dumps writes again as it was. The
-- database takes the mark of each event that was put.
mod Marks
pub mod Mirror
pub mod Verified
use deploy_hub.Prelude.{
  ℕ, suc, String, Bool, true, false, not, ◌&&◌, ◌||◌, Option, none, some, List, [], ◌∷◌, ◌++◌, ◌==◌,
  str_eq, if◌then◌else◌, is_some, filter, first, length,
}
use Prim.Native.String.{◌++◌ as ◌<>◌}
use deploy_hub.Prelude.Table.{update}
use deploy_hub.Findings.Text.{is_blank}
use deploy_hub.Audit.{AuditEvent, Row, Trail, row_hash}

pub record Body : Type 0 where
  pub chain_hash : String
  pub pk : ℕ
  pub prev_hash : String
  pub row : String

pub record Object : Type 0 where
  pub key : ℕ
  pub body : Body

pub record Store : Type 0 where
  pub objects : List Object
  pub object_lock : Bool
  pub versioning : Bool

unfoldable pub same_body : Body → Body → Bool
same_body a b =
    str_eq a.chain_hash b.chain_hash
    && a.pk == b.pk
    && str_eq a.prev_hash b.prev_hash
    && str_eq a.row b.row

-- FakeAuditStore.put; `none`: an AuditShipError.
unfoldable pub put : (ℕ → Bool) → ℕ → Body → Store → Option Store
put up key body store =
    if not (up key)
    then none
    else if not store.object_lock || not store.versioning
    then none
    else elim (first (λ (o : Object). o.key == key) store.objects) [
      | some existing ↦ if same_body existing.body body then some store else none
      | none ↦
          some (record store { objects = store.objects ++ record { key = key; body = body } ∷ [] })
    ]

-- The return value of ship: absent bucket; no store; a put that failed, with n and pending; all put.
pub data Report : Type 0 where
  skipped no_store : Report
  failed : ℕ → ℕ → Report
  shipped : ℕ → Report

abbrev pub is_shipped : AuditEvent → Bool
is_shipped e = is_some e.shipped_at

abbrev pub pending : List AuditEvent → List AuditEvent
pending = filter (λ e. not (is_shipped e))

unfoldable pub mark : ℕ → Trail → Trail
mark k trail = record trail {
  events =
      update (λ (e : AuditEvent). e.pk) k (λ e. record e { shipped_at = some trail.clock })
        trail.events;
}

module _ (dumps : Row → String) (sha256 : String → String) where
  -- _payload
  unfoldable pub payload : AuditEvent → Body
  payload e = record {
    chain_hash = row_hash dumps sha256 e;
    pk = e.pk;
    prev_hash = e.prev_hash;
    row = dumps e.row;
  }

  unfoldable pub ship_each :
      (ℕ → Bool) → List AuditEvent → ℕ → Trail → Store → Report × Trail × Store
  ship_each up [] n trail store = (shipped n, trail, store)
  ship_each up (e ∷ events) n trail store = elim (put up e.pk (payload e) store) [
    | none ↦ (failed n (length (pending trail.events)), trail, store)
    | some store' ↦ ship_each up events (suc n) (mark e.pk trail) store'
  ]

  unfoldable pub ship : (ℕ → Bool) → String → Trail → Store → Report × Trail × Store
  ship up bucket trail store =
      if is_blank bucket
      then (skipped, trail, store)
      else if not (store.object_lock && store.versioning)
      then (no_store, trail, store)
      else ship_each up (pending trail.events) 0 trail store

  -- The loop of verify_shipped after `prev_hash`.
  unfoldable pub verify_objects : String → List Object → Bool
  verify_objects prev [] = true
  verify_objects prev (o ∷ objects) =
      str_eq o.body.prev_hash prev
      && str_eq o.body.chain_hash (sha256 (o.body.prev_hash <> o.body.row))
      && verify_objects o.body.chain_hash objects

  -- `none`: an AuditShipError.
  unfoldable pub verify_shipped : Store → Option ℕ
  verify_shipped store =
      if not store.object_lock
      then none
      else if verify_objects "" store.objects
      then some (length store.objects)
      else none
