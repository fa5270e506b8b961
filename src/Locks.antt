-- ===== src/Locks.antt =====
-- core/locks.py over the OperationLock table of core/models/fleet.py.
-- A lock row is named by its unique triple (scope, object_id, kind). Texts made by `str(pk)` and by
-- f"reconcile:{pk}" are told apart by the constructors of `Ident`, since neither is ever parsed back.
pub mod Table
pub mod Map
pub mod Cycle
use deploy_hub.Prelude.{
  ℕ, String, ◌≡◌, ◌↔◌, Bool, true, false, not, ◌&&◌, Option, none, some, List, [], ◌∷◌, ◌++◌, arith,
  ltb, ◌==◌, str_eq, str_eq_iff, ==_iff, if◌then◌else◌, filter, any,
}

pub data Scope : Type 0 where
  site target : Scope

pub data Kind : Type 0 where
  deploy provision reconcile collect : Kind

pub data Ident : Type 0 where
  pk : ℕ → Ident
  text : String → Ident
  reconciler : ℕ → Ident

unfoldable pub scope_eq : Scope → Scope → Bool
scope_eq site site = true
scope_eq target target = true
scope_eq _ _ = false

unfoldable pub kind_eq : Kind → Kind → Bool
kind_eq deploy deploy = true
kind_eq provision provision = true
kind_eq reconcile reconcile = true
kind_eq collect collect = true
kind_eq _ _ = false

unfoldable pub ident_eq : Ident → Ident → Bool
ident_eq (pk a) (pk b) = a == b
ident_eq (text a) (text b) = str_eq a b
ident_eq (reconciler a) (reconciler b) = a == b
ident_eq _ _ = false

-- The unique constraint of OperationLock: (scope, object_id, kind).
pub record Key : Type 0 where
  pub scope : Scope
  pub object_id : Ident
  pub kind : Kind

unfoldable pub key_eq : Key → Key → Bool
key_eq a b = scope_eq a.scope b.scope && ident_eq a.object_id b.object_id && kind_eq a.kind b.kind

pub record OperationLock : Type 0 where
  pub key : Key
  pub holder : Ident
  pub acquired_at : ℕ
  pub heartbeat_at : ℕ

-- `.filter(scope=…, object_id=…, kind=…)`
unfoldable pub at_key : Key → OperationLock → Bool
at_key k row = key_eq row.key k

-- The same narrowed by `holder`, when one is given.
unfoldable pub matches : Key → Option Ident → OperationLock → Bool
unfolding at_key
matches k none row = at_key k row
matches k (some h) row = at_key k row && ident_eq row.holder h

-- The INSERT conflicts exactly when a row has the triple: then the result is None.
unfoldable pub acquire :
    ℕ → Key → Ident → List OperationLock → List OperationLock × Option OperationLock
acquire now k h table =
    if any (at_key k) table
    then (table, none)
    else let row : OperationLock = record {
      key = k;
      holder = h;
      acquired_at = now;
      heartbeat_at = now;
    } in
      (table ++ row ∷ [], some row)

-- The Boolean says whether a row was deleted.
unfoldable pub release : Key → Option Ident → List OperationLock → List OperationLock × Bool
release k h table = (filter (λ r. not (matches k h r)) table, any (matches k h) table)

stamp : ℕ → OperationLock → OperationLock
stamp now row = record row { heartbeat_at = now }

unfoldable pub heartbeat : ℕ → Key → Option Ident → List OperationLock → List OperationLock × Bool
unfolding stamp
heartbeat now k h [] = ([], false)
heartbeat now k h (r ∷ rs) =
    let (rest, hit) = heartbeat now k h rs in
    if matches k h r then (stamp now r ∷ rest, true) else (r ∷ rest, hit)

pub scope_eq_iff : (a b : Scope) → (scope_eq a b ≡ true) ↔ (a ≡ b)
unfolding scope_eq
scope_eq_iff a b = ground arith

pub kind_eq_iff : (a b : Kind) → (kind_eq a b ≡ true) ↔ (a ≡ b)
unfolding kind_eq
kind_eq_iff a b = ground arith

pub ident_eq_iff : (a b : Ident) → (ident_eq a b ≡ true) ↔ (a ≡ b)
unfolding ident_eq
ident_eq_iff (pk a) (pk b) = ground arith
ident_eq_iff (text a) (text b) = ground (arith, str_eq_iff a b)
ident_eq_iff (reconciler a) (reconciler b) = ground arith
ident_eq_iff _ _ = ground arith

-- Keys compare equal exactly when they are.
pub key_eq_iff : (a b : Key) → (key_eq a b ≡ true) ↔ (a ≡ b)
unfolding key_eq
key_eq_iff a b = ground (
  arith,
  scope_eq_iff a.scope b.scope,
  ident_eq_iff a.object_id b.object_id,
  kind_eq_iff a.kind b.kind,
)
