-- ===== src/Locks/Table.antt =====
-- The uniqueness of lock rows, and that every operation keeps it.
use deploy_hub.Prelude.{
  ℕ, ◌≡◌, refl, Bool, false, Option, List, [], ◌∷◌, ◌++◌, arith, Bool-cases, filter, any, inl, inr,
}
use deploy_hub.Locks.{
  Key, Ident, OperationLock, key_eq, key_eq_iff, at_key, acquire, release, heartbeat,
}

-- No two rows have one triple: the database's unique constraint.
abbrev pub IsUnique : List OperationLock → Type 0
IsUnique [] = Unit
IsUnique (r ∷ rs) = (any (at_key r.key) rs ≡ false) × IsUnique rs

any-append_one :
    (k : Key) (rs : List OperationLock) (r : OperationLock)
    → any (at_key k) rs ≡ false
    → key_eq r.key k ≡ false
    → any (at_key k) (rs ++ r ∷ []) ≡ false
unfolding at_key
any-append_one k [] r h e = ground arith
any-append_one k (s ∷ rs) r h e = ground (arith, any-append_one k rs r)

append-IsUnique :
    (rs : List OperationLock) (r : OperationLock)
    → any (at_key r.key) rs ≡ false
    → IsUnique rs
    → IsUnique (rs ++ r ∷ [])
unfolding at_key
append-IsUnique [] r h u = ground arith
append-IsUnique (s ∷ rs) r h u = ground (
  arith,
  any-append_one s.key rs r,
  append-IsUnique rs r,
  key_eq_iff s.key r.key,
  key_eq_iff r.key s.key,
)

-- An acquisition, granted or refused, keeps unique rows unique.
pub acquire-IsUnique :
    (now : ℕ) (k : Key) (h : Ident) (t : List OperationLock)
    → IsUnique t
    → IsUnique (acquire now k h t).0
unfolding acquire
acquire-IsUnique now k h t u = elim (Bool-cases (any (at_key k) t)) [
  | inl e ↦ rw e u
  | inr e ↦ rw e (append-IsUnique t _ e u)
]

pub any-filter :
    (p q : OperationLock → Bool) (t : List OperationLock)
    → any p t ≡ false
    → any p (filter q t) ≡ false
any-filter p q [] h = refl
any-filter p q (r ∷ t) h = ground (arith, any-filter p q t)

pub filter-IsUnique :
    (q : OperationLock → Bool) (t : List OperationLock) → IsUnique t → IsUnique (filter q t)
filter-IsUnique q [] u = tt
filter-IsUnique q (r ∷ t) u = ground (arith, any-filter (at_key r.key) q t, filter-IsUnique q t)

-- A release keeps the rows unique.
pub release-IsUnique :
    (k : Key) (h : Option Ident) (t : List OperationLock) → IsUnique t → IsUnique (release k h t).0
unfolding release
release-IsUnique k h t u = filter-IsUnique _ t u

any-heartbeat :
    (now : ℕ) (j k : Key) (h : Option Ident) (t : List OperationLock)
    → any (at_key j) (heartbeat now k h t).0 ≡ any (at_key j) t
unfolding heartbeat at_key
any-heartbeat now j k h [] = refl
any-heartbeat now j k h (r ∷ t) = ground (arith, any-heartbeat now j k h t)

-- A heartbeat keeps the rows unique.
pub heartbeat-IsUnique :
    (now : ℕ) (k : Key) (h : Option Ident) (t : List OperationLock)
    → IsUnique t
    → IsUnique (heartbeat now k h t).0
unfolding heartbeat
heartbeat-IsUnique now k h [] u = tt
heartbeat-IsUnique now k h (r ∷ t) u =
    ground (arith, any-heartbeat now r.key k h t, heartbeat-IsUnique now k h t)
