-- ===== src/Locks/Map.antt =====
-- The lock table as what it promises: a partial map from keys to holders.
use deploy_hub.Prelude.{
  ℕ, ◌≡◌, refl, Bool, true, false, not, Option, none, some, List, [], ◌∷◌, ◌++◌, arith, Bool-cases,
  if◌then◌else◌, filter, any, inl, inr, is_some, Option-cases,
}
use deploy_hub.Locks.{
  Key, Ident, OperationLock, key_eq, key_eq_iff, ident_eq, ident_eq_iff, at_key, matches, acquire,
  release, heartbeat,
}
use deploy_hub.Locks.Table.{IsUnique, acquire-IsUnique}

unfoldable pub holder_of : List OperationLock → Key → Option Ident
holder_of [] k = none
holder_of (r ∷ rs) k = let rest = holder_of rs k in if at_key k r then some r.holder else rest

abbrev pub LockMap : Type 0
LockMap = Key → Option Ident

-- A free key goes to the caller; a taken one stays.
abbrev pub take_free : LockMap → Key → Ident → LockMap
take_free m k h j = if key_eq k j then elim (m k) [ none ↦ some h | some x ↦ some x ] else m j

-- The key is freed if the caller holds it.
abbrev pub free_own : LockMap → Key → Ident → LockMap
free_own m k h j =
    if key_eq k j
    then elim (m k) [ none ↦ none | some x ↦ (if ident_eq x h then none else some x) ]
    else m j

pub holder_of-none :
    (t : List OperationLock) (k : Key) → any (at_key k) t ≡ false → holder_of t k ≡ none
unfolding holder_of
holder_of-none [] k e = refl
holder_of-none (r ∷ t) k e = ground (arith, holder_of-none t k)

pub any-holder_of : (t : List OperationLock) (k : Key) → any (at_key k) t ≡ is_some (holder_of t k)
unfolding holder_of
any-holder_of [] k = refl
any-holder_of (r ∷ t) k = ground (arith, any-holder_of t k)

pub holder_of-append_one :
    (t : List OperationLock) (r : OperationLock) (j : Key)
    → any (at_key r.key) t ≡ false
    → holder_of (t ++ r ∷ []) j ≡ (if key_eq r.key j then some r.holder else holder_of t j)
unfolding holder_of at_key
holder_of-append_one [] r j e = ground arith
holder_of-append_one (s ∷ t) r j e = ground (
  arith,
  holder_of-append_one t r j,
  key_eq_iff s.key r.key,
  key_eq_iff s.key j,
  key_eq_iff r.key j,
)

-- `acquire` does to the map what `take_free` says, and returns a row exactly when the key was free.
pub acquire-take_free :
    (now : ℕ) (k j : Key) (h : Ident) (t : List OperationLock)
    → (holder_of (acquire now k h t).0 j ≡ take_free (holder_of t) k h j)
      × (is_some (acquire now k h t).1 ≡ not (is_some (holder_of t k)))
unfolding acquire
acquire-take_free now k j h t = elim (Bool-cases (any (at_key k) t)) [
  | inl e ↦ ground (arith, any-holder_of t k, key_eq_iff k j)
  | inr e ↦ ground (
    arith,
    any-holder_of t k,
    holder_of-append_one t (record { key = k; holder = h; acquired_at = now; heartbeat_at = now })
        j,
  )
]

holder_of-filter_absent :
    (q : OperationLock → Bool) (t : List OperationLock) (j : Key)
    → any (at_key j) t ≡ false
    → holder_of (filter q t) j ≡ none
unfolding holder_of
holder_of-filter_absent q [] j e = refl
holder_of-filter_absent q (r ∷ t) j e = ground (arith, holder_of-filter_absent q t j)

-- With unique rows `release` does to the map what `free_own` says.
pub release-free_own :
    (k j : Key) (h : Ident) (t : List OperationLock)
    → IsUnique t
    → holder_of (release k (some h) t).0 j ≡ free_own (holder_of t) k h j
unfolding release holder_of matches
release-free_own k j h [] u = ground arith
release-free_own k j h (r ∷ t) u = ground (
  arith,
  release-free_own k j h t,
  key_eq_iff r.key j,
  key_eq_iff r.key k,
  key_eq_iff k j,
  holder_of-filter_absent (λ x. not (matches k (some h) x)) t j,
  holder_of-none t j,
)

-- A heartbeat leaves the map as it is.
pub holder_of-heartbeat :
    (now : ℕ) (k j : Key) (h : Option Ident) (t : List OperationLock)
    → holder_of (heartbeat now k h t).0 j ≡ holder_of t j
unfolding heartbeat holder_of at_key
holder_of-heartbeat now k j h [] = refl
holder_of-heartbeat now k j h (r ∷ t) = ground (arith, holder_of-heartbeat now k j h t)

-- A refused acquisition leaves the table as it was.
pub acquire-refused :
    (now : ℕ) (k : Key) (h : Ident) (t : List OperationLock)
    → is_some (acquire now k h t).1 ≡ false
    → (acquire now k h t).0 ≡ t
unfolding acquire
acquire-refused now k h t e = ground arith

-- What is taken and given back leaves every holder as it was.
pub acquire-release :
    (now : ℕ) (k j : Key) (h : Ident) (t : List OperationLock)
    → IsUnique t
    → is_some (acquire now k h t).1 ≡ true
    → holder_of (release k (some h) (acquire now k h t).0).0 j ≡ holder_of t j
acquire-release now k j h t u e = elim (Option-cases (holder_of t k)) [
  | inl free ↦ ground (
    arith,
    free,
    release-free_own k j h (acquire now k h t).0 (acquire-IsUnique now k h t u),
    acquire-take_free now k j h t,
    acquire-take_free now k k h t,
    key_eq_iff k j,
    key_eq_iff k k,
    ident_eq_iff h h,
  )
  | inr (x, taken) ↦ ground (arith, taken, acquire-take_free now k j h t)
]
