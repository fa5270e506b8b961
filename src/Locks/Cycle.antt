-- ===== src/Locks/Cycle.antt =====
-- The fleet-wide cycle guard: _acquire_cycle_lock of monitor/uptime.py and scaling/evaluator.py.
-- A time is a count of seconds, and `heartbeat_at < now - stale_s` is written with a sum.
use deploy_hub.Prelude.{
  ℕ, ◌+◌, ◌<◌, ◌≡◌, refl, Bool, true, false, not, ◌&&◌, ◌||◌, Option, none, some, List, [], ◌∷◌,
  ◌++◌, arith, ltb, if◌then◌else◌, filter, any, is_some,
}
use deploy_hub.Locks.{
  Key, Scope, Kind, Ident, text, OperationLock, key_eq_iff, ident_eq_iff, at_key, acquire, release,
}
use deploy_hub.Locks.Table.{
  IsUnique, filter-IsUnique, acquire-IsUnique, release-IsUnique, any-filter,
}
use deploy_hub.Locks.Map.{holder_of, any-holder_of, acquire-take_free, release-free_own}

abbrev pub cycle_lock_stale_s : ℕ
cycle_lock_stale_s = 300

-- CYCLE_LOCK and CYCLE_HOLDER of monitor/uptime.py.
abbrev pub probe_cycle_lock : Key
probe_cycle_lock = record {
  scope = Scope.target;
  object_id = text "probe-uptime-cycle";
  kind = Kind.collect;
}

abbrev pub probe_cycle_holder : Ident
probe_cycle_holder = text "probe-uptime"

unfoldable pub is_stale : ℕ → Key → OperationLock → Bool
is_stale now k r = at_key k r && ltb (r.heartbeat_at + cycle_lock_stale_s) now

-- The Boolean says whether the broken lock is audited.
unfoldable pub acquire_cycle_lock :
    ℕ → Key → Ident → List OperationLock → List OperationLock × Option OperationLock × Bool
unfolding is_stale
acquire_cycle_lock now k h t =
    let (t', lock) = acquire now k h t in
    if is_some lock
    then (t', lock, false)
    else if any (is_stale now k) t'
    then (let (t2, lock2) = acquire now k h (filter (λ r. not (is_stale now k r)) t') in
        (t2, lock2, true))
    else (t', none, false)

-- probe_cycle and evaluate_all around the guard: `body` runs only under it, and `finally` frees it.
unfoldable pub guarded {ℓ} :
    {A : Type ℓ}
    → ℕ
    → Key
    → Ident
    → (List OperationLock → List OperationLock × A)
    → List OperationLock
    → List OperationLock × Option A
guarded now k h body t =
    let (t', lock, broken) = acquire_cycle_lock now k h t in
    if is_some lock
    then (let (t2, a) = body t' in ((release k (some h) t2).0, some a))
    else (t', none)

-- A free key has no stale row.
free_not_stale :
    (now : ℕ) (k : Key) (t : List OperationLock)
    → any (at_key k) t ≡ false
    → any (is_stale now k) t ≡ false
unfolding is_stale
free_not_stale now k [] e = refl
free_not_stale now k (r ∷ t) e = ground (arith, free_not_stale now k t)

-- A row of a unique table: without the stale rows of a key that has one, the key is free.
filter-stale :
    (now : ℕ) (k : Key) (t : List OperationLock)
    → IsUnique t
    → any (is_stale now k) t ≡ true
    → any (at_key k) (filter (λ r. not (is_stale now k r)) t) ≡ false
unfolding is_stale at_key
filter-stale now k [] u e = cc
filter-stale now k (r ∷ t) u e = ground (
  arith,
  filter-stale now k t,
  free_not_stale now k t,
  key_eq_iff r.key k,
  any-filter (at_key k) (λ x. not (is_stale now k x)) t,
)

acquire-is_some :
    (now : ℕ) (k : Key) (h : Ident) (t : List OperationLock)
    → is_some (acquire now k h t).1 ≡ not (any (at_key k) t)
unfolding acquire
acquire-is_some now k h t = ground arith

acquire-same :
    (now : ℕ) (k : Key) (h : Ident) (t : List OperationLock)
    → any (at_key k) t ≡ true
    → (acquire now k h t).0 ≡ t
unfolding acquire
acquire-same now k h t e = ground arith

-- On a table of unique rows the guard is granted exactly when the key is free or its row is stale,
-- and the break of a lock is audited exactly when there was a stale row.
pub cycle_grant :
    (now : ℕ) (k : Key) (h : Ident) (t : List OperationLock)
    → IsUnique t
    → (is_some (acquire_cycle_lock now k h t).1 ≡ not (any (at_key k) t) || any (is_stale now k) t)
      × ((acquire_cycle_lock now k h t).2 ≡ any (is_stale now k) t)
unfolding acquire_cycle_lock
cycle_grant now k h t u = ground (
  arith,
  acquire-is_some now k h t,
  acquire-same now k h t,
  free_not_stale now k t,
  filter-stale now k t u,
  acquire-is_some now k h (filter (λ r. not (is_stale now k r)) t),
)

acquire_cycle_lock-IsUnique :
    (now : ℕ) (k : Key) (h : Ident) (t : List OperationLock)
    → IsUnique t
    → IsUnique (acquire_cycle_lock now k h t).0
unfolding acquire_cycle_lock
acquire_cycle_lock-IsUnique now k h t u = ground (
  arith,
  acquire-IsUnique now k h t u,
  filter-IsUnique (λ r. not (is_stale now k r)) (acquire now k h t).0,
  acquire-IsUnique now k h (filter (λ r. not (is_stale now k r)) (acquire now k h t).0),
)

acquire-granted :
    (now : ℕ) (k : Key) (h : Ident) (t : List OperationLock)
    → is_some (acquire now k h t).1 ≡ true
    → holder_of (acquire now k h t).0 k ≡ some h
acquire-granted now k h t g = ground (arith, acquire-take_free now k k h t, key_eq_iff k k)

-- A granted guard is held by the cycle that asked.
pub cycle_holder :
    (now : ℕ) (k : Key) (h : Ident) (t : List OperationLock)
    → is_some (acquire_cycle_lock now k h t).1 ≡ true
    → holder_of (acquire_cycle_lock now k h t).0 k ≡ some h
unfolding acquire_cycle_lock
cycle_holder now k h t g = ground (
  arith,
  acquire-granted now k h t,
  acquire-granted now k h (filter (λ r. not (is_stale now k r)) (acquire now k h t).0),
)

-- Another cycle holds the key and its row is not stale.
abbrev pub is_busy : ℕ → Key → List OperationLock → Bool
is_busy now k t = any (at_key k) t && not (any (is_stale now k) t)

acquire_cycle_lock-busy :
    (now : ℕ) (k : Key) (h : Ident) (t : List OperationLock)
    → is_busy now k t ≡ true
    → acquire_cycle_lock now k h t ≡ (t, none, false)
unfolding acquire_cycle_lock acquire
acquire_cycle_lock-busy now k h t b = ground arith

module _ {ℓ} {A : Type ℓ} (now : ℕ) (k : Key) (h : Ident) where
  -- A cycle that finds the guard held by a live one runs no body and changes nothing.
  pub guarded_skips :
      (body : List OperationLock → List OperationLock × A) (t : List OperationLock)
      → is_busy now k t ≡ true
      → guarded now k h body t ≡ (t, none)
  unfolding guarded
  guarded_skips body t b = rw (acquire_cycle_lock-busy now k h t b)

  -- On unique rows with no fresh lock on the guard the body runs, and if it leaves the rows unique and
  -- the guard its own, the guard is free afterwards.
  pub guarded_frees :
      (body : List OperationLock → List OperationLock × A) (t : List OperationLock)
      → IsUnique t
      → is_busy now k t ≡ false
      → IsUnique (body (acquire_cycle_lock now k h t).0).0
      → holder_of (body (acquire_cycle_lock now k h t).0).0 k ≡ some h
      → (holder_of (guarded now k h body t).0 k ≡ none)
        × ((guarded now k h body t).1 ≡ some (body (acquire_cycle_lock now k h t).0).1)
  unfolding guarded
  guarded_frees body t u b ub hb = ground (
    arith,
    cycle_grant now k h t u,
    release-free_own k k h (body (acquire_cycle_lock now k h t).0).0 ub,
    key_eq_iff k k,
    ident_eq_iff h h,
  )

-- The start and the end of one cycle, apart: the end frees by the shared holder name.
abbrev pub cycle_end : Key → Ident → List OperationLock → List OperationLock
cycle_end k h t = (release k (some h) t).0

any-append_row :
    (p : OperationLock → Bool) (t : List OperationLock) (r : OperationLock)
    → p r ≡ true
    → any p (t ++ r ∷ []) ≡ true
any-append_row p [] r h = ground arith
any-append_row p (s ∷ t) r h = ground (arith, any-append_row p t r)

-- A fresh grant is stale once the limit has passed.
grant_goes_stale :
    (now later : ℕ) (k : Key) (h : Ident) (t : List OperationLock)
    → any (at_key k) t ≡ false
    → now + cycle_lock_stale_s < later
    → any (is_stale later k) (acquire_cycle_lock now k h t).0 ≡ true
unfolding acquire_cycle_lock acquire at_key
grant_goes_stale now later k h t e late =
    let row : OperationLock = record {
      key = k;
      holder = h;
      acquired_at = now;
      heartbeat_at = now;
    } in
    ground (arith, any-append_row (is_stale later k) t row, key_eq_iff k k)

-- What an owner frees is free.
any-cycle_end :
    (k : Key) (h : Ident) (t : List OperationLock)
    → IsUnique t
    → holder_of t k ≡ some h
    → any (at_key k) (cycle_end k h t) ≡ false
any-cycle_end k h t u e = ground (
  arith,
  release-free_own k k h t u,
  any-holder_of (release k (some h) t).0 k,
  key_eq_iff k k,
  ident_eq_iff h h,
)

-- The rows are unique. A cycle starts on a free key and outlives the stale limit; a second one breaks its lock and starts;
-- the first one ends. The key is then free though the second cycle still runs, and a third start at
-- once is granted beside it.
pub late_end_frees_successor :
    (now later : ℕ) (k : Key) (h : Ident) (t : List OperationLock)
    → IsUnique t
    → any (at_key k) t ≡ false
    → now + cycle_lock_stale_s < later
    → let first_table = (acquire_cycle_lock now k h t).0 in
      let second = acquire_cycle_lock later k h first_table in
      (is_some second.1 ≡ true)
      × (is_some (acquire_cycle_lock later k h (cycle_end k h second.0)).1 ≡ true)
late_end_frees_successor now later k h t u e late =
    let u1 = acquire_cycle_lock-IsUnique now k h t u in
    let t1 = (acquire_cycle_lock now k h t).0 in
    let u2 = acquire_cycle_lock-IsUnique later k h t1 u1 in
    let t2 = (acquire_cycle_lock later k h t1).0 in
    let u3 = release-IsUnique k (some h) t2 u2 in
    let granted = cycle_grant later k h t1 u1 in
    let stale = grant_goes_stale now later k h t e late in
    let second : is_some (acquire_cycle_lock later k h t1).1 ≡ true =
      ground (arith, granted, stale) in
    let owned = cycle_holder later k h t1 second in
    (
      second,
      ground (arith, cycle_grant later k h (cycle_end k h t2) u3, any-cycle_end k h t2 u2 owned),
    )
