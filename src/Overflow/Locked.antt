-- ===== src/Overflow/Locked.antt =====
-- The locks of deploys/overflow.py are given back, however an operation ends.
use Prim.Native.String.{◌++◌ as ◌<>◌}
use deploy_hub.Prelude.{
  ℕ, String, ◌≡◌, refl, Bool, true, false, Option, some, List, arith, is_some, Option-cases,
  Bool-cases, inl, inr,
}
use deploy_hub.Findings.{Inbox}
use deploy_hub.Locks.{Key, Ident, text, OperationLock, acquire, release, key_eq_iff, ident_eq_iff}
use deploy_hub.Locks.Table.{IsUnique, acquire-IsUnique, release-IsUnique}
use deploy_hub.Locks.Map.{holder_of, acquire-take_free, release-free_own}
use deploy_hub.Overflow.{
  Place, Work, Result, raised, Unjoining, lock_busy, with_lock, site_lock, target_lock,
  scale_in_under_locks, scale_in_overflow, scale_in_gate, join_gate, join_under_lock,
  join_overflow_traffic,
}

-- The rows are unique, and every key has the holder that it had in `t`.
pub record Restores (t t' : List OperationLock) : Type 0 where
  pub unique : IsUnique t'
  pub holders : (j : Key) → holder_of t' j ≡ holder_of t j

-- An acquisition that is refused changes no holder.
refused_kept :
    (now : ℕ) (k j : Key) (h : Ident) (t : List OperationLock)
    → is_some (acquire now k h t).1 ≡ false
    → holder_of (acquire now k h t).0 j ≡ holder_of t j
refused_kept now k j h t denied = elim (Option-cases (holder_of t k)) [
  | inl free ↦ absurd (ground (arith, denied, free, acquire-take_free now k k h t))
  | inr (x, taken) ↦ ground (arith, acquire-take_free now k j h t, taken, key_eq_iff k j)
]

-- A release of what was acquired changes no holder.
granted_kept :
    (now : ℕ) (k j : Key) (h : Ident) (t t2 : List OperationLock)
    → is_some (acquire now k h t).1 ≡ true
    → Restores (acquire now k h t).0 t2
    → holder_of (release k (some h) t2).0 j ≡ holder_of t j
granted_kept now k j h t t2 granted r = elim (Option-cases (holder_of t k)) [
  | inr (x, taken) ↦ absurd (ground (arith, granted, taken, acquire-take_free now k k h t))
  | inl free ↦ ground (
    arith,
    free,
    release-free_own k j h t2 r.unique,
    r.holders j,
    r.holders k,
    acquire-take_free now k j h t,
    acquire-take_free now k k h t,
    key_eq_iff k j,
    key_eq_iff k k,
    ident_eq_iff h h,
  )
]

-- A body that restores the locks does so under one more lock, granted or not.
with_lock-Restores {ℓ} :
    {A : Type ℓ} (now : ℕ) (k : Key) (h : Ident) (busy : A)
    (body : List OperationLock → A × List OperationLock) (t : List OperationLock)
    → IsUnique t
    → ((t' : List OperationLock) → IsUnique t' → Restores t' (body t').1)
    → Restores t (with_lock now k h busy body t).1
unfolding with_lock
with_lock-Restores now k h busy body t u keeps =
    let t' = (acquire now k h t).0 in
    let u' = acquire-IsUnique now k h t u in
    let inner = keeps t' u' in
    elim (Bool-cases (is_some (acquire now k h t).1)) [
      | inl granted ↦ rw (granted) (record {
        unique = release-IsUnique k (some h) (body t').1 inner.unique;
        holders = λ j. granted_kept now k j h t (body t').1 granted inner;
      })
      | inr denied ↦
          rw (denied) (record { unique = u'; holders = λ j. refused_kept now k j h t denied })
    ]

same-Restores : (t : List OperationLock) → IsUnique t → Restores t t
same-Restores t u = record { unique = u; holders = λ j. refl }

module _ (str : ℕ → String) (parse : String → Option ℕ) (show : ℕ → String) where
  module _ {ℓ} {Outside : Type ℓ} (a_values : Outside → List String)
      (ensure_dns : List String → Outside → Bool × Outside)
      (replica terminate_instance : Outside → Bool × Outside) (file_failed : Inbox → Inbox) where
    taken_out-Restores :
        (now : ℕ) (place : Place) (w : Work Outside) (locks : List OperationLock)
        → IsUnique locks
        → Restores locks
            (scale_in_overflow str parse show a_values ensure_dns replica terminate_instance
              file_failed now place w locks).1
    unfolding scale_in_overflow
    taken_out-Restores now place w locks u =
        let holder = text ("overflow-scale-in:" <> str place.site.pk) in
        let work =
          scale_in_under_locks str parse show a_values ensure_dns replica terminate_instance
            file_failed place w in
        let inner : List OperationLock → (Result Unjoining × Work Outside) × List OperationLock =
          with_lock now (target_lock w.target.pk) holder (raised lock_busy, w) (λ t. (work, t)) in
        let outer =
          with_lock-Restores now (site_lock place.site.pk) holder (raised lock_busy, w) inner locks
            u
            (λ t ut.
              with_lock-Restores now (target_lock w.target.pk) holder (raised lock_busy, w)
                (λ t'. (work, t')) t ut same-Restores) in
        elim (Option-cases (scale_in_gate place w.target)) [
          | inr (refusal, refused) ↦ rw (scale_in_overflow, refused) (same-Restores locks u)
          | inl passed ↦ rw (scale_in_overflow, passed) outer
        ]

    joined-Restores :
        (now : ℕ) (place : Place) (w : Work Outside) (locks : List OperationLock)
        → IsUnique locks
        → Restores locks
            (join_overflow_traffic str parse show a_values ensure_dns replica terminate_instance
              file_failed now place w locks).1
    unfolding join_overflow_traffic
    joined-Restores now place w locks u =
        elim (Option-cases (
          join_gate str parse show a_values ensure_dns replica terminate_instance file_failed place
            w)) [
              | inr (refusal, refused) ↦ rw (join_overflow_traffic, refused) (same-Restores locks u)
              | inl passed ↦
                  rw (join_overflow_traffic, passed)
                    (with_lock-Restores now (site_lock place.site.pk)
                      (text ("overflow-join:" <> str place.site.pk)) (raised lock_busy, w)
                      (λ t. (
                        join_under_lock str parse show a_values ensure_dns replica
                            terminate_instance file_failed place w,
                        t,
                      ))
                      locks u same-Restores)
            ]

    -- Whether it returns or raises, and at whatever point, taking a copy out leaves unique lock rows unique
    -- and every lock with the holder that it had; so does joining it.
    pub scale_in_overflow-Restores :
        (now : ℕ) (place : Place) (w : Work Outside) (locks : List OperationLock)
        → IsUnique locks
        → Restores locks
            (scale_in_overflow str parse show a_values ensure_dns replica terminate_instance
              file_failed now place w locks).1
          × Restores locks
              (join_overflow_traffic str parse show a_values ensure_dns replica terminate_instance
                file_failed now place w locks).1
    scale_in_overflow-Restores now place w locks u =
        (taken_out-Restores now place w locks u, joined-Restores now place w locks u)
