-- ===== src/Audit/Ship/Verified.antt =====
-- The check of the store after a shipment, in core/audit_ship.py.
use deploy_hub.Prelude.{
  ℕ, suc, ◌+◌, String, ◌≡◌, refl, sym, ap, ◌∙◌, Bool, true, false, ◌&&◌, none, some, List, [], ◌∷◌,
  ◌++◌, ◌==◌, str_eq_iff, if◌then◌else◌, arith, first, length, map,
}
use mathlib.Core.Path.{subst}
use mathlib.Core.List.{append-nil}
use deploy_hub.Findings.Text.{is_blank}
use deploy_hub.Audit.{AuditEvent, Trail, Row, row_hash, verify_from, verify_chain}
use deploy_hub.Audit.Ship.{
  Object, Store, shipped, put, pending, mark, payload, ship_each, ship, verify_objects,
  verify_shipped,
}
use deploy_hub.Audit.Ship.Marks.{UniqueKeys}
use deploy_hub.Audit.Ship.Mirror.{
  object_of, Mirrors, absent, put-up, next-Mirrors, ship_each-Mirrors, rest_is_pending, with_object,
}

module _ (dumps : Row → String) (sha256 : String → String) where
  ship_each_all :
      (up : ℕ → Bool) (todo : List AuditEvent) (n : ℕ) (trail : Trail) (store : Store)
      → ((k : ℕ) → up k ≡ true)
      → store.object_lock ≡ true
      → store.versioning ≡ true
      → Mirrors dumps sha256 todo trail store
      → ((ship_each dumps sha256 up todo n trail store).0 ≡ shipped (length todo + n))
        × (pending (ship_each dumps sha256 up todo n trail store).1.events ≡ [])
  unfolding ship_each
  ship_each_all up [] n trail store reached lock versions m =
      (ap shipped (omega arith), sym (rest_is_pending dumps sha256 [] trail store m))
  ship_each_all up (x ∷ todo) n trail store reached lock versions m =
      let unique : UniqueKeys (m.done ++ x ∷ todo) = subst UniqueKeys m.split m.unique in
      let no_object : first (λ (o : Object). o.key == x.pk) store.objects ≡ none =
        rw (m.mirrored) (absent dumps sha256 m.done todo x unique) in
      let accepted = put-up dumps sha256 up x store (reached x.pk) lock versions no_object in
      let later =
        ship_each_all up todo (suc n) (mark x.pk trail) (with_object dumps sha256 x store) reached
          lock versions
          (next-Mirrors dumps sha256 m.done todo x trail store m.split m.all_done m.none_done
            m.mirrored unique) in
      (
        rw (ship_each, accepted) (later.0 ∙ ap shipped (omega arith)),
        rw (ship_each, accepted) later.1,
      )

  verify_objects-map :
      (prev : AuditEvent) (events : List AuditEvent)
      → verify_objects dumps sha256
          (row_hash dumps sha256 prev)
          (map (object_of dumps sha256) events)
        ≡ verify_from dumps sha256 (some prev) events
  unfolding verify_objects verify_from payload row_hash
  verify_objects-map prev [] = refl
  verify_objects-map prev (e ∷ events) = ground (
    arith,
    verify_objects-map e events,
    str_eq_iff (row_hash dumps sha256 e) (row_hash dumps sha256 e),
  )

  verify_objects-chain :
      (events : List AuditEvent)
      → verify_objects dumps sha256 "" (map (object_of dumps sha256) events)
        ≡ verify_chain dumps sha256 events
  unfolding verify_objects verify_from verify_chain payload row_hash
  verify_objects-chain [] = refl
  verify_objects-chain (e ∷ events) = ground (
    arith,
    verify_objects-map e events,
    str_eq_iff (row_hash dumps sha256 e) (row_hash dumps sha256 e),
  )

  length-map :
      (events : List AuditEvent) → length (map (object_of dumps sha256) events) ≡ length events
  length-map [] = refl
  length-map (e ∷ events) = ap suc (length-map events)

  done_is_all :
      (trail : Trail) (store : Store) (m : Mirrors dumps sha256 [] trail store)
      → trail.events ≡ m.done
  done_is_all trail store m = m.split ∙ append-nil m.done

  verify_shipped-all :
      (trail : Trail) (store : Store)
      → Mirrors dumps sha256 [] trail store
      → store.object_lock ≡ true
      → verify_shipped dumps sha256 store
        ≡ (if verify_chain dumps sha256 trail.events then some (length trail.events) else none)
  unfolding verify_shipped
  verify_shipped-all trail store m lock =
      rw
        (
          lock,
          m.mirrored,
          verify_objects-chain m.done,
          length-map m.done,
          done_is_all trail store m,
        )
        refl

  same_lock :
      (up : ℕ → Bool) (todo : List AuditEvent) (n : ℕ) (trail : Trail) (store : Store)
      → (ship_each dumps sha256 up todo n trail store).2.object_lock ≡ store.object_lock
  unfolding ship_each put
  same_lock up [] n trail store = refl
  same_lock up (x ∷ todo) n trail store = ground (
    arith,
    same_lock up todo (suc n) (mark x.pk trail) (with_object dumps sha256 x store),
    same_lock up todo (suc n) (mark x.pk trail) store,
  )

  -- A shipment to a named bucket of a locked, versioned store that is a mirror and can be reached ends
  -- with every event shipped, and the check of the store then agrees with the check of the local trail:
  -- it counts all the events if their walk verifies, and raises if it does not.
  pub ship-verify_shipped :
      (up : ℕ → Bool) (bucket : String) (trail : Trail) (store : Store)
      → ((k : ℕ) → up k ≡ true)
      → is_blank bucket ≡ false
      → store.object_lock ≡ true
      → store.versioning ≡ true
      → Mirrors dumps sha256 (pending trail.events) trail store
      → let run = ship dumps sha256 up bucket trail store in
        (run.0 ≡ shipped (length (pending trail.events)))
        × (pending run.1.events ≡ [])
        × (verify_shipped dumps sha256 run.2
            ≡ (if verify_chain dumps sha256 run.1.events then some (length run.1.events) else none))
  unfolding ship
  ship-verify_shipped up bucket trail store reached named lock versions m =
      let todo = pending trail.events in
      let run = ship_each dumps sha256 up todo 0 trail store in
      let all_of = ship_each_all up todo 0 trail store reached lock versions m in
      let (rest, kept) = ship_each-Mirrors dumps sha256 up todo 0 trail store m in
      let nothing : rest ≡ [] = rest_is_pending dumps sha256 rest run.1 run.2 kept ∙ all_of.1 in
      let whole : Mirrors dumps sha256 [] run.1 run.2 =
        subst (λ l. Mirrors dumps sha256 l run.1 run.2) nothing kept in
      let ready : (store.object_lock && store.versioning) ≡ true = ground arith in
      rw (named, ready)
        (
          all_of.0 ∙ ap shipped (omega arith),
          all_of.1,
          verify_shipped-all run.1 run.2 whole (same_lock up todo 0 trail store ∙ lock),
        )
