-- ===== src/Audit/Ship/Mirror.antt =====
-- The store as a mirror of the part of the trail that was shipped, in core/audit_ship.py.
use deploy_hub.Prelude.{
  ℕ, suc, String, ◌≡◌, ◌⊎◌, refl, sym, ap, ◌∙◌, Bool, true, not, ◌&&◌, none, some, List, [], ◌∷◌,
  ◌++◌, ◌==◌, arith, inl, inr, Bool-cases, first, all, map,
}
use mathlib.Core.Path.{subst}
use deploy_hub.Findings.Text.{is_blank}
use deploy_hub.Audit.{AuditEvent, Trail, Row, row_hash}
use deploy_hub.Audit.Ship.{Object, Store, put, is_shipped, pending, mark, payload, ship_each, ship}
use deploy_hub.Audit.Ship.Marks.{
  UniqueKeys, update_middle, any-append_cons, marked-UniqueKeys, pending-all, pending-append,
  all-snoc, append_snoc,
}

module _ (dumps : Row → String) (sha256 : String → String) where
  abbrev pub object_of : AuditEvent → Object
  object_of e = record { key = e.pk; body = payload dumps sha256 e }

  -- The shipped events come first, `rest` after them, and the store holds the objects of the shipped
  -- ones, in their order.
  pub record Mirrors (rest : List AuditEvent) (trail : Trail) (store : Store) : Type 0 where
    pub done : List AuditEvent
    pub split : trail.events ≡ done ++ rest
    pub all_done : all is_shipped done ≡ true
    pub none_done : all (λ e. not (is_shipped e)) rest ≡ true
    pub mirrored : store.objects ≡ map object_of done
    pub unique : UniqueKeys trail.events

  pub absent :
      (done rest : List AuditEvent) (e : AuditEvent)
      → UniqueKeys (done ++ e ∷ rest)
      → first (λ (o : Object). o.key == e.pk) (map object_of done) ≡ none
  absent [] rest e u = refl
  absent (x ∷ done) rest e u = ground (arith, absent done rest e, any-append_cons x.pk done rest e)

  map-snoc :
      (done : List AuditEvent) (e : AuditEvent)
      → map object_of (done ++ e ∷ []) ≡ map object_of done ++ object_of e ∷ []
  map-snoc [] e = refl
  map-snoc (x ∷ done) e = ap (λ l. object_of x ∷ l) (map-snoc done e)

  abbrev pub with_object : AuditEvent → Store → Store
  with_object e store = record store { objects = store.objects ++ object_of e ∷ [] }

  put-next :
      (up : ℕ → Bool) (done rest : List AuditEvent) (e : AuditEvent) (store : Store)
      → UniqueKeys (done ++ e ∷ rest)
      → store.objects ≡ map object_of done
      → (put up e.pk (payload dumps sha256 e) store ≡ none)
        ⊎ (put up e.pk (payload dumps sha256 e) store ≡ some (with_object e store))
  unfolding put
  put-next up done rest e store u held =
      let no_object : first (λ (o : Object). o.key == e.pk) store.objects ≡ none =
        rw (held) (absent done rest e u) in
      ground (arith, no_object)

  pub put-up :
      (up : ℕ → Bool) (e : AuditEvent) (store : Store)
      → up e.pk ≡ true
      → store.object_lock ≡ true
      → store.versioning ≡ true
      → first (λ (o : Object). o.key == e.pk) store.objects ≡ none
      → put up e.pk (payload dumps sha256 e) store ≡ some (with_object e store)
  unfolding put
  put-up up e store reached lock versions no_object = ground arith

  pub next-Mirrors :
      (done rest : List AuditEvent) (e : AuditEvent) (trail : Trail) (store : Store)
      → trail.events ≡ done ++ e ∷ rest
      → all is_shipped done ≡ true
      → all (λ x. not (is_shipped x)) (e ∷ rest) ≡ true
      → store.objects ≡ map object_of done
      → UniqueKeys (done ++ e ∷ rest)
      → Mirrors rest (mark e.pk trail) (with_object e store)
  unfolding mark payload row_hash
  next-Mirrors done rest e trail store split shipped_first later held u =
      let e' : AuditEvent = record e { shipped_at = some trail.clock } in
      let events : (mark e.pk trail).events ≡ done ++ e' ∷ rest =
        rw (split) (update_middle trail.clock done rest e u) in
      record {
        done = done ++ e' ∷ [];
        split = events ∙ sym (append_snoc done rest e');
        all_done = all-snoc is_shipped done e' shipped_first refl;
        none_done = ground arith;
        mirrored = ap (λ l. l ++ object_of e ∷ []) held ∙ sym (map-snoc done e');
        unique = rw (events) (marked-UniqueKeys trail.clock done rest e u);
      }

  -- A round of ship from the events that are left, whichever puts fail.
  pub ship_each-Mirrors :
      (up : ℕ → Bool) (todo : List AuditEvent) (n : ℕ) (trail : Trail) (store : Store)
      → Mirrors todo trail store
      → (rest : List AuditEvent) × Mirrors rest
          (ship_each dumps sha256 up todo n trail store).1
          (ship_each dumps sha256 up todo n trail store).2
  unfolding ship_each
  ship_each-Mirrors up [] n trail store m = ([], m)
  ship_each-Mirrors up (x ∷ todo) n trail store m =
      let unique : UniqueKeys (m.done ++ x ∷ todo) = subst UniqueKeys m.split m.unique in
      elim (put-next up m.done todo x store unique m.mirrored) [
        | inl failed_put ↦ (x ∷ todo, rw (ship_each, failed_put) m)
        | inr accepted ↦
            let later = ship_each-Mirrors up todo (suc n) (mark x.pk trail) (with_object x store) (
              next-Mirrors m.done todo x trail store m.split m.all_done m.none_done m.mirrored
                unique) in
            (later.0, rw (ship_each, accepted) later.1)
      ]

  pub rest_is_pending :
      (rest : List AuditEvent) (trail : Trail) (store : Store)
      → Mirrors rest trail store
      → rest ≡ pending trail.events
  rest_is_pending rest trail store m =
      sym
        (ap pending m.split ∙ pending-append m.done rest m.all_done ∙ pending-all rest m.none_done)

  -- Whichever puts fail, a shipment keeps the store a mirror: its objects are those of the events that
  -- are marked as shipped, which come before the pending ones, and every other event is still pending.
  pub ship-Mirrors :
      (up : ℕ → Bool) (bucket : String) (trail : Trail) (store : Store)
      → Mirrors (pending trail.events) trail store
      → let run = ship dumps sha256 up bucket trail store in
        Mirrors (pending run.1.events) run.1 run.2
  unfolding ship
  ship-Mirrors up bucket trail store m = elim (Bool-cases (is_blank bucket)) [
    | inl absent_bucket ↦ rw (ship, absent_bucket) m
    | inr named ↦ elim (Bool-cases (store.object_lock && store.versioning)) [
      | inr unlocked ↦ rw (ship, named, unlocked) m
      | inl locked ↦
          let run = ship_each dumps sha256 up (pending trail.events) 0 trail store in
          let (rest, kept) = ship_each-Mirrors up (pending trail.events) 0 trail store m in
          rw (ship, named, locked)
            (subst (λ l. Mirrors l run.1 run.2) (rest_is_pending rest run.1 run.2 kept) kept)
    ]
  ]
