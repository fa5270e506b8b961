-- ===== src/Audit/Ship/Marks.antt =====
-- Marking one event of core/audit_ship.py's pending ones in the list of all of them.
use deploy_hub.Prelude.{
  ℕ, ◌≡◌, refl, ap, Bool, true, false, not, some, List, [], ◌∷◌, ◌++◌, ◌==◌, arith, all, any,
}
use deploy_hub.Prelude.Table.{update}
use deploy_hub.Audit.{AuditEvent}
use deploy_hub.Audit.Ship.{is_shipped, pending}

-- No key twice.
abbrev pub UniqueKeys : List AuditEvent → Type 0
UniqueKeys [] = Unit
UniqueKeys (e ∷ events) =
    (any (λ (x : AuditEvent). x.pk == e.pk) events ≡ false) × UniqueKeys events

abbrev marked : ℕ → AuditEvent → AuditEvent
marked now e = record e { shipped_at = some now }

pub update_absent :
    (k now : ℕ) (events : List AuditEvent)
    → any (λ (x : AuditEvent). x.pk == k) events ≡ false
    → update (λ (e : AuditEvent). e.pk) k (marked now) events ≡ events
unfolding update
update_absent k now [] h = refl
update_absent k now (e ∷ events) h = ground (arith, update_absent k now events)

pub any-append_cons :
    (k : ℕ) (xs ys : List AuditEvent) (e : AuditEvent)
    → any (λ (x : AuditEvent). x.pk == k) (xs ++ e ∷ ys) ≡ false
    → (e.pk == k) ≡ false
any-append_cons k [] ys e h = ground arith
any-append_cons k (x ∷ xs) ys e h = ground (arith, any-append_cons k xs ys e)

pub update_middle :
    (now : ℕ) (done rest : List AuditEvent) (e : AuditEvent)
    → UniqueKeys (done ++ e ∷ rest)
    → update (λ (x : AuditEvent). x.pk) e.pk (marked now) (done ++ e ∷ rest)
      ≡ done ++ marked now e ∷ rest
unfolding update
update_middle now [] rest e u = ground (arith, update_absent e.pk now rest)
update_middle now (x ∷ done) rest e u =
    ground (arith, update_middle now done rest e, any-append_cons x.pk done rest e)

pub any-marked :
    (k now : ℕ) (done rest : List AuditEvent) (e : AuditEvent)
    → any (λ (x : AuditEvent). x.pk == k) (done ++ marked now e ∷ rest)
      ≡ any (λ (x : AuditEvent). x.pk == k) (done ++ e ∷ rest)
any-marked k now [] rest e = refl
any-marked k now (x ∷ done) rest e = ground (arith, any-marked k now done rest e)

pub marked-UniqueKeys :
    (now : ℕ) (done rest : List AuditEvent) (e : AuditEvent)
    → UniqueKeys (done ++ e ∷ rest)
    → UniqueKeys (done ++ marked now e ∷ rest)
marked-UniqueKeys now [] rest e u = u
marked-UniqueKeys now (x ∷ done) rest e u =
    ground (arith, marked-UniqueKeys now done rest e, any-marked x.pk now done rest e)

pub pending-all :
    (events : List AuditEvent)
    → all (λ e. not (is_shipped e)) events ≡ true
    → pending events ≡ events
pending-all [] h = refl
pending-all (e ∷ events) h = ground (arith, pending-all events)

pub pending-append :
    (done rest : List AuditEvent)
    → all is_shipped done ≡ true
    → pending (done ++ rest) ≡ pending rest
pending-append [] rest h = refl
pending-append (e ∷ done) rest h = ground (arith, pending-append done rest)

pub all-snoc :
    (p : AuditEvent → Bool) (done : List AuditEvent) (e : AuditEvent)
    → all p done ≡ true
    → p e ≡ true
    → all p (done ++ e ∷ []) ≡ true
all-snoc p [] e h q = ground arith
all-snoc p (x ∷ done) e h q = ground (arith, all-snoc p done e)

pub append_snoc :
    (done rest : List AuditEvent) (e : AuditEvent) → (done ++ e ∷ []) ++ rest ≡ done ++ e ∷ rest
append_snoc [] rest e = refl
append_snoc (x ∷ done) rest e = ap (λ l. x ∷ l) (append_snoc done rest e)
