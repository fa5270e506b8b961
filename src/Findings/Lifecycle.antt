-- ===== src/Findings/Lifecycle.antt =====
-- What a filing and a transition of core/findings.py do to the stored row and to the stream.
use deploy_hub.Prelude.{
  ℕ, String, ◌≡◌, refl, sym, ap, Bool, true, false, Option, none, some, List, [], ◌∷◌, ◌++◌, arith,
  str_eq, str_eq_iff, first, Option-cases, inl, inr,
}
use deploy_hub.Prelude.Table.{find, update}
use deploy_hub.Findings.{
  Finding, Fields, opened, resolved, accepted, Note, Inbox, Filing, row, refused, reopened, Refusal,
  value_error, is_key, by_key, announce, save, created, refreshed, refresh, insert, finding,
  transition, allowed, ack, resolve, accept_risk, has_copy,
}
use deploy_hub.Findings.Text.{is_blank, is_blank-strip}
use deploy_hub.Findings.Consistency.{UniquePks, IsConsistent, find-first, first_holds, saved}

first-saved :
    (p : Finding → Bool) (r old : Finding) (rows : List Finding)
    → UniquePks rows
    → first p rows ≡ some old
    → old.pk ≡ r.pk
    → p r ≡ true
    → first p (saved r rows) ≡ some r
unfolding update find
first-saved p r old [] u e k h = absurd (cc)
first-saved p r old (x ∷ rows) u e k h =
    ground (arith, first-saved p r old rows, find-first p rows old)

first-snoc :
    (p : Finding → Bool) (r : Finding) (rows : List Finding)
    → first p rows ≡ none
    → p r ≡ true
    → first p (rows ++ r ∷ []) ≡ some r
first-snoc p r [] e h = ground arith
first-snoc p r (x ∷ rows) e h = ground (arith, first-snoc p r rows)

pub str_eq_refl : (s : String) → str_eq s s ≡ true
str_eq_refl s = ground (arith, str_eq_iff s s)

is_key_self :
    (w : ℕ) (fingerprint : String) (r : Finding)
    → r.workspace ≡ w
    → r.fingerprint ≡ fingerprint
    → is_key w fingerprint r ≡ true
unfolding is_key
is_key_self w fingerprint r e e' = ground (arith, str_eq_iff r.fingerprint fingerprint)

refresh-stored :
    (source_engine : String) (fields : Fields) (w : ℕ) (fingerprint : String) (old r : Finding)
    (inbox : Inbox)
    → UniquePks inbox.rows
    → by_key w fingerprint inbox ≡ some old
    → (refresh source_engine fields old inbox).0 ≡ row r
    → by_key w fingerprint (refresh source_engine fields old inbox).1 ≡ some r
unfolding refresh refreshed by_key save announce is_key
refresh-stored source_engine fields w fingerprint old r inbox u e h = ground (
  arith,
  first-saved (is_key w fingerprint) r old inbox.rows u,
  first_holds (is_key w fingerprint) inbox.rows old,
)

insert-stored :
    (source_engine fingerprint : String) (w : ℕ) (fields : Fields) (now : ℕ) (r : Finding)
    (inbox : Inbox)
    → by_key w fingerprint inbox ≡ none
    → (insert (created source_engine fingerprint w fields now inbox) inbox).0 ≡ row r
    → by_key w fingerprint (insert (created source_engine fingerprint w fields now inbox) inbox).1
      ≡ some r
unfolding insert created by_key announce
insert-stored source_engine fingerprint w fields now r inbox e h =
    ground (arith, first-snoc (is_key w fingerprint) r inbox.rows, is_key_self w fingerprint r)

-- In an inbox that is consistent before and after the race, the row that a filing returns is the one
-- stored under its fingerprint, whether it was created, refreshed, reopened, or found on the second
-- look after a lost race.
pub filing_is_stored :
    (race : Inbox → Inbox) (source_engine fingerprint : String) (w : ℕ) (fields : Fields)
    (inbox : Inbox) (r : Finding)
    → IsConsistent (race inbox)
    → IsConsistent inbox
    → (finding race source_engine fingerprint (some w) fields inbox).0 ≡ row r
    → by_key w fingerprint (finding race source_engine fingerprint (some w) fields inbox).1 ≡ some r
unfolding finding
filing_is_stored race source_engine fingerprint w fields inbox r hr h e =
    elim (Option-cases (by_key w fingerprint inbox)) [
      | inr (x, e1) ↦
          ground (arith, refresh-stored source_engine fields w fingerprint x r inbox h.pks e1)
      | inl e1 ↦ elim (Option-cases (by_key w fingerprint (race inbox))) [
        | inr (y, e2) ↦
            ground
              (arith, refresh-stored source_engine fields w fingerprint y r (race inbox) hr.pks e2)
        | inl e2 ↦
            ground (
              arith,
              insert-stored source_engine fingerprint w fields inbox.clock r (race inbox) e2,
            )
      ]
    ]

refresh-refused :
    (source_engine : String) (fields : Fields) (old : Finding) (x : Refusal) (inbox : Inbox)
    → (refresh source_engine fields old inbox).0 ≡ refused x
    → (has_copy fields.title fields.body fields.fix_action ≡ false)
      × ((refresh source_engine fields old inbox).1 ≡ inbox)
unfolding refresh refreshed
refresh-refused source_engine fields old x inbox h = ground arith

-- A refused filing leaves the inbox as it was, and the stream and the audit trail with it.
pub refused_filing_leaves_nothing :
    (race : Inbox → Inbox) (source_engine fingerprint : String) (workspace : Option ℕ)
    (fields : Fields) (inbox : Inbox) (x : Refusal)
    → (finding race source_engine fingerprint workspace fields inbox).0 ≡ refused x
    → (finding race source_engine fingerprint workspace fields inbox).1 ≡ inbox
unfolding finding insert
refused_filing_leaves_nothing race source_engine fingerprint none fields inbox x e = refl
refused_filing_leaves_nothing race source_engine fingerprint (some w) fields inbox x e =
    elim (Option-cases (by_key w fingerprint inbox)) [
      | inr (old, e1) ↦ ground (arith, refresh-refused source_engine fields old x inbox)
      | inl e1 ↦ elim (Option-cases (by_key w fingerprint (race inbox))) [
        | inr (old, e2) ↦ ground (arith, refresh-refused source_engine fields old x (race inbox))
        | inl e2 ↦ ground arith
      ]
    ]

pub saved_by_key :
    (w : ℕ) (fingerprint : String) (r old : Finding) (inbox : Inbox)
    → UniquePks inbox.rows
    → by_key w fingerprint inbox ≡ some old
    → r.pk ≡ old.pk
    → r.workspace ≡ old.workspace
    → r.fingerprint ≡ old.fingerprint
    → by_key w fingerprint (save r inbox) ≡ some r
unfolding by_key save is_key
saved_by_key w fingerprint r old inbox u e k sw sf = ground (
  arith,
  first-saved (is_key w fingerprint) r old inbox.rows u e (sym k),
  first_holds (is_key w fingerprint) inbox.rows old e,
)

accept_risk-row :
    (reason fingerprint : String) (w : ℕ) (inbox : Inbox) (old r : Finding)
    → UniquePks inbox.rows
    → by_key w fingerprint inbox ≡ some old
    → (accept_risk old reason inbox).0 ≡ row r
    → (is_blank r.accepted_reason ≡ false)
      × (r.state ≡ accepted)
      × (by_key w fingerprint (accept_risk old reason inbox).1 ≡ some r)
unfolding accept_risk transition announce by_key save
accept_risk-row reason fingerprint w inbox old r u e ea =
    ground (arith, saved_by_key w fingerprint r old inbox u e, is_blank-strip reason)

refile_quiet :
    (race : Inbox → Inbox) (source_engine fingerprint : String) (w : ℕ) (fields : Fields)
    (inbox : Inbox) (r : Finding)
    → by_key w fingerprint inbox ≡ some r
    → r.state ≡ accepted
    → has_copy fields.title fields.body fields.fix_action ≡ true
    → finding race source_engine fingerprint (some w) fields inbox ≡ (
      row (refreshed source_engine fields inbox.clock r),
      save (refreshed source_engine fields inbox.clock r) inbox,
    )
unfolding finding refresh refreshed
refile_quiet race source_engine fingerprint w fields inbox r e st c = rw (finding, e, c, st) refl

-- In a consistent inbox, accepting the risk of a row stored under a fingerprint needs a reason that is not blank. The
-- accepted row, with its reason stored, then stays accepted when the fingerprint fires again with copy
-- that is complete, and that filing writes nothing to the audit trail or the stream.
pub accepted_stays_quiet :
    (race : Inbox → Inbox) (source_engine fingerprint reason : String) (w : ℕ) (fields : Fields)
    (inbox : Inbox) (old r : Finding)
    → IsConsistent inbox
    → by_key w fingerprint inbox ≡ some old
    → (accept_risk old reason inbox).0 ≡ row r
    → has_copy fields.title fields.body fields.fix_action ≡ true
    → let before = (accept_risk old reason inbox).1 in
      let after = finding race source_engine fingerprint (some w) fields before in
      (is_blank r.accepted_reason ≡ false)
      × (after.0 ≡ row (refreshed source_engine fields before.clock r))
      × ((refreshed source_engine fields before.clock r).state ≡ accepted)
      × (after.1.events ≡ before.events)
      × (after.1.audits ≡ before.audits)
unfolding refreshed save
accepted_stays_quiet race source_engine fingerprint reason w fields inbox old r h e ea c =
    let before = (accept_risk old reason inbox).1 in
    let (sound, st, stored) = accept_risk-row reason fingerprint w inbox old r h.pks e ea in
    let quiet = refile_quiet race source_engine fingerprint w fields before r stored st c in
    (
      sound,
      ap (λ (f : Filing × Inbox). f.0) quiet,
      rw (st) refl,
      ap (λ (f : Filing × Inbox). f.1.events) quiet,
      ap (λ (f : Filing × Inbox). f.1.audits) quiet,
    )

-- A row stored as resolved refuses every transition and leaves the inbox as it is. When its fingerprint
-- fires again with copy that is complete, the same row is open again, and one entry in the stream and
-- one in the audit trail say so.
pub resolved_reopens :
    (race : Inbox → Inbox) (source_engine fingerprint reason : String) (w : ℕ) (fields : Fields)
    (inbox : Inbox) (r : Finding)
    → by_key w fingerprint inbox ≡ some r
    → r.state ≡ resolved
    → has_copy fields.title fields.body fields.fix_action ≡ true
    → let after = finding race source_engine fingerprint (some w) fields inbox in
      let now_open = refreshed source_engine fields inbox.clock r in
      let note : Note = record { action = reopened; id = r.pk; state = opened } in
      (ack r inbox ≡ (refused value_error, inbox))
      × (resolve r inbox ≡ (refused value_error, inbox))
      × (accept_risk r reason inbox ≡ (refused value_error, inbox))
      × (after.0 ≡ row now_open)
      × (now_open.pk ≡ r.pk)
      × (now_open.state ≡ opened)
      × (after.1.events ≡ inbox.events ++ note ∷ [])
      × (after.1.audits ≡ inbox.audits ++ note ∷ [])
unfolding finding refresh refreshed announce save ack resolve accept_risk transition allowed
resolved_reopens race source_engine fingerprint reason w fields inbox r e st c = (
  rw (st) refl,
  rw (st) refl,
  ground (arith),
  rw (finding, e, c, st) refl,
  refl,
  rw (st) refl,
  rw (finding, e, c, st) refl,
  rw (finding, e, c, st) refl,
)
