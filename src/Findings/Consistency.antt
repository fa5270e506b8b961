-- ===== src/Findings/Consistency.antt =====
-- The invariant of the inbox: one row to a fingerprint, and a stream that tells each row's state.
use deploy_hub.Prelude.{
  ℕ, String, ◌≡◌, refl, ◌<◌, Bool, true, false, Option, none, some, List, [], ◌∷◌, ◌++◌, ◌==◌,
  arith, if◌then◌else◌, first, any, All,
}
use deploy_hub.Prelude.Table.{find, update}
use deploy_hub.Findings.{Finding, State, Note, Inbox, is_key}

abbrev pub find_row : ℕ → List Finding → Option Finding
find_row = find (λ (r : Finding). r.pk)

-- The primary key, and the unique constraint on (workspace, fingerprint).
abbrev pub UniquePks : List Finding → Type 0
UniquePks [] = Unit
UniquePks (r ∷ rows) = (find_row r.pk rows ≡ none) × UniquePks rows

abbrev pub UniqueKeys : List Finding → Type 0
UniqueKeys [] = Unit
UniqueKeys (r ∷ rows) = (any (is_key r.workspace r.fingerprint) rows ≡ false) × UniqueKeys rows

-- The state that a subscriber has for a row, from the events so far.
abbrev pub last_state : ℕ → List Note → Option State
last_state k [] = none
last_state k (n ∷ notes) = elim (last_state k notes) [
  | some s ↦ some s
  | none ↦ if n.id == k then some n.state else none
]

abbrev pub state_of : Option Finding → Option State
state_of none = none
state_of (some r) = some r.state

pub record IsConsistent (inbox : Inbox) : Type 0 where
  pub pks : UniquePks inbox.rows
  pub below : All (λ (r : Finding). r.pk < inbox.next_pk) inbox.rows
  pub keys : UniqueKeys inbox.rows
  pub same_trail : inbox.audits ≡ inbox.events
  pub told : (k : ℕ) → last_state k inbox.events ≡ state_of (find_row k inbox.rows)

pub last_state-append :
    (k : ℕ) (notes : List Note) (n : Note)
    → last_state k (notes ++ n ∷ []) ≡ (if n.id == k then some n.state else last_state k notes)
last_state-append k [] n = ground arith
last_state-append k (m ∷ notes) n = ground (arith, last_state-append k notes n)

pub find-first :
    (p : Finding → Bool) (rows : List Finding) (r : Finding)
    → UniquePks rows
    → first p rows ≡ some r
    → find_row r.pk rows ≡ some r
unfolding find
find-first p [] r u e = cc
find-first p (x ∷ rows) r u e = ground (arith, find-first p rows r)

pub first_holds :
    (p : Finding → Bool) (rows : List Finding) (r : Finding) → first p rows ≡ some r → p r ≡ true
first_holds p [] r e = absurd (cc)
first_holds p (x ∷ rows) r e = ground (arith, first_holds p rows r)

pub first-none-any :
    (p : Finding → Bool) (rows : List Finding) → first p rows ≡ none → any p rows ≡ false
first-none-any p [] e = refl
first-none-any p (x ∷ rows) e = ground (arith, first-none-any p rows)

-- Saving a row.
abbrev pub saved : Finding → List Finding → List Finding
saved r = update (λ (x : Finding). x.pk) r.pk (λ _. r)

pub find-saved_self :
    (r old : Finding) (rows : List Finding)
    → find_row r.pk rows ≡ some old
    → find_row r.pk (saved r rows) ≡ some r
unfolding find update
find-saved_self r old [] e = absurd (cc)
find-saved_self r old (x ∷ rows) e = ground (arith, find-saved_self r old rows)

pub find-saved_ne :
    (k : ℕ) (r : Finding) (rows : List Finding)
    → (r.pk == k) ≡ false
    → find_row k (saved r rows) ≡ find_row k rows
unfolding find update
find-saved_ne k r [] ne = refl
find-saved_ne k r (x ∷ rows) ne = ground (arith, find-saved_ne k r rows)

pub saved-absent :
    (r : Finding) (rows : List Finding) → find_row r.pk rows ≡ none → saved r rows ≡ rows
unfolding find update
saved-absent r [] e = refl
saved-absent r (x ∷ rows) e = ground (arith, saved-absent r rows)

pub saved-UniquePks :
    (r : Finding) (rows : List Finding) → UniquePks rows → UniquePks (saved r rows)
unfolding update find
saved-UniquePks r [] u = tt
saved-UniquePks r (x ∷ rows) u =
    ground (arith, saved-UniquePks r rows, saved-absent r rows, find-saved_ne x.pk r rows)

pub saved-below :
    (n : ℕ) (r : Finding) (rows : List Finding)
    → All (λ (x : Finding). x.pk < n) rows
    → All (λ (x : Finding). x.pk < n) (saved r rows)
unfolding update
saved-below n r [] h = tt
saved-below n r (x ∷ rows) h = ground (arith, saved-below n r rows)

any-saved :
    (w : ℕ) (f : String) (r old : Finding) (rows : List Finding)
    → UniquePks rows
    → find_row r.pk rows ≡ some old
    → old.workspace ≡ r.workspace
    → old.fingerprint ≡ r.fingerprint
    → any (is_key w f) (saved r rows) ≡ any (is_key w f) rows
unfolding update find is_key
any-saved w f r old [] u e sw sf = refl
any-saved w f r old (x ∷ rows) u e sw sf =
    ground (arith, any-saved w f r old rows, saved-absent r rows)

pub saved-UniqueKeys :
    (r old : Finding) (rows : List Finding)
    → UniquePks rows
    → UniqueKeys rows
    → find_row r.pk rows ≡ some old
    → old.workspace ≡ r.workspace
    → old.fingerprint ≡ r.fingerprint
    → UniqueKeys (saved r rows)
unfolding update find
saved-UniqueKeys r old [] u k e sw sf = tt
saved-UniqueKeys r old (x ∷ rows) u k e sw sf = ground (
  arith,
  saved-UniqueKeys r old rows,
  saved-absent r rows,
  any-saved x.workspace x.fingerprint r old rows,
)
