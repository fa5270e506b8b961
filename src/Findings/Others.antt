-- ===== src/Findings/Others.antt =====
-- What a filing and a transition of core/findings.py leave alone: the rows of other fingerprints.

use deploy_hub.Prelude.{
  ℕ, String, ◌≡◌, refl, ap, ◌∙◌, Bool, true, false, some, List, [], ◌∷◌, ◌++◌, ◌==◌, arith, str_eq,
  str_eq_iff, first, Option-cases, Bool-cases, inl, inr,
}
use deploy_hub.Prelude.Table.{find, update}
use deploy_hub.Findings.{
  Finding, Fields, resolved, Inbox, is_key, by_key, announce, save, created, refreshed, refresh,
  insert, finding, transition, resolve, has_copy,
}
use deploy_hub.Findings.Consistency.{
  UniquePks, IsConsistent, find_row, saved-absent, find-first, first_holds, saved,
}

first-saved_other :
    (p : Finding → Bool) (r old : Finding) (rows : List Finding)
    → UniquePks rows
    → find_row r.pk rows ≡ some old
    → p old ≡ false
    → p r ≡ false
    → first p (saved r rows) ≡ first p rows
unfolding update find
first-saved_other p r old [] u e h h' = refl
first-saved_other p r old (x ∷ rows) u e h h' = elim (Bool-cases (x.pk == r.pk)) [
  | inl same ↦
      let gone : saved r rows ≡ rows = saved-absent r rows (ground (arith, u, same)) in
      let is_old : p x ≡ false = ground (arith, e, same, h) in
      rw (same, h', is_old) (ap (first p) gone)
  | inr differs ↦
      rw (differs)
        (ground (arith, first-saved_other p r old rows u.1 (ground (arith, e, differs)) h h'))
]

first-snoc_other :
    (p : Finding → Bool) (r : Finding) (rows : List Finding)
    → p r ≡ false
    → first p (rows ++ r ∷ []) ≡ first p rows
first-snoc_other p r [] h = ground arith
first-snoc_other p r (x ∷ rows) h = ground (arith, first-snoc_other p r rows)

-- A row of one fingerprint is not of another.
key_other :
    (w : ℕ) (f g : String) (r : Finding)
    → str_eq f g ≡ false
    → is_key w f r ≡ true
    → is_key w g r ≡ false
unfolding is_key
key_other w f g r other h =
    ground (arith, str_eq_iff r.fingerprint f, str_eq_iff r.fingerprint g, str_eq_iff f g)

module _ (w : ℕ) (f g : String) (other : str_eq f g ≡ false) where
  refresh_other :
      (source_engine : String) (fields : Fields) (old : Finding) (inbox : Inbox)
      → UniquePks inbox.rows
      → by_key w f inbox ≡ some old
      → by_key w g (refresh source_engine fields old inbox).1 ≡ by_key w g inbox
  unfolding refresh refreshed by_key save announce is_key
  refresh_other source_engine fields old inbox u e =
      let r = refreshed source_engine fields inbox.clock old in
      ground (
        arith,
        first-saved_other (is_key w g) r old inbox.rows u,
        find-first (is_key w f) inbox.rows old u e,
        key_other w f g old other,
        first_holds (is_key w f) inbox.rows old e,
      )

  insert_other :
      (source_engine : String) (fields : Fields) (now : ℕ) (inbox : Inbox)
      → by_key w g (insert (created source_engine f w fields now inbox) inbox).1 ≡ by_key w g inbox
  unfolding insert created by_key announce is_key
  insert_other source_engine fields now inbox =
      first-snoc_other (is_key w g) (created source_engine f w fields now inbox) inbox.rows
        (ground (arith, other))

  -- A filing, whatever comes of it, leaves the row of another fingerprint, if the race does.
  pub finding_other :
      (race : Inbox → Inbox) (source_engine : String) (fields : Fields) (inbox : Inbox)
      → IsConsistent inbox
      → IsConsistent (race inbox)
      → by_key w g (race inbox) ≡ by_key w g inbox
      → by_key w g (finding race source_engine f (some w) fields inbox).1 ≡ by_key w g inbox
  unfolding finding
  finding_other race source_engine fields inbox h hr quiet =
      elim (Option-cases (by_key w f inbox)) [
        | inr (x, e) ↦ rw (finding, e) (refresh_other source_engine fields x inbox h.pks e)
        | inl e ↦ elim (Bool-cases (has_copy fields.title fields.body fields.fix_action)) [
          | inr c ↦ rw (finding, e, c) refl
          | inl c ↦ elim (Option-cases (by_key w f (race inbox))) [
            | inr (x, e') ↦
                rw (finding, e, c, e')
                  (refresh_other source_engine fields x (race inbox) hr.pks e' ∙ quiet)
            | inl e' ↦
                rw (finding, e, c, e')
                  (insert_other source_engine fields inbox.clock (race inbox) ∙ quiet)
          ]
        ]
      ]

  pub resolve_other :
      (old : Finding) (inbox : Inbox)
      → IsConsistent inbox
      → by_key w f inbox ≡ some old
      → by_key w g (resolve old inbox).1 ≡ by_key w g inbox
  unfolding resolve transition by_key save announce is_key
  resolve_other old inbox h e =
      let moved = record old { state = resolved } in
      ground (
        arith,
        first-saved_other (is_key w g) moved old inbox.rows h.pks,
        find-first (is_key w f) inbox.rows old h.pks e,
        key_other w f g old other,
        first_holds (is_key w f) inbox.rows old e,
      )
