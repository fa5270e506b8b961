-- ===== src/Scaling/Evaluator/Retract.antt =====
-- _retract of scaling/evaluator.py: what it takes back, and what it leaves.
use Prim.Native.String.{◌++◌ as ◌<>◌, count}
use text.Mathlib.TextLemmas.{length-append as count-append}
use deploy_hub.Prelude.{
  ℕ, String, ◌≡◌, refl, sym, ap, ◌∙◌, Bool, true, false, Option, none, some, arith, str_eq,
  str_eq_iff, Option-cases, Bool-cases, inl, inr,
}
use deploy_hub.Findings.{
  Finding, State, resolved, accepted, Inbox, by_key, resolve, announce, transition, allowed,
}
use deploy_hub.Findings.Consistency.{IsConsistent}
use deploy_hub.Findings.Keeps.{resolve-IsConsistent, find-by_key}
use deploy_hub.Findings.Lifecycle.{saved_by_key}
use deploy_hub.Findings.Others.{resolve_other}
use deploy_hub.Scaling.Evaluator.{
  Site, is_active, is_pending, cheap_fp, proposal_fp, retract_one, retract,
}

abbrev pub has_state : (State → Bool) → Option Finding → Bool
has_state p none = false
has_state p (some r) = p r.state

abbrev pub is_accepted : State → Bool
is_accepted accepted = true
is_accepted _ = false

retract_one-IsConsistent :
    (w : ℕ) (f : String) (inbox : Inbox) → IsConsistent inbox → IsConsistent (retract_one w f inbox)
unfolding retract_one
retract_one-IsConsistent w f inbox h = elim (Option-cases (by_key w f inbox)) [
  | inl absent ↦ rw (retract_one, absent) h
  | inr (r, found) ↦ elim (Bool-cases (is_pending r.state)) [
    | inr settled ↦ rw (retract_one, found, settled) h
    | inl pending ↦
        rw (retract_one, found, pending)
          (resolve-IsConsistent r inbox (find-by_key w f inbox r h.pks found) h)
  ]
]

-- Taking back one row leaves that of another fingerprint.
retract_one_other :
    (w : ℕ) (f g : String) (inbox : Inbox)
    → str_eq f g ≡ false
    → IsConsistent inbox
    → by_key w g (retract_one w f inbox) ≡ by_key w g inbox
unfolding retract_one
retract_one_other w f g inbox other h = elim (Option-cases (by_key w f inbox)) [
  | inl absent ↦ rw (retract_one, absent) refl
  | inr (r, found) ↦ elim (Bool-cases (is_pending r.state)) [
    | inr settled ↦ rw (retract_one, found, settled) refl
    | inl pending ↦ rw (retract_one, found, pending) (resolve_other w f g other r inbox h found)
  ]
]

resolve-pending :
    (w : ℕ) (f : String) (r : Finding) (inbox : Inbox)
    → IsConsistent inbox
    → by_key w f inbox ≡ some r
    → is_pending r.state ≡ true
    → by_key w f (resolve r inbox).1 ≡ some (record r { state = resolved })
unfolding resolve transition allowed is_pending announce by_key
resolve-pending w f r inbox h found pending =
    ground
      (arith, saved_by_key w f (record r { state = resolved }) r inbox h.pks found refl refl refl)

-- What is left is neither open nor acknowledged.
retract_one_settles :
    (w : ℕ) (f : String) (inbox : Inbox)
    → IsConsistent inbox
    → has_state is_pending (by_key w f (retract_one w f inbox)) ≡ false
unfolding retract_one
retract_one_settles w f inbox h = elim (Option-cases (by_key w f inbox)) [
  | inl absent ↦ rw (retract_one, absent) (ap (has_state is_pending) absent)
  | inr (r, found) ↦ elim (Bool-cases (is_pending r.state)) [
    | inr settled ↦ rw (retract_one, found, settled) (ap (has_state is_pending) found ∙ settled)
    | inl pending ↦
        rw (retract_one, found, pending)
          (ap (has_state is_pending) (resolve-pending w f r inbox h found pending))
  ]
]

settled_state : (s : State) → is_active s ≡ false → is_pending s ≡ false
unfolding is_active is_pending
settled_state s e = ground arith

-- Taking back does not make a row active that was not.
retract_one_inactive :
    (w : ℕ) (f : String) (inbox : Inbox)
    → IsConsistent inbox
    → has_state is_active (by_key w f inbox) ≡ false
    → retract_one w f inbox ≡ inbox
unfolding retract_one
retract_one_inactive w f inbox h inactive = elim (Option-cases (by_key w f inbox)) [
  | inl absent ↦ rw (retract_one, absent) refl
  | inr (r, found) ↦
      let settled : is_pending r.state ≡ false =
        settled_state r.state (sym (ap (has_state is_active) found) ∙ inactive) in
      rw (retract_one, found, settled) refl
]

str_eq_flip : (a b : String) → str_eq a b ≡ false → str_eq b a ≡ false
str_eq_flip a b e = ground (arith, str_eq_iff a b, str_eq_iff b a)

module _ (str : ℕ → String) where
  pub fps_differ : (site : Site) → str_eq (cheap_fp str site) (proposal_fp str site) ≡ false
  unfolding cheap_fp proposal_fp
  fps_differ site =
      let n = str site.pk in
      let a : String = "scale-cheap-remediation:" <> n in
      let b : String = "scale-out-proposal:" <> n in
      let differ : count a ≡ count b → ⊥ = λ e. omega (
        arith,
        e,
        count-append "scale-cheap-remediation:" n,
        count-append "scale-out-proposal:" n,
      ) in
      elim (Bool-cases (str_eq a b)) [
        | inr differs ↦ differs
        | inl same ↦ absurd (differ (ap count ((str_eq_iff a b).0 same)))
      ]

  -- Neither of the two rows of the site is open or acknowledged.
  abbrev pub NothingPending : Site → Inbox → Type 0
  NothingPending site inbox =
      (has_state is_pending (by_key site.workspace (cheap_fp str site) inbox) ≡ false)
      × (has_state is_pending (by_key site.workspace (proposal_fp str site) inbox) ≡ false)

  pub retract_settles :
      (site : Site) (inbox : Inbox)
      → IsConsistent inbox
      → NothingPending site (retract str site inbox)
  unfolding retract
  retract_settles site inbox h =
      let first = retract_one site.workspace (cheap_fp str site) inbox in
      let sound = retract_one-IsConsistent site.workspace (cheap_fp str site) inbox h in
      let differ = fps_differ site in
      (
        ap (has_state is_pending) (
              retract_one_other site.workspace (proposal_fp str site) (cheap_fp str site) first
                (str_eq_flip (cheap_fp str site) (proposal_fp str site) differ) sound)
            ∙ retract_one_settles site.workspace (cheap_fp str site) inbox h,
        retract_one_settles site.workspace (proposal_fp str site) first sound,
      )

  pub retract_inactive :
      (site : Site) (inbox : Inbox)
      → IsConsistent inbox
      → has_state is_active (by_key site.workspace (proposal_fp str site) inbox) ≡ false
      → has_state is_active (by_key site.workspace (proposal_fp str site) (retract str site inbox))
        ≡ false
  unfolding retract
  retract_inactive site inbox h inactive =
      let first = retract_one site.workspace (cheap_fp str site) inbox in
      let sound = retract_one-IsConsistent site.workspace (cheap_fp str site) inbox h in
      let before : has_state is_active (by_key site.workspace (proposal_fp str site) first)
          ≡ false =
        ap (has_state is_active) (
          retract_one_other site.workspace (cheap_fp str site) (proposal_fp str site) inbox
            (fps_differ site) h)
        ∙ inactive in
      ap (λ i. has_state is_active (by_key site.workspace (proposal_fp str site) i))
        (retract_one_inactive site.workspace (proposal_fp str site) first sound before)
      ∙ before
