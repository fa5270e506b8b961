-- ===== src/Audit/Evidence.antt =====
-- What a verified chain of core/audit.py is evidence of, and where verify_chain without arguments fails.

use Prim.Native.String.{◌++◌ as ◌<>◌, count}
use text.Mathlib.TextLemmas.{append_inj}
use deploy_hub.Prelude.{
  ℕ, String, ◌≡◌, ◌≢◌, refl, sym, ap, ◌∙◌, Bool, not, ◌&&◌, true, false, Option, none, some, List,
  [], ◌∷◌, ◌++◌, str_eq, str_eq_iff, arith, inl, inr, Bool-cases, Option-cases, length, map,
  is_some, ◌||◌,
}
use deploy_hub.Audit.{
  AuditEvent, Trail, Call, Row, last_hash, row_of, row_hash, verify_from, verify_chain, append,
}
use deploy_hub.Audit.Chain.{chain, last_event, IsChained, tip}

module _ (dumps : Row → String) (sha256 : String → String) where
  -- What the hash of an event is taken of.
  abbrev pub hashed : AuditEvent → String
  hashed e = e.prev_hash <> dumps e.row

  -- Two events that are hashed as different texts and have one hash.
  unfoldable pub clash : AuditEvent → AuditEvent → Bool
  clash e f =
      not (str_eq (hashed e) (hashed f))
      && str_eq (row_hash dumps sha256 e) (row_hash dumps sha256 f)

  -- Whether the events at one place of two chains clash.
  unfoldable pub has_clash : List AuditEvent → List AuditEvent → Bool
  has_clash [] fs = false
  has_clash (e ∷ es) [] = false
  has_clash (e ∷ es) (f ∷ fs) = let later = has_clash es fs in clash e f || later

  -- The texts that are hashed, next to the rows themselves.
  abbrev pub texts : List AuditEvent → List String
  texts = map (λ (e : AuditEvent). dumps e.row)

  -- The hash of the last event.
  abbrev pub seal : List AuditEvent → String
  seal events = tip dumps sha256 (last_event events)

  seal_cons : (e e' : AuditEvent) (es : List AuditEvent) → seal (e ∷ e' ∷ es) ≡ seal (e' ∷ es)
  seal_cons e e' es = elim (Option-cases (last_event es)) [
    | inl ends ↦ rw (ends) refl
    | inr (l, there) ↦ rw (there) refl
  ]

  verified_nil : (p : Option AuditEvent) → verify_from dumps sha256 p [] ≡ true
  unfolding verify_from
  verified_nil none = refl
  verified_nil (some p) = refl

  same_event :
      (e f : AuditEvent)
      → clash e f ≡ false
      → count e.prev_hash ≡ count f.prev_hash
      → row_hash dumps sha256 e ≡ row_hash dumps sha256 f
      → (e.prev_hash ≡ f.prev_hash) × (dumps e.row ≡ dumps f.row)
  unfolding clash
  same_event e f apart size same =
      let one_hash : str_eq (row_hash dumps sha256 e) (row_hash dumps sha256 f) ≡ true =
        (str_eq_iff (row_hash dumps sha256 e) (row_hash dumps sha256 f)).1 same in
      let one_text : str_eq (hashed e) (hashed f) ≡ true = ground (arith, apart, one_hash) in
      append_inj ((str_eq_iff (hashed e) (hashed f)).0 one_text) size

  module _ (width : ℕ) (hex : (t : String) → count (sha256 t) ≡ width) where
    prev_size :
        (p q : Option AuditEvent) (e f : AuditEvent) (es fs : List AuditEvent)
        → is_some p ≡ is_some q
        → verify_from dumps sha256 p (e ∷ es) ≡ true
        → verify_from dumps sha256 q (f ∷ fs) ≡ true
        → count e.prev_hash ≡ count f.prev_hash
    unfolding verify_from row_hash
    prev_size none none e f es fs k v w =
        ground (arith, str_eq_iff e.prev_hash "", str_eq_iff f.prev_hash "")
    prev_size (some p) (some q) e f es fs k v w =
        let he = p.prev_hash <> dumps p.row in
        let hf = q.prev_hash <> dumps q.row in
        ground (
          arith,
          str_eq_iff e.prev_hash (sha256 he),
          str_eq_iff f.prev_hash (sha256 hf),
          hex he,
          hex hf,
        )
    prev_size none (some q) e f es fs k v w = absurd (cc)
    prev_size (some p) none e f es fs k v w = absurd (cc)

    -- A link of a verified chain.
    link :
        (p : Option AuditEvent) (e e' : AuditEvent) (es : List AuditEvent)
        → verify_from dumps sha256 p (e ∷ e' ∷ es) ≡ true
        → e'.prev_hash ≡ row_hash dumps sha256 e
    unfolding verify_from
    link none e e' es v = ground (arith, str_eq_iff e'.prev_hash (row_hash dumps sha256 e))
    link (some p) e e' es v = ground (arith, str_eq_iff e'.prev_hash (row_hash dumps sha256 e))

    rest_verified :
        (p : Option AuditEvent) (e : AuditEvent) (es : List AuditEvent)
        → verify_from dumps sha256 p (e ∷ es) ≡ true
        → verify_from dumps sha256 (some e) es ≡ true
    unfolding verify_from
    rest_verified none e es v = ground arith
    rest_verified (some p) e es v = ground arith

    same_chain_texts :
        (p q : Option AuditEvent) (e f : AuditEvent) (es fs : List AuditEvent)
        → is_some p ≡ is_some q
        → length es ≡ length fs
        → has_clash (e ∷ es) (f ∷ fs) ≡ false
        → verify_from dumps sha256 p (e ∷ es) ≡ true
        → verify_from dumps sha256 q (f ∷ fs) ≡ true
        → seal (e ∷ es) ≡ seal (f ∷ fs)
        → (e.prev_hash ≡ f.prev_hash) × (texts (e ∷ es) ≡ texts (f ∷ fs))
    unfolding has_clash
    same_chain_texts p q e f [] [] k n c v w s =
        let (prev, text) = same_event e f (ground arith) (prev_size p q e f [] [] k v w) s in
        (prev, ap (λ t. t ∷ []) text)
    same_chain_texts p q e f (e' ∷ es) (f' ∷ fs) k n c v w s =
        let (prev, later) =
          same_chain_texts (some e) (some f) e' f' es fs refl (ground arith) (ground arith)
            (rest_verified p e (e' ∷ es) v) (rest_verified q f (f' ∷ fs) w)
            (sym (seal_cons e e' es) ∙ s ∙ seal_cons f f' fs) in
        let (first, text) =
          same_event e f (ground arith) (prev_size p q e f (e' ∷ es) (f' ∷ fs) k v w)
            (sym (link p e e' es v) ∙ prev ∙ link q f f' fs w) in
        (first, ground (arith, text, later))
    same_chain_texts p q e f [] (f' ∷ fs) k n c v w s = absurd (ground arith)
    same_chain_texts p q e f (e' ∷ es) [] k n c v w s = absurd (ground arith)

    -- Let the digests be of one width, and let two chains verify, be equally long and end in one hash.
    -- Unless two events at one place of them are hashed as different texts and have one hash, they have
    -- the same rows in the same order, as the rows are hashed.
    pub verify_chain_evidence :
        (es fs : List AuditEvent)
        → length es ≡ length fs
        → has_clash es fs ≡ false
        → verify_chain dumps sha256 es ≡ true
        → verify_chain dumps sha256 fs ≡ true
        → seal es ≡ seal fs
        → texts es ≡ texts fs
    unfolding verify_chain
    verify_chain_evidence [] [] n c v w s = refl
    verify_chain_evidence (e ∷ es) (f ∷ fs) n c v w s =
        (same_chain_texts none none e f es fs refl (ground arith) c v w s).1
    verify_chain_evidence [] (f ∷ fs) n c v w s = absurd (ground arith)
    verify_chain_evidence (e ∷ es) [] n c v w s = absurd (ground arith)

  verify_from-last :
      (p : Option AuditEvent) (es : List AuditEvent) (e : AuditEvent)
      → verify_from dumps sha256 p (es ++ e ∷ []) ≡ true
      → is_some p || is_some (last_event es) ≡ true
      → (t : String) × (e.prev_hash ≡ sha256 t)
  unfolding verify_from row_hash
  verify_from-last none [] e v k = absurd (cc)
  verify_from-last (some p) [] e v k = (
    p.prev_hash <> dumps p.row,
    ground (arith, str_eq_iff e.prev_hash (sha256 (p.prev_hash <> dumps p.row))),
  )
  verify_from-last none (x ∷ es) e v k = verify_from-last (some x) es e (ground arith) refl
  verify_from-last (some p) (x ∷ es) e v k = verify_from-last (some x) es e (ground arith) refl

  -- When there are events already and a chain has none, its first event makes the walk over all the
  -- events fail, which verify_chain does without arguments, though each chain by itself verifies. For
  -- digests that are not empty.
  pub first_of_chain_breaks_walk :
      (call : Call) (c : Option ℕ) (trail : Trail)
      → ((t : String) → sha256 t ≢ "")
      → IsChained dumps sha256 trail
      → is_some (last_event trail.events) ≡ true
      → chain c trail.events ≡ []
      → verify_chain dumps sha256 (append dumps sha256 call c trail).1.events ≡ false
  unfolding append verify_chain
  first_of_chain_breaks_walk call c trail digest h some_events first =
      let event : AuditEvent = record {
        pk = trail.next_pk;
        row = row_of call c trail.clock;
        prev_hash = last_hash c trail.heads;
        shipped_at = none;
      } in
      elim (Bool-cases (verify_from dumps sha256 none (trail.events ++ event ∷ []))) [
        | inr fails ↦ fails
        | inl holds ↦
            let (t, is_digest) = verify_from-last none trail.events event holds some_events in
            let empty : event.prev_hash ≡ "" =
              h.headed c ∙ ap (λ l. tip dumps sha256 (last_event l)) first in
            absurd (digest t (sym is_digest ∙ empty))
      ]
