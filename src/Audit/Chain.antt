-- ===== src/Audit/Chain.antt =====
-- audit() keeps each chain verified and its head in step, in core/audit.py.
use deploy_hub.Prelude.{
  ℕ, zero, suc, String, ◌≡◌, refl, sym, ap, ◌∙◌, Bool, true, Option, none, some, List, [], ◌∷◌,
  ◌++◌, str_eq_iff, if◌then◌else◌, arith, inl, inr, Bool-cases, Option-cases, filter,
}
use deploy_hub.Audit.{
  AuditEvent, Head, Trail, Call, Row, same_chain, find_head, last_hash, put_head, row_of, row_hash,
  verify_from, verify_chain, append, attempt, audit, chain_of_call, attempts,
}

abbrev pub on_chain : Option ℕ → AuditEvent → Bool
on_chain c e = same_chain e.row.workspace_id c

-- The events of one chain, in the order of their keys.
abbrev pub chain : Option ℕ → List AuditEvent → List AuditEvent
chain c = filter (on_chain c)

abbrev pub last_event : List AuditEvent → Option AuditEvent
last_event [] = none
last_event (e ∷ events) = elim (last_event events) [ none ↦ some e | some l ↦ some l ]

same_chain_iff : (a b : Option ℕ) → same_chain a b ≡ true → a ≡ b
unfolding same_chain
same_chain_iff none none e = refl
same_chain_iff (some a) (some b) e = ground arith
same_chain_iff none (some b) e = cc
same_chain_iff (some a) none e = cc

same_chain_refl : (a : Option ℕ) → same_chain a a ≡ true
unfolding same_chain
same_chain_refl none = refl
same_chain_refl (some a) = ground arith

same_chain_trans :
    (a b c : Option ℕ) → same_chain a c ≡ true → same_chain b c ≡ true → same_chain a b ≡ true
same_chain_trans a b c p q =
    let e : a ≡ b = same_chain_iff a c p ∙ sym (same_chain_iff b c q) in rw (e) (same_chain_refl b)

find_head-put_head :
    (c : Option ℕ) (h : Head) (heads : List Head)
    → find_head c (put_head h heads) ≡ (if same_chain h.chain c then some h else find_head c heads)
unfolding find_head put_head
find_head-put_head c h [] = refl
find_head-put_head c h (x ∷ heads) = elim (Bool-cases (same_chain x.chain h.chain)) [
  | inl same ↦
      rw (same, find_head)
        (let eq : x.chain ≡ h.chain = same_chain_iff x.chain h.chain same in ground (arith, eq))
  | inr differs ↦
      rw (differs, find_head)
        (ground (arith, find_head-put_head c h heads, same_chain_trans x.chain h.chain c))
]

last_hash-put_head :
    (c : Option ℕ) (h : Head) (heads : List Head)
    → last_hash c (put_head h heads)
      ≡ (if same_chain h.chain c then h.last_hash else last_hash c heads)
unfolding last_hash
last_hash-put_head c h heads = ground (arith, find_head-put_head c h heads)

chain-append :
    (c : Option ℕ) (events : List AuditEvent) (e : AuditEvent)
    → chain c (events ++ e ∷ [])
      ≡ (if on_chain c e then chain c events ++ e ∷ [] else chain c events)
chain-append c [] e = ground arith
chain-append c (x ∷ events) e = ground (arith, chain-append c events e)

last_event-append :
    (events : List AuditEvent) (e : AuditEvent) → last_event (events ++ e ∷ []) ≡ some e
last_event-append [] e = refl
last_event-append (x ∷ events) e = ground (arith, last_event-append events e)

module _ (dumps : Row → String) (sha256 : String → String) where
  -- What the next event of a chain must name.
  abbrev pub tip : Option AuditEvent → String
  tip none = ""
  tip (some e) = row_hash dumps sha256 e

  abbrev after : Option AuditEvent → List AuditEvent → Option AuditEvent
  after prev events = elim (last_event events) [ none ↦ prev | some l ↦ some l ]

  verify_from-append :
      (prev : Option AuditEvent) (events : List AuditEvent) (e : AuditEvent)
      → verify_from dumps sha256 prev events ≡ true
      → e.prev_hash ≡ tip (after prev events)
      → verify_from dumps sha256 prev (events ++ e ∷ []) ≡ true
  unfolding verify_from
  verify_from-append none [] e v t = ground (arith, str_eq_iff e.prev_hash "")
  verify_from-append (some p) [] e v t =
      ground (arith, str_eq_iff e.prev_hash (row_hash dumps sha256 p))
  verify_from-append none (x ∷ events) e v t = ground (arith, verify_from-append (some x) events e)
  verify_from-append (some p) (x ∷ events) e v t =
      ground (arith, verify_from-append (some x) events e)

  -- Every chain verifies, and its head holds the hash of its last event.
  pub record IsChained (trail : Trail) : Type 0 where
    pub verified : (c : Option ℕ) → verify_chain dumps sha256 (chain c trail.events) ≡ true
    pub headed : (c : Option ℕ) → last_hash c trail.heads ≡ tip (last_event (chain c trail.events))

  after_none : (o : Option AuditEvent) → tip (elim o [ none ↦ none | some l ↦ some l ]) ≡ tip o
  after_none none = refl
  after_none (some l) = refl

  abbrev event_of : Call → Option ℕ → Trail → AuditEvent
  event_of call c trail = record {
    pk = trail.next_pk;
    row = row_of call c trail.clock;
    prev_hash = last_hash c trail.heads;
    shipped_at = none;
  }

  pub append-IsChained :
      (call : Call) (c : Option ℕ) (trail : Trail)
      → IsChained trail
      → IsChained (append dumps sha256 call c trail).1
  unfolding append row_of verify_chain last_hash
  append-IsChained call c trail h = record {
    verified = λ c'.
        let new = event_of call c trail in
        rw (chain-append c' trail.events new) (elim (Bool-cases (same_chain c c')) [
          | inl on ↦ rw (on) (
              verify_from-append none (chain c' trail.events) new (h.verified c') (
                let eq : c ≡ c' = same_chain_iff c c' on in
                rw (eq) (h.headed c' ∙ sym (after_none (last_event (chain c' trail.events))))))
          | inr off ↦ rw (off) (h.verified c')
        ]);
    headed = λ c'.
        let new = event_of call c trail in
        let head : Head = record {
          chain = c;
          last_hash = row_hash dumps sha256 new;
          last_event = some new.pk;
        } in
        rw (chain-append c' trail.events new) (elim (Bool-cases (same_chain c c')) [
          | inl on ↦
              last_hash-put_head c' head trail.heads
              ∙ rw (on) (sym (ap tip (last_event-append (chain c' trail.events) new)))
          | inr off ↦ last_hash-put_head c' head trail.heads ∙ rw (off) (h.headed c')
        ]);
  }

  attempt-IsChained :
      (fails : ℕ → Bool) (call : Call) (c : Option ℕ) (left : ℕ) (trail : Trail)
      → IsChained trail
      → IsChained (attempt dumps sha256 fails call c left trail).1
  unfolding attempt
  attempt-IsChained fails call c zero trail h = h
  attempt-IsChained fails call c (suc left) trail h = elim (Bool-cases (fails left)) [
    | inl failed ↦ rw (failed) (attempt-IsChained fails call c left trail h)
    | inr taken ↦ rw (taken) (append-IsChained call c trail h)
  ]

  -- Whatever is audited, and whichever attempts the database refuses, every chain still verifies and
  -- its head holds the hash of its last event.
  pub audit-IsChained :
      (fails : ℕ → Bool) (call : Call) (trail : Trail)
      → IsChained trail
      → IsChained (audit dumps sha256 fails call trail).1
  unfolding audit
  audit-IsChained fails call trail h = elim (Option-cases (chain_of_call call)) [
    | inl refused ↦ rw (audit, refused) h
    | inr (c, resolved) ↦ rw (audit, resolved) (attempt-IsChained fails call c attempts trail h)
  ]
