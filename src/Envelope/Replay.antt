-- ===== src/Envelope/Replay.antt =====
-- Round trip and replay of the envelopes of core/task_envelope.py.
use deploy_hub.Prelude.{
  ℕ, ◌+◌, ◌-◌, ◌≤◌, String, ◌≡◌, ◌≢◌, inl, inr, refl, ap, ◌∙◌, Bool, true, false, not, ◌||◌, Option,
  none, some, List, [], ◌∷◌, ltb, str_eq_iff, arith, Bool-cases, Option-cases,
}
use deploy_hub.Audit.{Row, Result, written, raised}
use deploy_hub.Envelope.{
  Body, Envelope, Expected, Reason, Outcome, returned, refused, audit_failed, Nonces, or_zero,
  nonce_key, max, mismatch, wrap, verify, State, reject, admit, reauthorize, replay,
}

abbrev pub is_returned : Outcome → Bool
is_returned (returned b) = true
is_returned (refused r) = false
is_returned audit_failed = false

-- What a later call brings.
pub record Attempt : Type 0 where
  pub fails : ℕ → Bool
  pub expected : Expected
  pub now : ℕ
  pub envelope : Option Envelope

-- A nonce that was added at `now` is held up to the last second before the envelope expires.
held_before :
    (expires now later : ℕ)
    → ltb expires now ≡ false
    → ltb expires later ≡ false
    → later ≢ expires
    → ltb later (now + max (expires - now) 1) ≡ true
unfolding max
held_before expires now later p q off = ground arith

module _ (dumps : Body → String) (hmac : String → String) where
  -- An envelope is within its time.
  abbrev pub in_time : ℕ → Body → Bool
  in_time now b = not (ltb (or_zero b.expires_at) now || ltb now (or_zero b.issued_at - 30))

  verify-none :
      (now : ℕ) (e : Envelope) → verify dumps hmac now (some e) ≡ none → in_time now e.body ≡ true
  unfolding verify
  verify-none now e v = ground arith

  verify-wrap :
      (task : String) (workspace_id : Option ℕ) (resource_type resource_id producer : String)
      (ttl issued : ℕ) (nonce : String) (now : ℕ)
      → issued ≤ now + 30
      → now ≤ issued + ttl
      → verify dumps hmac now (
          some
            (wrap dumps hmac task workspace_id resource_type resource_id producer ttl issued nonce))
        ≡ none
  unfolding verify wrap or_zero
  verify-wrap task workspace_id resource_type resource_id producer ttl issued nonce now early late =
      let sig = hmac (
        dumps
          (wrap dumps hmac task workspace_id resource_type resource_id producer ttl issued
            nonce).body) in
      ground (arith, str_eq_iff sig sig)

  module _ (nonces : Nonces) (row_dumps : Row → String) (sha256 : String → String)
      (reason_json : String → String) where
    abbrev pub S : Type 0
    S = State nonces

    abbrev call : (ℕ → Bool) → Expected → ℕ → Option Envelope → S → Outcome × S
    call = reauthorize dumps hmac nonces row_dumps sha256 reason_json

    -- The state after the attempts, in their order.
    abbrev pub after : List Attempt → S → S
    after [] s = s
    after (a ∷ attempts) s = after attempts (call a.fails a.expected a.now a.envelope s).1

    abbrev ttl_of : ℕ → Body → ℕ
    ttl_of now b = max (or_zero b.expires_at - now) 1

    abbrev added : ℕ → Body → S → Bool × nonces.Cache
    added now b s = nonces.add (nonce_key b.nonce) (ttl_of now b) now s.cache

    abbrev refuse : (ℕ → Bool) → Reason → Option ℕ → S → Outcome × S
    refuse = reject dumps hmac nonces row_dumps sha256 reason_json

    abbrev let_in : (ℕ → Bool) → Expected → ℕ → Body → S → Outcome × S
    let_in = admit dumps hmac nonces row_dumps sha256 reason_json

    is_returned_result :
        (result : Result) (reason : Reason)
        → is_returned (elim result [ written e ↦ refused reason | raised e ↦ audit_failed ]) ≡ false
    is_returned_result (written e) reason = refl
    is_returned_result (raised e) reason = refl

    reject-is_returned :
        (fails : ℕ → Bool) (reason : Reason) (w : Option ℕ) (s : S)
        → is_returned (refuse fails reason w s).0 ≡ false
    unfolding reject
    reject-is_returned fails reason w s = is_returned_result _ reason

    -- What is left of an admission is one add to the cache.
    admit-cache :
        (fails : ℕ → Bool) (expected : Expected) (now : ℕ) (b : Body) (s : S)
        → (let_in fails expected now b s).1.cache ≡ (added now b s).1
    unfolding admit reject
    admit-cache fails expected now b s = elim (Bool-cases (added now b s).0) [
      | inr held_yet ↦ rw (held_yet) refl
      | inl new ↦ elim (Option-cases (mismatch expected b)) [
        | inl fits ↦ rw (new, fits) refl
        | inr (reason, differs) ↦ rw (new, differs) refl
      ]
    ]

    admit-returned :
        (fails : ℕ → Bool) (expected : Expected) (now : ℕ) (b : Body) (s : S)
        → (added now b s).0 ≡ false
        → is_returned (let_in fails expected now b s).0 ≡ false
    unfolding admit
    admit-returned fails expected now b s held_yet =
        rw (held_yet)
          (reject-is_returned fails replay none (record s { cache = (added now b s).1 }))

    reauthorize_good :
        (fails : ℕ → Bool) (expected : Expected) (now : ℕ) (e : Envelope) (s : S)
        → verify dumps hmac now (some e) ≡ none
        → call fails expected now (some e) s ≡ let_in fails expected now e.body s
    unfolding reauthorize
    reauthorize_good fails expected now e s good = rw (reauthorize, good) refl

    reauthorize_bad :
        (fails : ℕ → Bool) (expected : Expected) (now : ℕ) (e : Envelope) (s : S) (reason : Reason)
        → verify dumps hmac now (some e) ≡ some reason
        → call fails expected now (some e) s ≡ refuse fails reason none s
    unfolding reauthorize
    reauthorize_bad fails expected now e s reason bad = rw (reauthorize, bad) refl

    held_of_call :
        (k : String) (later : ℕ) (fails : ℕ → Bool) (expected : Expected) (now : ℕ) (e : Envelope)
        (s : S)
        → nonces.held later k s.cache ≡ true
        → nonces.held later k (call fails expected now (some e) s).1.cache ≡ true
    unfolding reject
    held_of_call k later fails expected now e s h =
        elim (Option-cases (verify dumps hmac now (some e))) [
          | inr (reason, bad) ↦ rw (reauthorize_bad fails expected now e s reason bad) h
          | inl good ↦
              rw
                (
                  reauthorize_good fails expected now e s good,
                  admit-cache fails expected now e.body s,
                )
                (nonces.held_kept k (nonce_key e.body.nonce) (ttl_of now e.body) now later s.cache
                  h)
        ]

    reauthorize-held :
        (k : String) (later : ℕ) (fails : ℕ → Bool) (expected : Expected) (now : ℕ)
        (e : Option Envelope) (s : S)
        → nonces.held later k s.cache ≡ true
        → nonces.held later k (call fails expected now e s).1.cache ≡ true
    unfolding reauthorize reject
    reauthorize-held k later fails expected now none s h = h
    reauthorize-held k later fails expected now (some e) s h =
        held_of_call k later fails expected now e s h

    after-held :
        (k : String) (later : ℕ) (attempts : List Attempt) (s : S)
        → nonces.held later k s.cache ≡ true
        → nonces.held later k (after attempts s).cache ≡ true
    after-held k later [] s h = h
    after-held k later (a ∷ attempts) s h =
        after-held k later attempts (call a.fails a.expected a.now a.envelope s).1
          (reauthorize-held k later a.fails a.expected a.now a.envelope s h)

    admit-fits :
        (fails : ℕ → Bool) (expected : Expected) (now : ℕ) (b : Body) (s : S)
        → nonces.held now (nonce_key b.nonce) s.cache ≡ false
        → mismatch expected b ≡ none
        → (let_in fails expected now b s).0 ≡ returned b
    unfolding admit
    admit-fits fails expected now b s free fits =
        let new : (added now b s).0 ≡ true =
          ground (arith, free, nonces.add_held (nonce_key b.nonce) (ttl_of now b) now s.cache) in
        rw (new, fits) refl

    -- What a call that returned has shown, and the nonce that it leaves.
    returned_held :
        (fails : ℕ → Bool) (expected : Expected) (now later : ℕ) (e : Envelope) (s : S)
        → now ≤ later
        → is_returned (call fails expected now (some e) s).0 ≡ true
        → (verify dumps hmac now (some e) ≡ none)
          × (nonces.held later (nonce_key e.body.nonce) (call fails expected now (some e) s).1.cache
              ≡ ltb later (now + ttl_of now e.body))
    returned_held fails expected now later e s order ok =
        elim (Option-cases (verify dumps hmac now (some e))) [
          | inr (reason, bad) ↦ absurd (
              ground (
                arith,
                reject-is_returned fails reason none s,
                ok,
                ap (λ (r : Outcome × S). is_returned r.0)
                    (reauthorize_bad fails expected now e s reason bad),
              ))
          | inl good ↦ elim (Bool-cases (added now e.body s).0) [
            | inr held_yet ↦ absurd (
                ground (
                  arith,
                  admit-returned fails expected now e.body s held_yet,
                  ok,
                  ap (λ (r : Outcome × S). is_returned r.0)
                      (reauthorize_good fails expected now e s good),
                ))
            | inl new ↦
                let free : nonces.held now (nonce_key e.body.nonce) s.cache ≡ false = ground (
                  arith,
                  nonces.add_held (nonce_key e.body.nonce) (ttl_of now e.body) now s.cache,
                ) in
                (
                  good,
                  rw
                      (
                        reauthorize_good fails expected now e s good,
                        admit-cache fails expected now e.body s,
                      )
                      (nonces.held_until (nonce_key e.body.nonce) (ttl_of now e.body) now later
                        s.cache order free),
                )
          ]
        ]

    held_is_refused :
        (fails : ℕ → Bool) (expected : Expected) (now : ℕ) (e : Envelope) (s : S)
        → nonces.held now (nonce_key e.body.nonce) s.cache ≡ true
        → is_returned (call fails expected now (some e) s).0 ≡ false
    held_is_refused fails expected now e s held =
        elim (Option-cases (verify dumps hmac now (some e))) [
          | inr (reason, bad) ↦
              rw (reauthorize_bad fails expected now e s reason bad)
                (reject-is_returned fails reason none s)
          | inl good ↦ rw (reauthorize_good fails expected now e s good) (
              admit-returned fails expected now e.body s (
                ground (
                  arith,
                  held,
                  nonces.add_held (nonce_key e.body.nonce) (ttl_of now e.body) now s.cache,
                )))
        ]

    -- Once a call has returned, every later call with the same envelope, and whatever calls come
    -- between and whatever is expected, does not return, unless it comes in the very second of expires_at.
    pub replay_is_refused :
        (fails fails' : ℕ → Bool) (expected expected' : Expected) (now later : ℕ) (e : Envelope)
        (attempts : List Attempt) (s : S)
        → now ≤ later
        → is_returned (call fails expected now (some e) s).0 ≡ true
        → later ≢ or_zero e.body.expires_at
        → is_returned
            (call fails' expected' later
              (some e)
              (after attempts (call fails expected now (some e) s).1)).0
          ≡ false
    replay_is_refused fails fails' expected expected' now later e attempts s order ok off =
        let s1 = (call fails expected now (some e) s).1 in
        let left = returned_held fails expected now later e s order ok in
        elim (Option-cases (verify dumps hmac later (some e))) [
          | inr (reason, bad) ↦
              rw (reauthorize_bad fails' expected' later e (after attempts s1) reason bad)
                (reject-is_returned fails' reason none (after attempts s1))
          | inl good ↦
              let within : ltb later (now + ttl_of now e.body) ≡ true =
                held_before (or_zero e.body.expires_at) now later
                  (ground (arith, verify-none now e left.0))
                  (ground (arith, verify-none later e good)) off in
              held_is_refused fails' expected' later e (after attempts s1)
                (after-held (nonce_key e.body.nonce) later attempts s1 (left.1 ∙ within))
        ]

    -- What wrap signs at `issued` is returned by reauthorize from 30 seconds before that up to `ttl` seconds
    -- after it, as the body that was signed, if the nonce is not held and nothing expected differs.
    pub wrap-reauthorize :
        (fails : ℕ → Bool) (expected : Expected) (task : String) (workspace_id : Option ℕ)
        (resource_type resource_id producer : String) (ttl issued : ℕ) (nonce : String) (now : ℕ)
        (s : S)
        → issued ≤ now + 30
        → now ≤ issued + ttl
        → nonces.held now (nonce_key (some nonce)) s.cache ≡ false
        → mismatch expected
            (wrap dumps hmac task workspace_id resource_type resource_id producer ttl issued
              nonce).body
          ≡ none
        → (call fails expected now
            (some (
              wrap dumps hmac task workspace_id resource_type resource_id producer ttl issued
                nonce))
            s).0
          ≡ returned
              (wrap dumps hmac task workspace_id resource_type resource_id producer ttl issued
                nonce).body
    unfolding wrap
    wrap-reauthorize fails expected task workspace_id resource_type resource_id producer ttl issued
          nonce now s early late free fits =
        let e =
          wrap dumps hmac task workspace_id resource_type resource_id producer ttl issued nonce in
        let good =
          verify-wrap task workspace_id resource_type resource_id producer ttl issued nonce now
            early late in
        rw (reauthorize_good fails expected now e s good)
          (admit-fits fails expected now e.body s free fits)
