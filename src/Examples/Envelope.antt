-- ===== src/Examples/Envelope.antt =====
-- An envelope and a cache of nonces that keeps, for each key, the second it is released.
use deploy_hub.Prelude.{
  ℕ, ◌+◌, String, ◌≡◌, refl, sym, ap, inl, inr, Bool-cases, Bool, true, false, not, none, some, [],
  ◌∷◌, ltb, str_eq, str_eq_iff, if◌then◌else◌, arith,
}
use deploy_hub.Audit.{Row}
use deploy_hub.Envelope.{
  Body, Envelope, Expected, Outcome, returned, Nonces, mismatch, wrap, State, reauthorize, or_zero,
  task_differs, resource_differs, workspace_differs, or_empty,
}
use deploy_hub.Envelope.Replay.{is_returned, Attempt, after, replay_is_refused, wrap-reauthorize}

abbrev Until : Type 0
Until = String → ℕ

abbrev add_nonce : String → ℕ → ℕ → Until → Bool × Until
add_nonce k t now c =
    if ltb now (c k) then (false, c) else (true, λ x. if str_eq x k then now + t else c x)

add_kept :
    (k k' : String) (t now later : ℕ) (c : Until)
    → ltb later (c k) ≡ true
    → ltb later ((add_nonce k' t now c).1 k) ≡ true
add_kept k k' t now later c h = elim (Bool-cases (ltb now (c k'))) [
  | inl there ↦ rw (there) h
  | inr gone ↦ elim (Bool-cases (str_eq k k')) [
    | inr other ↦ rw (gone, other) h
    | inl same ↦
        let there : ltb later (c k') ≡ true = rw (sym ((str_eq_iff k k').0 same)) h in
        rw (gone, same) (ground arith)
  ]
]

add_until :
    (k : String) (t now later : ℕ) (c : Until)
    → ltb now (c k) ≡ false
    → ltb later ((add_nonce k t now c).1 k) ≡ ltb later (now + t)
add_until k t now later c gone =
    let same : str_eq k k ≡ true = (str_eq_iff k k).1 refl in rw (gone, same) refl

add_new : (k : String) (t now : ℕ) (c : Until) → (add_nonce k t now c).0 ≡ not (ltb now (c k))
add_new k t now c = ground arith

abbrev table : Nonces
table = record {
  Cache = Until;
  add = add_nonce;
  held = λ now k c. ltb now (c k);
  add_held = add_new;
  held_kept = add_kept;
  held_until = λ k t now later c order. add_until k t now later c;
}

abbrev dumps : Body → String
dumps b = or_empty b.task

abbrev hmac : String → String
hmac t = t

abbrev row_dumps : Row → String
row_dumps row = row.action

abbrev reliable : ℕ → Bool
reliable k = false

abbrev start : State table
start = record {
  cache = λ k. 0;
  trail = record { events = []; heads = []; next_pk = 1; clock = 5 };
}

abbrev envelope : Envelope
envelope = wrap dumps hmac "deploy" (some 1) "site" "7" "hub" 300 100 "aa"

abbrev expected : Expected
expected = record {
  resource = some (record { workspace_id = some 1; workspace_of = none });
  task = some "deploy";
  resource_id = some "7";
}

abbrev call : ℕ → State table → Outcome × State table
call now s =
    reauthorize dumps hmac table row_dumps hmac hmac reliable expected now (some envelope) s

nothing_differs : mismatch expected envelope.body ≡ none
unfolding mismatch task_differs resource_differs workspace_differs or_empty wrap
nothing_differs = refl

wrap-reauthorize_example : (call 110 start).0 ≡ returned envelope.body
wrap-reauthorize_example =
    wrap-reauthorize dumps hmac table row_dumps hmac hmac reliable expected "deploy" (some 1) "site"
      "7" "hub" 300 100 "aa" 110 start (omega arith) (omega arith) refl nothing_differs

call_returns : is_returned (call 110 start).0 ≡ true
call_returns = ap is_returned wrap-reauthorize_example

abbrev other : Attempt
other = record { fails = reliable; expected = expected; now = 120; envelope = none }

replay_is_refused_example :
    is_returned
      (reauthorize dumps hmac table row_dumps hmac hmac reliable expected 130
        (some envelope)
        (after dumps hmac table row_dumps hmac hmac (other ∷ []) (call 110 start).1)).0
    ≡ false
unfolding wrap or_zero
replay_is_refused_example =
    replay_is_refused dumps hmac table row_dumps hmac hmac reliable reliable expected expected 110
      130 envelope (other ∷ []) start (omega arith) call_returns (omega arith)
