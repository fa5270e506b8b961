-- ===== src/Examples/Audit.antt =====
-- The audit chains with a digest that is not a real one: a fixed width, and then one that keeps the text.
use text.Mathlib.TextLemmas.{length-append}
use Prim.Native.String.{◌++◌ as ◌<>◌, count}
use deploy_hub.Prelude.{
  ℕ, String, ◌≡◌, ◌≢◌, List, str_eq, map, inl, inr, Bool-cases, refl, ap, Bool, true, false, Option,
  none, some, [], arith, if◌then◌else◌, is_some, length,
}
use deploy_hub.Audit.{
  AuditEvent, row_hash, Scope, Row, Trail, Call, raised, workspace_required, audit, append,
  verify_chain, verify_from, chain_of_call, row_of, last_hash, put_head, find_head, same_chain,
}
use deploy_hub.Audit.Chain.{IsChained, audit-IsChained, append-IsChained, chain, last_event}
use deploy_hub.Audit.Evidence.{
  verify_chain_evidence, first_of_chain_breaks_walk, has_clash, clash, texts,
}
use deploy_hub.Audit.Ship.{Store, shipped, ship, pending, verify_shipped}
use deploy_hub.Audit.Ship.Mirror.{Mirrors}
use deploy_hub.Audit.Ship.Verified.{ship-verify_shipped}
use deploy_hub.Findings.Text.{is_blank, is_space}

abbrev dumps : Row → String
dumps row = row.action

abbrev digest : String → String
digest t = "d" <> t

abbrev call : Option ℕ → String → Call
call w action = record {
  action = action;
  subject = none;
  actor = none;
  source = "system";
  severity = "info";
  source_ip = none;
  workspace = w;
  scope = none;
  partner = none;
  detail = "";
}

abbrev no_trail : Trail
no_trail = record { events = []; heads = []; next_pk = 1; clock = 5 }

abbrev reliable : ℕ → Bool
reliable k = false

no_trail-IsChained : IsChained dumps digest no_trail
unfolding verify_chain verify_from last_hash
no_trail-IsChained = record { verified = λ c. refl; headed = λ c. refl }

abbrev scoped : Call
scoped = record (call none "x") { scope = some Scope.workspace }

workspace_is_required : (audit dumps digest reliable scoped no_trail).0 ≡ raised workspace_required
unfolding audit chain_of_call
workspace_is_required = refl

audit-IsChained_example :
    IsChained dumps digest (audit dumps digest reliable (call (some 1) "a") no_trail).1
audit-IsChained_example =
    audit-IsChained dumps digest reliable (call (some 1) "a") no_trail no_trail-IsChained

abbrev one : Trail
one = (append dumps digest (call (some 1) "a") (some 1) no_trail).1

one-IsChained : IsChained dumps digest one
one-IsChained =
    append-IsChained dumps digest (call (some 1) "a") (some 1) no_trail no_trail-IsChained

-- Two events of a chain under a digest of one digit, and the same events once they are shipped.
abbrev one_digit : String → String
one_digit t = if str_eq t "a" then "0" else "1"

one_digit_width : (t : String) → count (one_digit t) ≡ 1
one_digit_width t = elim (Bool-cases (str_eq t "a")) [
  | inl same ↦ rw (same) refl
  | inr other ↦ rw (other) refl
]

abbrev two_events : Trail
two_events =
    (append dumps one_digit (call (some 1) "b") (some 1)
      (append dumps one_digit (call (some 1) "a") (some 1) no_trail).1).1

abbrev when_shipped : List AuditEvent → List AuditEvent
when_shipped = map (λ (e : AuditEvent). record e { shipped_at = some 9 })

two-verified : verify_chain dumps one_digit two_events.events ≡ true
unfolding verify_chain verify_from append row_of row_hash last_hash put_head find_head same_chain
two-verified = refl

shipped-verified : verify_chain dumps one_digit (when_shipped two_events.events) ≡ true
unfolding verify_chain verify_from append row_of row_hash last_hash put_head find_head same_chain
shipped-verified = refl

verify_chain_evidence_example :
    texts dumps one_digit two_events.events ≡ texts dumps one_digit (when_shipped two_events.events)
unfolding has_clash clash append row_of row_hash last_hash put_head find_head same_chain
verify_chain_evidence_example =
    verify_chain_evidence dumps one_digit 1 one_digit_width two_events.events
      (when_shipped two_events.events) refl refl two-verified shipped-verified refl

-- Another first event is told by the hash that the second one names.
abbrev forged : List AuditEvent → List AuditEvent
forged = map (λ (e : AuditEvent). record e { row = record e.row { action = "b" } })

test_forged : verify_chain dumps one_digit (forged two_events.events) ≡ false
unfolding verify_chain verify_from append row_of row_hash last_hash put_head find_head same_chain
test_forged = refl

digest_not_empty : (t : String) → digest t ≢ ""
digest_not_empty t e = absurd (ground (arith, ap count e, length-append "d" t))

one_has_an_event : is_some (last_event one.events) ≡ true
unfolding append
one_has_an_event = refl

system_has_no_event : chain none one.events ≡ []
unfolding append row_of same_chain
system_has_no_event = refl

first_of_chain_breaks_walk_example :
    verify_chain dumps digest (append dumps digest (call none "b") none one).1.events ≡ false
first_of_chain_breaks_walk_example =
    first_of_chain_breaks_walk dumps digest (call none "b") none one digest_not_empty one-IsChained
      one_has_an_event system_has_no_event

abbrev reached : ℕ → Bool
reached k = true

abbrev locked : Store
locked = record { objects = []; object_lock = true; versioning = true }

one-Mirrors : Mirrors dumps digest (pending one.events) one locked
unfolding append row_of last_hash put_head find_head
one-Mirrors = record {
  done = [];
  split = refl;
  all_done = refl;
  none_done = refl;
  mirrored = refl;
  unique = (refl, tt);
}

trail_named : is_blank "trail" ≡ false
unfolding is_blank is_space
trail_named = refl

ship-verify_shipped_example :
    let run = ship dumps digest reached "trail" one locked in
    (run.0 ≡ shipped (length (pending one.events)))
    × (pending run.1.events ≡ [])
    × (verify_shipped dumps digest run.2
        ≡ (if verify_chain dumps digest run.1.events then some (length run.1.events) else none))
ship-verify_shipped_example =
    ship-verify_shipped dumps digest reached "trail" one locked (λ k. refl) trail_named refl refl
      one-Mirrors
