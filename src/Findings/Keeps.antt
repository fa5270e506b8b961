-- ===== src/Findings/Keeps.antt =====
-- Every operation of core/findings.py keeps the inbox consistent.
use deploy_hub.Prelude.{
  ℕ, suc, String, ◌≡◌, refl, ap, ◌<◌, Bool, true, false, ◌||◌, Option, none, some, List, [], ◌∷◌,
  ◌++◌, ◌==◌, arith, str_eq_iff, if◌then◌else◌, first, any, All, Option-cases, Bool-cases, inl, inr,
}
use deploy_hub.Prelude.Table.{find}
use deploy_hub.Findings.{
  Finding, Fields, State, opened, acked, resolved, accepted, Note, Inbox, Action, filed, reopened,
  acknowledged, settled, risk_accepted, is_key, by_key, announce, save, created, refreshed, refresh,
  insert, finding, is_resolved, transition, allowed, ack, resolve, accept_risk, has_copy,
}
use deploy_hub.Findings.Text.{is_blank, strip}
use deploy_hub.Findings.Consistency.{
  find_row, UniquePks, UniqueKeys, state_of, IsConsistent, last_state-append, find-first,
  first-none-any, saved, find-saved_self, find-saved_ne, saved-UniquePks, saved-below,
  saved-UniqueKeys,
}

state_of-saved :
    (k : ℕ) (r old : Finding) (rows : List Finding)
    → find_row r.pk rows ≡ some old
    → state_of (find_row k (saved r rows))
      ≡ (if r.pk == k then some r.state else state_of (find_row k rows))
state_of-saved k r old rows e = ground (arith, find-saved_self r old rows e, find-saved_ne k r rows)

save-IsConsistent :
    (r old : Finding) (inbox : Inbox)
    → find_row r.pk inbox.rows ≡ some old
    → old.workspace ≡ r.workspace
    → old.fingerprint ≡ r.fingerprint
    → old.state ≡ r.state
    → IsConsistent inbox
    → IsConsistent (save r inbox)
unfolding save
save-IsConsistent r old inbox e sw sf st h = record {
  pks = saved-UniquePks r inbox.rows h.pks;
  below = saved-below inbox.next_pk r inbox.rows h.below;
  keys = saved-UniqueKeys r old inbox.rows h.pks h.keys e sw sf;
  same_trail = h.same_trail;
  told = λ k. ground (arith, h.told k, state_of-saved k r old inbox.rows e);
}

announce-save-IsConsistent :
    (action : Action) (r old : Finding) (inbox : Inbox)
    → find_row r.pk inbox.rows ≡ some old
    → old.workspace ≡ r.workspace
    → old.fingerprint ≡ r.fingerprint
    → IsConsistent inbox
    → IsConsistent (announce action r (save r inbox))
unfolding save announce
announce-save-IsConsistent action r old inbox e sw sf h = record {
  pks = saved-UniquePks r inbox.rows h.pks;
  below = saved-below inbox.next_pk r inbox.rows h.below;
  keys = saved-UniqueKeys r old inbox.rows h.pks h.keys e sw sf;
  same_trail =
      ap (λ (l : List Note). l ++ record { action = action; id = r.pk; state = r.state } ∷ [])
        h.same_trail;
  told = λ k. ground (
    arith,
    h.told k,
    state_of-saved k r old inbox.rows e,
    last_state-append k inbox.events (record { action = action; id = r.pk; state = r.state }),
  );
}

find-fresh :
    (n : ℕ) (rows : List Finding) → All (λ (x : Finding). x.pk < n) rows → find_row n rows ≡ none
unfolding find
find-fresh n [] h = refl
find-fresh n (x ∷ rows) h = ground (arith, find-fresh n rows)

find-snoc :
    (k : ℕ) (r : Finding) (rows : List Finding)
    → find_row r.pk rows ≡ none
    → find_row k (rows ++ r ∷ []) ≡ (if r.pk == k then some r else find_row k rows)
unfolding find
find-snoc k r [] e = ground arith
find-snoc k r (x ∷ rows) e = ground (arith, find-snoc k r rows)

snoc-UniquePks :
    (r : Finding) (rows : List Finding)
    → find_row r.pk rows ≡ none
    → UniquePks rows
    → UniquePks (rows ++ r ∷ [])
unfolding find
snoc-UniquePks r [] e u = (refl, tt)
snoc-UniquePks r (x ∷ rows) e u = ground (arith, snoc-UniquePks r rows, find-snoc x.pk r rows)

any-snoc :
    (p : Finding → Bool) (r : Finding) (rows : List Finding)
    → any p (rows ++ r ∷ []) ≡ (any p rows || p r)
any-snoc p r [] = ground arith
any-snoc p r (x ∷ rows) = ground (arith, any-snoc p r rows)

is_key_sym :
    (x r : Finding)
    → is_key x.workspace x.fingerprint r ≡ true
    → is_key r.workspace r.fingerprint x ≡ true
unfolding is_key
is_key_sym x r e =
    ground (arith, str_eq_iff r.fingerprint x.fingerprint, str_eq_iff x.fingerprint r.fingerprint)

snoc-UniqueKeys :
    (r : Finding) (rows : List Finding)
    → any (is_key r.workspace r.fingerprint) rows ≡ false
    → UniqueKeys rows
    → UniqueKeys (rows ++ r ∷ [])
snoc-UniqueKeys r [] e u = (refl, tt)
snoc-UniqueKeys r (x ∷ rows) e u = ground (
  arith,
  snoc-UniqueKeys r rows,
  any-snoc (is_key x.workspace x.fingerprint) r rows,
  is_key_sym x r,
)

snoc-below :
    (n : ℕ) (r : Finding) (rows : List Finding)
    → r.pk ≡ n
    → All (λ (x : Finding). x.pk < n) rows
    → All (λ (x : Finding). x.pk < suc n) (rows ++ r ∷ [])
snoc-below n r [] e h = ground arith
snoc-below n r (x ∷ rows) e h = ground (arith, snoc-below n r rows)

insert-IsConsistent :
    (r : Finding) (inbox : Inbox)
    → r.pk ≡ inbox.next_pk
    → first (is_key r.workspace r.fingerprint) inbox.rows ≡ none
    → IsConsistent inbox
    → IsConsistent (insert r inbox).1
unfolding insert announce
insert-IsConsistent r inbox e unseen h =
    let absent : find_row r.pk inbox.rows ≡ none =
      rw (e) (find-fresh inbox.next_pk inbox.rows h.below) in
    record {
      pks = snoc-UniquePks r inbox.rows absent h.pks;
      below = snoc-below inbox.next_pk r inbox.rows e h.below;
      keys =
          snoc-UniqueKeys r inbox.rows
            (first-none-any (is_key r.workspace r.fingerprint) inbox.rows unseen) h.keys;
      same_trail =
          ap (λ (l : List Note). l ++ record { action = filed; id = r.pk; state = r.state } ∷ [])
            h.same_trail;
      told = λ k. ground (
        arith,
        h.told k,
        find-snoc k r inbox.rows absent,
        last_state-append k inbox.events (record { action = filed; id = r.pk; state = r.state }),
      );
    }

refresh-IsConsistent :
    (source_engine : String) (fields : Fields) (existing : Finding) (inbox : Inbox)
    → find_row existing.pk inbox.rows ≡ some existing
    → IsConsistent inbox
    → IsConsistent (refresh source_engine fields existing inbox).1
unfolding refresh refreshed
refresh-IsConsistent source_engine fields existing inbox e h =
    let set : State → Finding = λ s. record existing {
      source_engine = source_engine;
      severity = fields.severity;
      entity = fields.entity;
      title = fields.title;
      body = fields.body;
      fix_action = fields.fix_action;
      last_seen = inbox.clock;
      state = s;
    } in
    elim (Bool-cases (has_copy fields.title fields.body fields.fix_action)) [
      | inr c ↦ rw (c) h
      | inl c ↦ elim (Bool-cases (is_resolved existing.state)) [
        | inl s ↦
            rw (c, s)
              (announce-save-IsConsistent reopened (set opened) existing inbox e refl refl h)
        | inr s ↦
            rw (c, s) (save-IsConsistent (set existing.state) existing inbox e refl refl refl h)
      ]
    ]

pub find-by_key :
    (w : ℕ) (fingerprint : String) (inbox : Inbox) (r : Finding)
    → UniquePks inbox.rows
    → by_key w fingerprint inbox ≡ some r
    → find_row r.pk inbox.rows ≡ some r
unfolding by_key
find-by_key w fingerprint inbox r u e = find-first (is_key w fingerprint) inbox.rows r u e

pub file-IsConsistent :
    (source_engine fingerprint : String) (w : ℕ) (fields : Fields) (now : ℕ) (inbox : Inbox)
    → by_key w fingerprint inbox ≡ none
    → IsConsistent inbox
    → IsConsistent (insert (created source_engine fingerprint w fields now inbox) inbox).1
unfolding created by_key
file-IsConsistent source_engine fingerprint w fields now inbox e h =
    insert-IsConsistent (created source_engine fingerprint w fields now inbox) inbox refl e h

-- A filing, created, refreshed, reopened or refused, keeps a consistent inbox consistent, under any
-- race that leaves a consistent inbox.
pub finding-IsConsistent :
    (race : Inbox → Inbox) (source_engine fingerprint : String) (workspace : Option ℕ)
    (fields : Fields) (inbox : Inbox)
    → IsConsistent (race inbox)
    → IsConsistent inbox
    → IsConsistent (finding race source_engine fingerprint workspace fields inbox).1
unfolding finding
finding-IsConsistent race source_engine fingerprint none fields inbox hr h = h
finding-IsConsistent race source_engine fingerprint (some w) fields inbox hr h =
    elim (Option-cases (by_key w fingerprint inbox)) [
      | inr (x, e) ↦
          rw (e, finding)
            (refresh-IsConsistent source_engine fields x inbox
              (find-by_key w fingerprint inbox x h.pks e) h)
      | inl e ↦ elim (Bool-cases (has_copy fields.title fields.body fields.fix_action)) [
        | inr c ↦ rw (e, c, finding) h
        | inl c ↦ elim (Option-cases (by_key w fingerprint (race inbox))) [
          | inr (x, e') ↦
              rw (e, c, e', finding)
                (refresh-IsConsistent source_engine fields x (race inbox)
                  (find-by_key w fingerprint (race inbox) x hr.pks e') hr)
          | inl e' ↦
              rw (e, c, e', finding)
                (file-IsConsistent source_engine fingerprint w fields inbox.clock (race inbox) e'
                  hr)
        ]
      ]
    ]

-- `r` may carry a new reason; its identity and its state are those stored.
transition-IsConsistent :
    (action : Action) (to : State) (r old : Finding) (inbox : Inbox)
    → find_row r.pk inbox.rows ≡ some old
    → old.workspace ≡ r.workspace
    → old.fingerprint ≡ r.fingerprint
    → IsConsistent inbox
    → IsConsistent (transition action to r inbox).1
unfolding transition
transition-IsConsistent action to r old inbox e sw sf h = elim (Bool-cases (allowed r.state to)) [
  | inl c ↦ rw (c) (announce-save-IsConsistent action (record r { state = to }) old inbox e sw sf h)
  | inr c ↦ rw (c) h
]

-- Acknowledging a row as it is stored, granted or refused, keeps a consistent inbox consistent.
pub ack-IsConsistent :
    (r : Finding) (inbox : Inbox)
    → find_row r.pk inbox.rows ≡ some r
    → IsConsistent inbox
    → IsConsistent (ack r inbox).1
unfolding ack
ack-IsConsistent r inbox e h = transition-IsConsistent acknowledged acked r r inbox e refl refl h

pub resolve-IsConsistent :
    (r : Finding) (inbox : Inbox)
    → find_row r.pk inbox.rows ≡ some r
    → IsConsistent inbox
    → IsConsistent (resolve r inbox).1
unfolding resolve
resolve-IsConsistent r inbox e h = transition-IsConsistent settled resolved r r inbox e refl refl h

-- Accepting the risk of a row as it is stored, granted or refused, keeps a consistent inbox consistent.
pub accept_risk-IsConsistent :
    (r : Finding) (reason : String) (inbox : Inbox)
    → find_row r.pk inbox.rows ≡ some r
    → IsConsistent inbox
    → IsConsistent (accept_risk r reason inbox).1
unfolding accept_risk
accept_risk-IsConsistent r reason inbox e h = elim (Bool-cases (is_blank reason)) [
  | inl c ↦ rw (c) h
  | inr c ↦ rw (c) (
      transition-IsConsistent risk_accepted accepted (record r { accepted_reason = strip reason }) r
        inbox e refl refl h)
]
