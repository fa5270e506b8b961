-- ===== src/Noise/Delivered.antt =====
-- A batch that deliver_grouped of monitor/pager.py has sent is not sent again.
use deploy_hub.Prelude.{
  ℕ, String, ◌≡◌, refl, ap, ◌∙◌, Bool, true, false, not, ◌&&◌, ◌||◌, some, List, [], ◌∷◌, ◌==◌, ltb,
  arith, str_eq, str_eq_iff, ◌⊎◌, any, all, filter, length, is_some, Option-cases, Bool-cases, inl,
  inr,
}
use deploy_hub.Findings.{Finding, Inbox, by_key, is_key}
use deploy_hub.Findings.Consistency.{first_holds}
use deploy_hub.Noise.State.{Push, Noise}
use deploy_hub.Noise.Group.{
  Batch, is_pending, gather, is_among, mark_events, mark_p2_delivered_fps, fingerprints, group_of,
  group_p2, deliver_rows, deliver_batch, deliver_grouped, same_key,
}

-- Events whose rows are gone gather nothing.
gather-gone :
    (inbox : Inbox) (seen events : List Push)
    → all (λ (p : Push). not (is_some (by_key p.workspace p.fingerprint inbox))) events ≡ true
    → gather inbox seen events ≡ []
unfolding gather
gather-gone inbox seen [] h = refl
gather-gone inbox seen (p ∷ events) h =
    elim (Option-cases (by_key p.workspace p.fingerprint inbox)) [
      | inl e ↦
          ground (arith, e, h, gather-gone inbox seen events, gather-gone inbox (p ∷ seen) events)
      | inr (r, e) ↦ absurd (ground (arith, e, h))
    ]

by_key-fingerprint :
    (w : ℕ) (f : String) (inbox : Inbox) (r : Finding)
    → by_key w f inbox ≡ some r
    → r.fingerprint ≡ f
unfolding by_key is_key
by_key-fingerprint w f inbox r e =
    ground (arith, first_holds (is_key w f) inbox.rows r e, str_eq_iff r.fingerprint f)

same_workspace : (p q : Push) → same_key p q ≡ true → q.workspace ≡ p.workspace
same_workspace p q h = ground (arith, h)

same_fingerprint : (p q : Push) → same_key p q ≡ true → q.fingerprint ≡ p.fingerprint
same_fingerprint p q h = ground (arith, h, str_eq_iff p.fingerprint q.fingerprint)

same_by_key :
    (inbox : Inbox) (p q : Push)
    → same_key p q ≡ true
    → by_key q.workspace q.fingerprint inbox ≡ by_key p.workspace p.fingerprint inbox
same_by_key inbox p q h =
    ap (λ (w : ℕ). by_key w q.fingerprint inbox) (same_workspace p q h)
    ∙ ap (λ (f : String). by_key p.workspace f inbox) (same_fingerprint p q h)

abbrev any_at : ℕ → String → List Push → Bool
any_at w f = any (λ (x : Push). w == x.workspace && str_eq f x.fingerprint)

same_any :
    (p q : Push) (seen : List Push)
    → same_key p q ≡ true
    → any (same_key q) seen ≡ any (same_key p) seen
same_any p q seen h =
    ap (λ (w : ℕ). any_at w q.fingerprint seen) (same_workspace p q h)
    ∙ ap (λ (f : String). any_at p.workspace f seen) (same_fingerprint p q h)

-- The row of an event that was not seen before is gathered.
gather-finds :
    (inbox : Inbox) (p : Push) (r : Finding) (seen events : List Push)
    → by_key p.workspace p.fingerprint inbox ≡ some r
    → any (same_key p) events ≡ true
    → any (same_key p) seen ≡ false
    → is_among (fingerprints (gather inbox seen events)) p.fingerprint ≡ true
unfolding gather is_among
gather-finds inbox p r seen [] e h u = absurd (cc)
gather-finds inbox p r seen (q ∷ events) e h u = elim (Bool-cases (same_key p q)) [
  | inr other ↦ ground (
    arith,
    other,
    h,
    u,
    e,
    gather-finds inbox p r seen events e,
    gather-finds inbox p r (q ∷ seen) events e,
  )
  | inl same ↦
      let here : by_key q.workspace q.fingerprint inbox ≡ some r = same_by_key inbox p q same ∙ e in
      let new : any (same_key q) seen ≡ false = same_any p q seen same ∙ u in
      ground (
        arith,
        here,
        new,
        by_key-fingerprint q.workspace q.fingerprint inbox r here,
        same_fingerprint p q same,
        str_eq_iff p.fingerprint r.fingerprint,
      )
]

-- What is still pending once the rows that were gathered are marked.
still_gone :
    (inbox : Inbox) (window now : ℕ) (fps : List String) (events : List Push)
    → all
        (λ (p : Push).
          not (is_pending window now p)
          || (not (is_some (by_key p.workspace p.fingerprint inbox)) || is_among fps p.fingerprint))
        events
      ≡ true
    → all
        (λ (p : Push). not (is_some (by_key p.workspace p.fingerprint inbox)))
        (filter (is_pending window now) (mark_events fps events))
      ≡ true
unfolding mark_events is_pending
still_gone inbox window now fps [] h = refl
still_gone inbox window now fps (p ∷ events) h =
    ground (arith, still_gone inbox window now fps events, h)

-- A pending event is among the pending ones.
any_pending :
    (window now : ℕ) (p : Push) (events : List Push)
    → is_pending window now p ≡ true
    → any (same_key p) (p ∷ events) ≡ true
any_pending window now p events h = ground (arith, str_eq_iff p.fingerprint p.fingerprint)

List_cases :
    (rows : List Finding)
    → (rows ≡ []) ⊎ ((r : Finding) × ((rest : List Finding) × (rows ≡ r ∷ rest)))
List_cases [] = inl refl
List_cases (r ∷ rows) = inr (r, (rows, refl))

module _ (window now : ℕ) where
  abbrev listed : List Push → Push → Bool
  listed pending q = not (is_pending window now q) || any (same_key q) pending

  weaken :
      (p : Push) (pending events : List Push)
      → all (listed pending) events ≡ true
      → all (listed (p ∷ pending)) events ≡ true
  weaken p pending [] h = refl
  weaken p pending (q ∷ events) h = ground (arith, weaken p pending events, h)

  all-listed :
      (events : List Push) → all (listed (filter (is_pending window now) events)) events ≡ true
  all-listed [] = refl
  all-listed (p ∷ events) =
      let rest = filter (is_pending window now) events in
      elim (Bool-cases (is_pending window now p)) [
        | inl h ↦
            let kept : filter (is_pending window now) (p ∷ events) ≡ p ∷ rest = rw (h) refl in
            ap (λ (l : List Push). all (listed l) (p ∷ events)) kept
            ∙ ground
                (arith, any_pending window now p rest h, weaken p rest events (all-listed events))
        | inr h ↦
            let dropped : filter (is_pending window now) (p ∷ events) ≡ rest = rw (h) refl in
            ap (λ (l : List Push). all (listed l) (p ∷ events)) dropped
            ∙ ground (arith, h, all-listed events)
      ]

  all_gathered :
      (inbox : Inbox) (pending events : List Push)
      → all (listed pending) events ≡ true
      → all
          (λ (p : Push).
            not (is_pending window now p)
            || (not (is_some (by_key p.workspace p.fingerprint inbox))
                || is_among (fingerprints (gather inbox [] pending)) p.fingerprint))
          events
        ≡ true
  all_gathered inbox pending [] h = refl
  all_gathered inbox pending (p ∷ events) h =
      elim (Option-cases (by_key p.workspace p.fingerprint inbox)) [
        | inl e ↦ ground (arith, e, h, all_gathered inbox pending events)
        | inr (r, e) ↦
            ground
              (arith, e, h, all_gathered inbox pending events, gather-finds inbox p r [] pending e)
      ]

  pending_rows : Noise → List Finding
  pending_rows s = gather s.inbox [] (filter (is_pending window now) s.pushes)

  marked-gone :
      (s : Noise) → pending_rows (mark_p2_delivered_fps (fingerprints (pending_rows s)) s) ≡ []
  unfolding pending_rows mark_p2_delivered_fps
  marked-gone s =
      let pending = filter (is_pending window now) s.pushes in
      let fps = fingerprints (gather s.inbox [] pending) in
      gather-gone s.inbox [] (filter (is_pending window now) (mark_events fps s.pushes)) (
        still_gone s.inbox window now fps s.pushes
          (all_gathered s.inbox pending s.pushes (all-listed s.pushes)))

  module _ (publish : Batch → Bool) where
    none_delivered :
        (pending : List Push) (s : Noise)
        → deliver_batch publish (group_of false pending [] s).0 (group_of false pending [] s).1
          ≡ (0, s)
    unfolding deliver_batch deliver_rows group_of
    none_delivered [] s = refl
    none_delivered (p ∷ pending) s = refl

    some_delivered :
        (p : Push) (pending : List Push) (r : Finding) (rows : List Finding) (s : Noise)
        → ((b : Batch) → publish b ≡ true)
        → (deliver_batch publish
            (group_of false (p ∷ pending) (r ∷ rows) s).0
            (group_of false (p ∷ pending) (r ∷ rows) s).1).1
          ≡ mark_p2_delivered_fps (fingerprints (r ∷ rows)) s
    unfolding deliver_batch deliver_rows group_of
    some_delivered p pending r rows s works =
        let b : Batch = record { findings = r ∷ rows; grouped = ltb 1 (length (r ∷ rows)) } in
        rw (works b) refl

    nothing_found :
        (s : Noise) → pending_rows s ≡ [] → deliver_grouped publish window now s ≡ (0, s)
    unfolding deliver_grouped group_p2 pending_rows
    nothing_found s e =
        let pending = filter (is_pending window now) s.pushes in
        ap
          (λ (l : List Finding).
            deliver_batch publish (group_of false pending l s).0 (group_of false pending l s).1)
          e
        ∙ none_delivered pending s

    found_of :
        (pending : List Push) (r : Finding) (rows : List Finding) (s : Noise)
        → ((b : Batch) → publish b ≡ true)
        → gather s.inbox [] pending ≡ r ∷ rows
        → (deliver_batch publish
            (group_of false pending (r ∷ rows) s).0
            (group_of false pending (r ∷ rows) s).1).1
          ≡ mark_p2_delivered_fps (fingerprints (r ∷ rows)) s
    unfolding gather
    found_of [] r rows s works e = absurd (cc)
    found_of (p ∷ pending) r rows s works e = some_delivered p pending r rows s works

    all_found :
        (s : Noise) (r : Finding) (rows : List Finding)
        → ((b : Batch) → publish b ≡ true)
        → pending_rows s ≡ r ∷ rows
        → (deliver_grouped publish window now s).1
          ≡ mark_p2_delivered_fps (fingerprints (pending_rows s)) s
    unfolding deliver_grouped group_p2 pending_rows
    all_found s r rows works e =
        let pending = filter (is_pending window now) s.pushes in
        rw (e) (found_of pending r rows s works e)

    -- When what is published goes out, a second delivery at the same instant has nothing to send.
    pub deliver_grouped_again :
        (s : Noise)
        → ((b : Batch) → publish b ≡ true)
        → (deliver_grouped publish window now (deliver_grouped publish window now s).1).0 ≡ 0
    deliver_grouped_again s works = elim (List_cases (pending_rows s)) [
      | inl e ↦ rw (nothing_found s e) (ap (λ (x : ℕ × Noise). x.0) (nothing_found s e))
      | inr (r, (rows, e)) ↦ rw (all_found s r rows works e) (
          ap (λ (x : ℕ × Noise). x.0)
            (nothing_found (mark_p2_delivered_fps (fingerprints (pending_rows s)) s)
              (marked-gone s)))
    ]
