-- ===== src/Reconcile/Rearm.antt =====
-- rearm of reconcile/loop.py lifts the brakes that failures and flapping have put on.
use deploy_hub.Prelude.{
  ℕ, ◌+◌, ◌<◌, ◌≡◌, refl, ◌∙◌, Bool, true, false, ◌&&◌, none, some, List, [], ◌∷◌, ◌++◌, leb, arith,
  if◌then◌else◌, filter, inl, inr, Option-cases, All,
}
use deploy_hub.Prelude.Table.{find, find-update_self}
use deploy_hub.Reconcile.Rows.{
  Site, Instance, Observed, World, Reason, Event, AuditAction, Object, find_row, last_of, is_about,
  after, put, audit, object_eq, action_eq,
}
use deploy_hub.Reconcile.{
  braked, flap_paused, cycle_count, count_cycles, cycle_ops, rearm, flap_window_s,
}

last_of-append :
    (action : AuditAction) (about : Object) (events : List Event) (e : Event)
    → last_of action about (events ++ e ∷ [])
      ≡ (if is_about action about e then some e else last_of action about events)
unfolding last_of
last_of-append action about [] e = ground arith
last_of-append action about (x ∷ events) e = ground (arith, last_of-append action about events e)

last_of_below :
    (action : AuditAction) (about : Object) (n : ℕ) (events : List Event) (e : Event)
    → All (λ (x : Event). x.ts < n) events
    → last_of action about events ≡ some e
    → e.ts < n
unfolding last_of
last_of_below action about n [] e h f = ground arith
last_of_below action about n (x ∷ events) e h f =
    ground (arith, last_of_below action about n events e)

filter_below :
    (p : Event → Bool) (last : Event) (events : List Event)
    → All (λ (x : Event). x.ts < last.ts) events
    → filter (λ (e : Event). p e && after (some last) e) (events ++ last ∷ []) ≡ []
unfolding after
filter_below p last [] h = ground arith
filter_below p last (x ∷ events) h = ground (arith, filter_below p last events)

find_row-pk :
    (k : ℕ) (rows : List Instance) (row : Instance) → find_row k rows ≡ some row → row.pk ≡ k
unfolding find
find_row-pk k [] row e = ground arith
find_row-pk k (x ∷ rows) row e = ground (arith, find_row-pk k rows row)

module _ {W : Type 0} (k : ℕ) (w : World W)
    (past : All (λ (e : Event). e.ts < w.clock) w.audits) where
  rearm_event : Event
  rearm_event = record {
    ts = w.clock;
    action = AuditAction.rearmed;
    about = Object.instance_row k;
    op = none;
  }

  last_of-rearm :
      last_of AuditAction.rearmed (Object.instance_row k) (rearm k w).audits ≡ some rearm_event
  unfolding rearm_event rearm audit put is_about action_eq object_eq
  last_of-rearm =
      ground
        (arith, last_of-append AuditAction.rearmed (Object.instance_row k) w.audits rearm_event)

  same_pauses :
      last_of AuditAction.flap_pause (Object.instance_row k) (rearm k w).audits
      ≡ last_of AuditAction.flap_pause (Object.instance_row k) w.audits
  unfolding rearm_event rearm audit put is_about action_eq object_eq
  same_pauses =
      ground
        (arith, last_of-append AuditAction.flap_pause (Object.instance_row k) w.audits rearm_event)

  flap_paused-rearm : flap_paused k (rearm k w) ≡ false
  unfolding flap_paused rearm_event
  flap_paused-rearm =
      elim (Option-cases (last_of AuditAction.flap_pause (Object.instance_row k) w.audits)) [
        | inl none_paused ↦ rw (flap_paused, same_pauses ∙ none_paused) refl
        | inr (pause, paused) ↦
            rw (flap_paused, same_pauses ∙ paused, last_of-rearm)
              (let early =
                  last_of_below AuditAction.flap_pause (Object.instance_row k) w.clock w.audits
                    pause past paused in
                ground arith)
      ]

  cycle_count-rearm : (now : ℕ) → cycle_count k now (rearm k w) ≡ 0
  unfolding cycle_count rearm_event rearm audit put cycle_ops count_cycles
  cycle_count-rearm now = rw (last_of-rearm) (
      rw
        (filter_below
          (λ (e : Event).
            is_about AuditAction.repair (Object.instance_row k) e && leb now (e.ts + flap_window_s))
          rearm_event w.audits past)
        refl)

  find-rearm :
      (row : Instance)
      → find_row k w.instances ≡ some row
      → find_row k (rearm k w).instances ≡ some (record row { consecutive_failures = 0 })
  unfolding rearm audit put
  find-rearm row there =
      find-update_self (λ (r : Instance). r.pk) k
        (λ (r : Instance). record r { consecutive_failures = 0 }) w.instances (λ r. refl)
      ∙ rw (there) refl

  -- A re-arm later than every event so far: the row has no failures, the pause is over, no cycle of
  -- before it is counted, and the row, of a site that is reconciled and not in maintenance, with an
  -- observation whose reason is not a brake of its own, is not braked.
  pub rearm_lifts :
      (now : ℕ) (site : Site) (row : Instance) (observed : Observed)
      → find_row k w.instances ≡ some row
      → site.reconcile_enabled ≡ true
      → site.maintenance_until ≡ none
      → observed.reason ≡ Reason.other
      → let row' = record row { consecutive_failures = 0 } in
        (find_row k (rearm k w).instances ≡ some row')
        × (cycle_count k now (rearm k w) ≡ 0)
        × (braked site row' observed now (rearm k w) ≡ (false, rearm k w))
  unfolding braked
  rearm_lifts now site row observed there on free plain =
      let key = find_row-pk k w.instances row there in
      (
        find-rearm row there,
        cycle_count-rearm now,
        rw (on, free, plain) (rw (key) (rw (flap_paused-rearm) refl)),
      )
