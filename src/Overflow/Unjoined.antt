-- ===== src/Overflow/Unjoined.antt =====
-- What scale_in_overflow of deploys/overflow.py leaves when it returns.
use Prim.Native.String.{◌++◌ as ◌<>◌}
use mathlib.Core.Path.{subst}
use deploy_hub.Prelude.{
  ℕ, String, ◌≡◌, ◌≢◌, ◌⊎◌, refl, sym, ap, ◌∙◌, Bool, true, false, Option, some, List, [], ◌∷◌,
  arith, is_some, Option-cases, Bool-cases, inl, inr, str_eq,
}
use deploy_hub.Findings.{Inbox, Finding, resolved, by_key, resolve, transition, allowed, announce}
use deploy_hub.Findings.Text.{strip}
use deploy_hub.Findings.Consistency.{IsConsistent}
use deploy_hub.Findings.Lifecycle.{saved_by_key}
use deploy_hub.Locks.{Key, Ident, text, OperationLock, acquire}
use deploy_hub.Scaling.Evaluator.{is_active, proposal_fp}
use deploy_hub.Scaling.Evaluator.Retract.{has_state}
use deploy_hub.Overflow.{
  Place, Work, Instance, absent, Result, done, raised, Unjoining, Refusal, lock_busy,
  is_decommissioned, decommissioned, with_lock, site_lock, target_lock, tunnel_home, primary_ipv4,
  values_without, unjoin, terminate, mark_absent, settle, retire, scale_in_under_locks,
  scale_in_overflow, scale_in_gate,
}
use deploy_hub.Overflow.Values.{holds, is_clean, values_without-host, values_without_nonempty}

-- The first row, if there is one, says absent, desired and observed.
abbrev pub IsAbsent : List Instance → Type 0
IsAbsent [] = Unit
IsAbsent (i ∷ instances) = (i.desired ≡ absent) × (i.observed ≡ absent)

mark_absent-IsAbsent : (instances : List Instance) → IsAbsent (mark_absent instances)
unfolding mark_absent
mark_absent-IsAbsent [] = tt
mark_absent-IsAbsent (i ∷ instances) = (refl, refl)

Result-cases {ℓ} :
    {A : Type ℓ} (r : Result A) → ((x : Refusal) × (r ≡ raised x)) ⊎ ((a : A) × (r ≡ done a))
Result-cases (raised x) = inl (x, refl)
Result-cases (done a) = inr (a, refl)

-- A body of one value gives that value under a lock, or the lock is busy.
with_lock_value {ℓ} :
    {A : Type ℓ} (now : ℕ) (k : Key) (h : Ident) (busy : A)
    (body : List OperationLock → A × List OperationLock) (t : List OperationLock) (x : A)
    → ((t' : List OperationLock) → ((body t').0 ≡ x) ⊎ ((body t').0 ≡ busy))
    → ((with_lock now k h busy body t).0 ≡ x) ⊎ ((with_lock now k h busy body t).0 ≡ busy)
unfolding with_lock
with_lock_value now k h busy body t x gives = elim (Bool-cases (is_some (acquire now k h t).1)) [
  | inl granted ↦ rw (granted) (gives (acquire now k h t).0)
  | inr denied ↦ rw (denied) (inr refl)
]

resolve-active :
    (w : ℕ) (f : String) (r : Finding) (inbox : Inbox)
    → IsConsistent inbox
    → by_key w f inbox ≡ some r
    → is_active r.state ≡ true
    → by_key w f (resolve r inbox).1 ≡ some (record r { state = resolved })
unfolding resolve transition allowed is_active announce by_key
resolve-active w f r inbox h found active =
    ground
      (arith, saved_by_key w f (record r { state = resolved }) r inbox h.pks found refl refl refl)

module _ (str : ℕ → String) (parse : String → Option ℕ) (show : ℕ → String) where
  module _ {ℓ} {Outside : Type ℓ} (a_values : Outside → List String)
      (ensure_dns : List String → Outside → Bool × Outside)
      (replica terminate_instance : Outside → Bool × Outside) (file_failed : Inbox → Inbox) where
    -- The copy on the target is out of the site's traffic, and done with.
    pub record IsOut (place : Place) (w w' : Work Outside) : Type 0 where
      pub unjoined : holds (strip w.target.host) (a_values w'.outside) ≡ false
      pub terminated : is_decommissioned w'.target.status ≡ true
      pub gone : IsAbsent w'.instances
      pub settled :
          has_state is_active (by_key place.site.workspace (proposal_fp str place.site) w'.inbox)
          ≡ false

    unjoin-host :
        (place : Place) (w : Work Outside) (u : Unjoining)
        → ((s : String) (n : ℕ) → parse s ≡ some n → show n ≡ s)
        → ((value : String) (values : List String) (o : Outside)
            → (ensure_dns (value ∷ values) o).0 ≡ true
            → a_values (ensure_dns (value ∷ values) o).1 ≡ value ∷ values)
        → tunnel_home place ≡ false
        → place.site.is_mesh_only ≡ false
        → is_clean (a_values w.outside) ≡ true
        → str_eq (strip w.target.host) "" ≡ false
        → primary_ipv4 parse show place ≢ some (strip w.target.host)
        → (unjoin str parse show a_values ensure_dns replica terminate_instance file_failed place
            w).0
          ≡ done u
        → holds (strip w.target.host) (
            a_values
              (unjoin str parse show a_values ensure_dns replica terminate_instance file_failed
                place w).1.outside)
          ≡ false
    unfolding unjoin values_without
    unjoin-host place w u written sets no_tunnel public clean named apart e =
        let host = strip w.target.host in
        let parts = a_values w.outside in
        elim (Bool-cases (holds host parts)) [
          | inr out ↦ rw (unjoin, no_tunnel, public, named, out) out
          | inl there ↦ elim (Option-cases (values_without parse show place host parts)) [
            | inl none_left ↦ absurd (ground (arith, e, no_tunnel, public, named, there, none_left))
            | inr ([], left) ↦ absurd (values_without_nonempty parse show place host parts left)
            | inr (value ∷ values, left) ↦ elim (Bool-cases place.has_dns) [
              | inr no_provider ↦
                  absurd (ground (arith, e, no_tunnel, public, named, there, left, no_provider))
              | inl provider ↦ elim (Bool-cases (ensure_dns (value ∷ values) w.outside).0) [
                | inl set ↦
                    rw
                      (
                        unjoin,
                        no_tunnel,
                        public,
                        named,
                        there,
                        left,
                        provider,
                        sets value values w.outside set,
                      )
                      (values_without-host parse show place host parts (value ∷ values) written
                        clean apart left)
                | inr failed ↦
                    absurd
                      (ground (arith, e, no_tunnel, public, named, there, left, provider, failed))
              ]
            ]
          ]
        ]

    unjoin_target :
        (place : Place) (w : Work Outside) (u : Unjoining)
        → (unjoin str parse show a_values ensure_dns replica terminate_instance file_failed place
            w).0
          ≡ done u
        → let w' =
            (unjoin str parse show a_values ensure_dns replica terminate_instance file_failed place
              w).1 in
          (w'.target ≡ w.target) × (w'.inbox ≡ w.inbox) × (w'.instances ≡ w.instances)
    unfolding unjoin
    unjoin_target place w u e = ground (arith, e)

    settle_inbox :
        (place : Place) (w : Work Outside)
        → IsConsistent w.inbox
        → has_state is_active (
            by_key place.site.workspace
              (proposal_fp str place.site)
              (settle str parse show a_values ensure_dns replica terminate_instance file_failed
                place w).inbox)
          ≡ false
    unfolding settle
    settle_inbox place w h =
        let f = proposal_fp str place.site in
        elim (Option-cases (by_key place.site.workspace f w.inbox)) [
          | inl no_row ↦ rw (settle, no_row) (ap (has_state is_active) no_row)
          | inr (r, found) ↦ elim (Bool-cases (is_active r.state)) [
            | inr inactive ↦
                rw (settle, found, inactive) (ap (has_state is_active) found ∙ inactive)
            | inl active ↦
                rw (settle, found, active)
                  (ap (has_state is_active)
                    (resolve-active place.site.workspace f r w.inbox h found active))
          ]
        ]

    settle-IsAbsent :
        (place : Place) (w : Work Outside)
        → IsAbsent
            (settle str parse show a_values ensure_dns replica terminate_instance file_failed place
              w).instances
    unfolding settle
    settle-IsAbsent place w = mark_absent-IsAbsent w.instances

    settle_done :
        (place : Place) (w : Work Outside)
        → IsConsistent w.inbox
        → is_decommissioned w.target.status ≡ true
        → let w' =
            settle str parse show a_values ensure_dns replica terminate_instance file_failed place
              w in
          (is_decommissioned w'.target.status ≡ true)
          × IsAbsent w'.instances
          × (has_state is_active (by_key place.site.workspace (proposal_fp str place.site) w'.inbox)
              ≡ false)
          × (a_values w'.outside ≡ a_values w.outside)
          × (strip w'.target.host ≡ strip w.target.host)
    unfolding settle
    settle_done place w h dead = (dead, settle-IsAbsent place w, settle_inbox place w h, refl, refl)

    -- What is left after the termination.
    retire_done :
        (place : Place) (u v : Unjoining) (w : Work Outside)
        → IsConsistent w.inbox
        → ((o : Outside)
            → (terminate_instance o).0 ≡ true
            → a_values (terminate_instance o).1 ≡ a_values o)
        → (retire str parse show a_values ensure_dns replica terminate_instance file_failed place u
            w).0
          ≡ done v
        → let w' =
            (retire str parse show a_values ensure_dns replica terminate_instance file_failed place
              u w).1 in
          (is_decommissioned w'.target.status ≡ true)
          × IsAbsent w'.instances
          × (has_state is_active (by_key place.site.workspace (proposal_fp str place.site) w'.inbox)
              ≡ false)
          × (a_values w'.outside ≡ a_values w.outside)
          × (strip w'.target.host ≡ strip w.target.host)
    unfolding retire terminate is_decommissioned
    retire_done place u v w h keeps e = elim (Bool-cases (is_decommissioned w.target.status)) [
      | inl dead ↦ rw (retire, dead) (settle_done place w h dead)
      | inr alive ↦ elim (Bool-cases (terminate_instance w.outside).0) [
        | inr failed ↦ absurd (ground (arith, e, alive, failed))
        | inl ended ↦
            let w1 : Work Outside = record w {
              outside = (terminate_instance w.outside).1;
              target = record w.target { status = decommissioned };
            } in
            let s1 = settle_done place w1 h refl in
            rw (retire, alive, terminate, ended)
              (s1.0, s1.1, s1.2, s1.3 ∙ keeps w.outside ended, s1.4)
      ]
    ]

    under_locks_done :
        (place : Place) (w : Work Outside) (v : Unjoining)
        → ((s : String) (n : ℕ) → parse s ≡ some n → show n ≡ s)
        → ((value : String) (values : List String) (o : Outside)
            → (ensure_dns (value ∷ values) o).0 ≡ true
            → a_values (ensure_dns (value ∷ values) o).1 ≡ value ∷ values)
        → ((o : Outside)
            → (terminate_instance o).0 ≡ true
            → a_values (terminate_instance o).1 ≡ a_values o)
        → IsConsistent w.inbox
        → tunnel_home place ≡ false
        → place.site.is_mesh_only ≡ false
        → is_clean (a_values w.outside) ≡ true
        → str_eq (strip w.target.host) "" ≡ false
        → primary_ipv4 parse show place ≢ some (strip w.target.host)
        → (scale_in_under_locks str parse show a_values ensure_dns replica terminate_instance
            file_failed place w).0
          ≡ done v
        → IsOut place w
            (scale_in_under_locks str parse show a_values ensure_dns replica terminate_instance
              file_failed place w).1
    unfolding scale_in_under_locks
    under_locks_done place w v written sets keeps h no_tunnel public clean named apart e =
        let w1 =
          (unjoin str parse show a_values ensure_dns replica terminate_instance file_failed place
            w).1 in
        elim (Result-cases
          (unjoin str parse show a_values ensure_dns replica terminate_instance file_failed place
            w).0) [
              | inl (x, refused) ↦
                  let same : scale_in_under_locks str parse show a_values ensure_dns replica
                        terminate_instance file_failed place w
                      ≡ (raised x, w1) =
                    rw (scale_in_under_locks, refused) refl in
                  absurd (ground (arith, e, ap (λ (r : Result Unjoining × Work Outside). r.0) same))
              | inr (u, out) ↦
                  let same : scale_in_under_locks str parse show a_values ensure_dns replica
                        terminate_instance file_failed place w
                      ≡ retire str parse show a_values ensure_dns replica terminate_instance
                          file_failed place u w1 =
                    rw (scale_in_under_locks, out) refl in
                  let free =
                    unjoin-host place w u written sets no_tunnel public clean named apart out in
                  let sound : IsConsistent w1.inbox =
                    subst IsConsistent (sym (unjoin_target place w u out).1) h in
                  let left =
                    retire_done place u v w1 sound keeps
                      (sym (ap (λ (r : Result Unjoining × Work Outside). r.0) same) ∙ e) in
                  subst (λ (r : Result Unjoining × Work Outside). IsOut place w r.1) (sym same)
                    (record {
                      unjoined = ap (holds (strip w.target.host)) left.3 ∙ free;
                      terminated = left.0;
                      gone = left.1;
                      settled = left.2;
                    })
            ]

    -- A result that is not a refusal comes from under both locks.
    scale_in_value :
        (now : ℕ) (place : Place) (w : Work Outside) (locks : List OperationLock) (v : Unjoining)
        → (scale_in_overflow str parse show a_values ensure_dns replica terminate_instance
            file_failed now place w locks).0.0
          ≡ done v
        → (scale_in_overflow str parse show a_values ensure_dns replica terminate_instance
            file_failed now place w locks).0
          ≡ scale_in_under_locks str parse show a_values ensure_dns replica terminate_instance
              file_failed place w
    unfolding scale_in_overflow
    scale_in_value now place w locks v e = elim (Option-cases (scale_in_gate place w.target)) [
      | inr (refusal, refused) ↦
          let run : (scale_in_overflow str parse show a_values ensure_dns replica terminate_instance
                file_failed now place w locks).0
              ≡ (raised refusal, w) =
            rw (scale_in_overflow, refused) refl in
          absurd (ground (arith, e, ap (λ (r : Result Unjoining × Work Outside). r.0) run))
      | inl passed ↦
          let holder = text ("overflow-scale-in:" <> str place.site.pk) in
          let work =
            scale_in_under_locks str parse show a_values ensure_dns replica terminate_instance
              file_failed place w in
          let busy : Result Unjoining × Work Outside = (raised lock_busy, w) in
          let run : ((scale_in_overflow str parse show a_values ensure_dns replica
                  terminate_instance file_failed now place w locks).0
                ≡ work)
              ⊎ ((scale_in_overflow str parse show a_values ensure_dns replica terminate_instance
                    file_failed now place w locks).0
                  ≡ busy) =
            rw (scale_in_overflow, passed)
              (with_lock_value now (site_lock place.site.pk) holder busy
                (with_lock now (target_lock w.target.pk) holder busy (λ t. (work, t))) locks work
                (λ t.
                  with_lock_value now (target_lock w.target.pk) holder busy (λ t'. (work, t')) t
                    work (λ t'. inl refl))) in
          elim run [
            | inl value ↦ value
            | inr refused ↦
                absurd
                  (ground (arith, e, ap (λ (r : Result Unjoining × Work Outside). r.0) refused))
          ]
    ]

    -- When taking a copy out returns, for a public site that is not behind a tunnel: its host is no longer in
    -- the site's A record, the target is decommissioned, the first row of the instance, if there is one, says
    -- absent, and the proposal is not active. For a consistent inbox, a host that is not blank and not the
    -- address of the primary; where an address is written as it is read, a DNS call with a value that comes
    -- through sets the record, and a termination that comes through leaves it.
    pub scale_in_overflow-IsOut :
        (now : ℕ) (place : Place) (w : Work Outside) (locks : List OperationLock) (v : Unjoining)
        → ((s : String) (n : ℕ) → parse s ≡ some n → show n ≡ s)
        → ((value : String) (values : List String) (o : Outside)
            → (ensure_dns (value ∷ values) o).0 ≡ true
            → a_values (ensure_dns (value ∷ values) o).1 ≡ value ∷ values)
        → ((o : Outside)
            → (terminate_instance o).0 ≡ true
            → a_values (terminate_instance o).1 ≡ a_values o)
        → IsConsistent w.inbox
        → tunnel_home place ≡ false
        → place.site.is_mesh_only ≡ false
        → is_clean (a_values w.outside) ≡ true
        → str_eq (strip w.target.host) "" ≡ false
        → primary_ipv4 parse show place ≢ some (strip w.target.host)
        → (scale_in_overflow str parse show a_values ensure_dns replica terminate_instance
            file_failed now place w locks).0.0
          ≡ done v
        → IsOut place w
            (scale_in_overflow str parse show a_values ensure_dns replica terminate_instance
              file_failed now place w locks).0.1
    scale_in_overflow-IsOut now place w locks v written sets keeps h no_tunnel public clean named
          apart e =
        let value = scale_in_value now place w locks v e in
        subst (λ (r : Result Unjoining × Work Outside). IsOut place w r.1) (sym value)
          (under_locks_done place w v written sets keeps h no_tunnel public clean named apart
            (sym (ap (λ (r : Result Unjoining × Work Outside). r.0) value) ∙ e))
