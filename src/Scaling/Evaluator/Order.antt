-- ===== src/Scaling/Evaluator/Order.antt =====
-- When scaling/evaluator.py proposes to rent a machine, and when it takes its proposals back.
use deploy_hub.Prelude.{
  ℕ, String, ◌≡◌, refl, ap, ◌∙◌, Bool, true, false, not, ◌&&◌, Option, none, some, List, arith,
  Bool-cases, inl, inr,
}
use deploy_hub.Findings.{
  Filing, Finding, State, opened, acked, resolved, accepted, Inbox, row, refused, by_key, finding,
}
use deploy_hub.Findings.Consistency.{IsConsistent}
use deploy_hub.Findings.Others.{finding_other}
use deploy_hub.Scaling.{Sample, sustained_pressure}
use deploy_hub.Scaling.Destination.{Fleet}
use deploy_hub.Scaling.Evaluator.{
  Site, is_active, cheap_fp, proposal_fp, refuse_if_attack, samples_of, raise_alert, handed,
  cheap_fields, file_cheap, is_eligible, next_of, next_step, evaluate_eligible, evaluate_site,
}
use deploy_hub.Scaling.Evaluator.Retract.{
  has_state, is_accepted, NothingPending, fps_differ, retract_settles, retract_inactive,
}

module _ (str : ℕ → String) (race : Inbox → Inbox) (handoff : Finding → Inbox → Inbox)
    (casefold : String → String) where
  abbrev evaluate : Site → ℕ → Fleet → Inbox → Option Finding × Inbox
  evaluate = evaluate_site str race handoff casefold

  -- A site that is refused for an attack or a partner, or that is not eligible, or not under sustained
  -- pressure, gets no proposal, and in a consistent inbox neither its cheap remediations nor its proposal
  -- are open or acknowledged afterwards.
  pub blocked_is_retracted :
      (site : Site) (now : ℕ) (fleet : Fleet) (inbox : Inbox)
      → IsConsistent inbox
      → (not (refuse_if_attack str site inbox)
          && is_eligible site
          && sustained_pressure now (samples_of site now fleet))
        ≡ false
      → ((evaluate site now fleet inbox).0 ≡ none)
        × NothingPending str site (evaluate site now fleet inbox).1
  unfolding evaluate_site evaluate_eligible
  blocked_is_retracted site now fleet inbox h blocked =
      let settled = retract_settles str site inbox h in
      elim (Bool-cases (refuse_if_attack str site inbox)) [
        | inl attack ↦ rw (attack) (refl, settled)
        | inr clear ↦ elim (Bool-cases (is_eligible site)) [
          | inr unfit ↦ rw (clear, unfit) (refl, settled)
          | inl fit ↦ elim (Bool-cases (sustained_pressure now (samples_of site now fleet))) [
            | inr calm ↦ rw (clear, fit, calm) (refl, settled)
            | inl pressed ↦ absurd (ground (arith, blocked, clear, fit, pressed))
          ]
        ]
      ]

  handed_other :
      (w : ℕ) (f : String) (filing : Filing) (later : Inbox)
      → ((r : Finding) (i : Inbox) → by_key w f (handoff r i) ≡ by_key w f i)
      → by_key w f (handed handoff filing later).1 ≡ by_key w f later
  unfolding handed
  handed_other w f (row r) later hands_off = hands_off r later
  handed_other w f (refused x) later hands_off = refl

  file_cheap_other :
      (site : Site) (samples : List Sample) (now : ℕ) (inbox : Inbox)
      → IsConsistent inbox
      → IsConsistent (race inbox)
      → by_key site.workspace (proposal_fp str site) (race inbox)
        ≡ by_key site.workspace (proposal_fp str site) inbox
      → ((r : Finding) (i : Inbox)
          → by_key site.workspace (proposal_fp str site) (handoff r i)
            ≡ by_key site.workspace (proposal_fp str site) i)
      → by_key site.workspace
          (proposal_fp str site)
          (file_cheap str race handoff casefold site samples now inbox).1
        ≡ by_key site.workspace (proposal_fp str site) inbox
  unfolding file_cheap raise_alert
  file_cheap_other site samples now inbox h hr quiet hands_off =
      let fields = cheap_fields site samples now in
      handed_other site.workspace (proposal_fp str site)
        (finding race "scaling.evaluator" (cheap_fp str site) (some site.workspace) fields inbox).0
        (finding race "scaling.evaluator" (cheap_fp str site) (some site.workspace) fields inbox).1
        hands_off
      ∙ finding_other site.workspace (cheap_fp str site) (proposal_fp str site)
          (fps_differ str site) race "scaling.evaluator" fields inbox h hr quiet

  next_of_inactive :
      (state : State) (cheap : Finding) (site : Site) (samples : List Sample) (now : ℕ)
      (fleet : Fleet) (inbox : Inbox)
      → has_state is_active (by_key site.workspace (proposal_fp str site) inbox) ≡ false
      → is_accepted state ≡ false
      → by_key site.workspace
          (proposal_fp str site)
          (file_cheap str race handoff casefold site samples now inbox).1
        ≡ by_key site.workspace (proposal_fp str site) inbox
      → has_state is_active (
          by_key site.workspace
            (proposal_fp str site)
            (next_of str race handoff casefold state cheap site samples now fleet inbox).1)
        ≡ false
  unfolding next_of
  next_of_inactive opened cheap site samples now fleet inbox before unaccepted filed = before
  next_of_inactive acked cheap site samples now fleet inbox before unaccepted filed = before
  next_of_inactive resolved cheap site samples now fleet inbox before unaccepted filed =
      ap (has_state is_active) filed ∙ before
  next_of_inactive accepted cheap site samples now fleet inbox before unaccepted filed = absurd (cc)

  -- Up to the acceptance of the cheap remediations, no proposal.
  next_step_inactive :
      (cheap : Option Finding) (site : Site) (samples : List Sample) (now : ℕ) (fleet : Fleet)
      (inbox : Inbox)
      → has_state is_active (by_key site.workspace (proposal_fp str site) inbox) ≡ false
      → has_state is_accepted cheap ≡ false
      → by_key site.workspace
          (proposal_fp str site)
          (file_cheap str race handoff casefold site samples now inbox).1
        ≡ by_key site.workspace (proposal_fp str site) inbox
      → has_state is_active (
          by_key site.workspace
            (proposal_fp str site)
            (next_step str race handoff casefold cheap site samples now fleet inbox).1)
        ≡ false
  unfolding next_step
  next_step_inactive none site samples now fleet inbox before unaccepted filed =
      ap (has_state is_active) filed ∙ before
  next_step_inactive (some cheap) site samples now fleet inbox before unaccepted filed =
      next_of_inactive cheap.state cheap site samples now fleet inbox before unaccepted filed

  -- When the proposal to rent was not active before an evaluation of the site and is afterwards, then the
  -- attack gate let the site pass, it is eligible and under sustained pressure, and its cheap remediations
  -- had been accepted. For a consistent inbox, also after the race, where neither the race nor what follows
  -- the filing of a row touches the proposal.
  pub proposal_is_earned :
      (site : Site) (now : ℕ) (fleet : Fleet) (inbox : Inbox)
      → IsConsistent inbox
      → IsConsistent (race inbox)
      → by_key site.workspace (proposal_fp str site) (race inbox)
        ≡ by_key site.workspace (proposal_fp str site) inbox
      → ((r : Finding) (i : Inbox)
          → by_key site.workspace (proposal_fp str site) (handoff r i)
            ≡ by_key site.workspace (proposal_fp str site) i)
      → has_state is_active (by_key site.workspace (proposal_fp str site) inbox) ≡ false
      → has_state is_active
          (by_key site.workspace (proposal_fp str site) (evaluate site now fleet inbox).1)
        ≡ true
      → (refuse_if_attack str site inbox ≡ false)
        × (is_eligible site ≡ true)
        × (sustained_pressure now (samples_of site now fleet) ≡ true)
        × (has_state is_accepted (by_key site.workspace (cheap_fp str site) inbox) ≡ true)
  unfolding evaluate_site evaluate_eligible
  proposal_is_earned site now fleet inbox h hr quiet hands_off before after =
      let active : Inbox → Bool =
        λ i. has_state is_active (by_key site.workspace (proposal_fp str site) i) in
      let samples = samples_of site now fleet in
      let cheap = by_key site.workspace (cheap_fp str site) inbox in
      let retracted = retract_inactive str site inbox h before in
      elim (Bool-cases (refuse_if_attack str site inbox)) [
        | inl attack ↦
            let kept : active (evaluate site now fleet inbox).1 ≡ false =
              rw (evaluate_site, attack) retracted in
            absurd (ground (arith, kept, after))
        | inr clear ↦ elim (Bool-cases (is_eligible site)) [
          | inr unfit ↦
              let kept : active (evaluate site now fleet inbox).1 ≡ false =
                rw (evaluate_site, clear, evaluate_eligible, unfit) retracted in
              absurd (ground (arith, kept, after))
          | inl fit ↦ elim (Bool-cases (sustained_pressure now samples)) [
            | inr calm ↦
                let kept : active (evaluate site now fleet inbox).1 ≡ false =
                  rw (evaluate_site, clear, evaluate_eligible, fit, calm) retracted in
                absurd (ground (arith, kept, after))
            | inl pressed ↦ (
              clear,
              fit,
              pressed,
              elim (Bool-cases (has_state is_accepted cheap)) [
                | inl agreed ↦ agreed
                | inr open_yet ↦
                    let kept : active (evaluate site now fleet inbox).1 ≡ false =
                      rw (evaluate_site, clear, evaluate_eligible, fit, pressed)
                        (next_step_inactive cheap site samples now fleet inbox before open_yet
                          (file_cheap_other site samples now inbox h hr quiet hands_off)) in
                    absurd (ground (arith, kept, after))
              ],
            )
          ]
        ]
      ]
