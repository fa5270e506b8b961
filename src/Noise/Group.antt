-- ===== src/Noise/Group.antt =====
-- group_p2 of monitor/antinoise.py, and deliver_grouped of monitor/pager.py, which sends what it gathers.
-- `publish` is the sending of one batch, alone or grouped, and says whether it went out.
use deploy_hub.Prelude.{
  ℕ, ◌+◌, String, Bool, true, false, not, ◌&&◌, Option, none, some, List, [], ◌∷◌, ◌==◌, leb, ltb,
  str_eq, if◌then◌else◌, any, filter, length,
}
use deploy_hub.Findings.{Finding, Inbox, Severity, p1, p2, p3, by_key}
use deploy_hub.Noise.State.{Push, Noise}

pub record Batch : Type 0 where
  pub findings : List Finding
  pub grouped : Bool

abbrev pub is_p2 : Severity → Bool
is_p2 p1 = false
is_p2 p2 = true
is_p2 p3 = false

unfoldable pub is_pending : ℕ → ℕ → Push → Bool
is_pending window now p = not p.delivered && (is_p2 p.severity && leb now (p.at + window))

abbrev pub same_key : Push → Push → Bool
same_key p q = p.workspace == q.workspace && str_eq p.fingerprint q.fingerprint

-- The loop over the pending events; `seen` holds those that it has met.
unfoldable pub gather : Inbox → List Push → List Push → List Finding
gather inbox seen [] = []
gather inbox seen (p ∷ events) =
    let again = gather inbox seen events in
    let others = gather inbox (p ∷ seen) events in
    if any (same_key p) seen
    then again
    else elim (by_key p.workspace p.fingerprint inbox) [ none ↦ others | some r ↦ r ∷ others ]

unfoldable pub is_among : List String → String → Bool
is_among fps f = any (λ (g : String). str_eq f g) fps

unfoldable pub mark_events : List String → List Push → List Push
unfolding is_among
mark_events fps [] = []
mark_events fps (p ∷ events) =
    (if is_p2 p.severity && is_among fps p.fingerprint then record p { delivered = true } else p)
    ∷ mark_events fps events

unfoldable pub mark_p2_delivered_fps : List String → Noise → Noise
mark_p2_delivered_fps fps s = record s { pushes = mark_events fps s.pushes }

abbrev pub fingerprints : List Finding → List String
fingerprints [] = []
fingerprints (r ∷ rows) = r.fingerprint ∷ fingerprints rows

abbrev pub pushed : List Push → List String
pushed [] = []
pushed (p ∷ events) = p.fingerprint ∷ pushed events

-- The batch of the pending events, if there are any, marked as delivered if that is asked.
unfoldable pub group_of : Bool → List Push → List Finding → Noise → Option Batch × Noise
group_of mark [] findings s = (none, s)
group_of mark (p ∷ pending) findings s = (
  some (record { findings = findings; grouped = ltb 1 (length findings) }),
  if mark then mark_p2_delivered_fps (pushed (p ∷ pending)) s else s,
)

unfoldable pub group_p2 : ℕ → ℕ → Bool → Noise → Option Batch × Noise
group_p2 window now mark s =
    let pending = filter (is_pending window now) s.pushes in
    group_of mark pending (gather s.inbox [] pending) s

-- What deliver_grouped does with a batch: how many it sent, or tried to.
unfoldable pub deliver_rows : (Batch → Bool) → Bool → List Finding → Noise → ℕ × Noise
deliver_rows publish grouped [] s = (0, s)
deliver_rows publish grouped (r ∷ rows) s = (
  1,
  if publish (record { findings = r ∷ rows; grouped = grouped })
      then mark_p2_delivered_fps (fingerprints (r ∷ rows)) s
      else s,
)

unfoldable pub deliver_batch : (Batch → Bool) → Option Batch → Noise → ℕ × Noise
deliver_batch publish none s = (0, s)
deliver_batch publish (some b) s = deliver_rows publish b.grouped b.findings s

unfoldable pub deliver_grouped : (Batch → Bool) → ℕ → ℕ → Noise → ℕ × Noise
unfolding group_p2
deliver_grouped publish window now s =
    let (batch, s') = group_p2 window now false s in deliver_batch publish batch s'
