-- ===== src/Noise/Alerts.antt =====
-- What the writes of monitor/antinoise.py leave of an alert's counters, its times and transitions.
use deploy_hub.Prelude.{
  ℕ, String, ◌≡◌, sym, ap, ◌∙◌, Bool, true, false, ◌&&◌, Option, none, List, [], ◌∷◌, ◌==◌, arith,
  str_eq, str_eq_iff, if◌then◌else◌, Bool-cases, inl, inr,
}
use deploy_hub.Noise.State.{
  AlertState, Noise, alert, alert_in, save_alert, save_in, is_alert, default_workspace,
  storm_state_fp,
}

-- All of a row but for the times of its last push and of its acknowledgement.
abbrev pub core : AlertState → AlertState
core r = record r { last_push_at = none; acked_at = none }

abbrev pub is_storm : ℕ → String → Bool
is_storm w f = (default_workspace == w) && str_eq storm_state_fp f

abbrev pub same_key : AlertState → ℕ → String → Bool
same_key r w f = is_alert w f r

alert_in_key :
    (w : ℕ) (f : String) (rows : List AlertState) → is_alert w f (alert_in w f rows) ≡ true
unfolding is_alert alert_in
alert_in_key w f [] = ground (arith, str_eq_iff f f)
alert_in_key w f (r ∷ rows) = ground (arith, alert_in_key w f rows)

pub alert_key : (w : ℕ) (f : String) (s : Noise) → is_alert w f (alert w f s) ≡ true
unfolding alert
alert_key w f s = alert_in_key w f s.alerts

pub alert-workspace : (w : ℕ) (f : String) (s : Noise) → (alert w f s).workspace ≡ w
unfolding is_alert
alert-workspace w f s = ground (arith, alert_key w f s)

pub alert-fingerprint : (w : ℕ) (f : String) (s : Noise) → (alert w f s).fingerprint ≡ f
unfolding is_alert
alert-fingerprint w f s = ground (arith, alert_key w f s, str_eq_iff (alert w f s).fingerprint f)

same_row :
    (w : ℕ) (f : String) (r x : AlertState)
    → is_alert r.workspace r.fingerprint x ≡ true
    → is_alert w f x ≡ is_alert w f r
unfolding is_alert
same_row w f r x e = ground (arith, str_eq_iff x.fingerprint r.fingerprint)

other_row :
    (w : ℕ) (f : String) (r x : AlertState)
    → is_alert r.workspace r.fingerprint x ≡ false
    → is_alert w f x ≡ true
    → is_alert w f r ≡ false
unfolding is_alert
other_row w f r x e h = ground (
  arith,
  str_eq_iff x.fingerprint f,
  str_eq_iff r.fingerprint f,
  str_eq_iff x.fingerprint r.fingerprint,
)

alert_in-save :
    (w : ℕ) (f : String) (r : AlertState) (rows : List AlertState)
    → alert_in w f (save_in r rows) ≡ (if is_alert w f r then r else alert_in w f rows)
unfolding alert_in save_in
alert_in-save w f r [] = ground arith
alert_in-save w f r (x ∷ rows) =
    ground (arith, same_row w f r x, other_row w f r x, alert_in-save w f r rows)

pub alert-save :
    (w : ℕ) (f : String) (r : AlertState) (s : Noise)
    → alert w f (save_alert r s) ≡ (if is_alert w f r then r else alert w f s)
unfolding alert save_alert
alert-save w f r s = alert_in-save w f r s.alerts

key_of :
    (w : ℕ) (f : String) (r : AlertState)
    → is_alert w f r ≡ true
    → (r.workspace ≡ w) × (r.fingerprint ≡ f)
unfolding is_alert
key_of w f r e = (ground arith, ground (arith, str_eq_iff r.fingerprint f))

-- The write of a row, at its own key and at another.
pub save-core_self :
    (w : ℕ) (f : String) (r : AlertState) (s : Noise)
    → is_alert w f r ≡ true
    → core (alert w f (save_alert r s)) ≡ core r
save-core_self w f r s e =
    ap core (alert-save w f r s) ∙ ap (λ (b : Bool). core (if b then r else alert w f s)) e

pub save-core_other :
    (w : ℕ) (f : String) (r : AlertState) (s : Noise)
    → is_alert w f r ≡ false
    → core (alert w f (save_alert r s)) ≡ core (alert w f s)
save-core_other w f r s e =
    ap core (alert-save w f r s) ∙ ap (λ (b : Bool). core (if b then r else alert w f s)) e

-- A write of the times that `core` leaves out.
pub touch_core :
    (w : ℕ) (f : String) (r : AlertState) (s : Noise)
    → core r ≡ core (alert r.workspace r.fingerprint s)
    → core (alert w f (save_alert r s)) ≡ core (alert w f s)
touch_core w f r s e = elim (Bool-cases (is_alert w f r)) [
  | inr h ↦ save-core_other w f r s h
  | inl h ↦
      let (p, q) = key_of w f r h in
      save-core_self w f r s h
      ∙ (e
          ∙ (ap (λ (a : ℕ). core (alert a r.fingerprint s)) p
              ∙ ap (λ (b : String). core (alert w b s)) q))
]

-- The row of a key under another time of its last push, or of its acknowledgement.
pub touch_core_at :
    (w w' : ℕ) (f f' : String) (push ack : Option ℕ) (s : Noise)
    → core
        (alert w f (save_alert (record (alert w' f' s) { last_push_at = push; acked_at = ack }) s))
      ≡ core (alert w f s)
touch_core_at w w' f f' push ack s =
    let r : AlertState = record (alert w' f' s) { last_push_at = push; acked_at = ack } in
    touch_core w f r s (
      ap (λ (a : ℕ). core (alert a f' s)) (sym (alert-workspace w' f' s))
      ∙ ap (λ (b : String). core (alert (alert w' f' s).workspace b s))
          (sym (alert-fingerprint w' f' s)))

-- The row of the storm is at no other key.
pub storm_row :
    (w : ℕ) (f : String) (s : Noise)
    → is_storm w f ≡ false
    → is_alert w f (alert default_workspace storm_state_fp s) ≡ false
unfolding is_alert
storm_row w f s e = ground (
  arith,
  alert-workspace default_workspace storm_state_fp s,
  alert-fingerprint default_workspace storm_state_fp s,
)
