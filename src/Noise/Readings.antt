-- ===== src/Noise/Readings.antt =====
-- The hysteresis of monitor/antinoise.py by itself: when the observations of an alert raise it.
use deploy_hub.Prelude.{
  ℕ, suc, String, ◌≡◌, refl, ap, Bool, false, not, ◌&&◌, none, some, List, [], ◌∷◌, ◌==◌, leb,
  arith, str_eq, if◌then◌else◌,
}
use deploy_hub.Noise.State.{
  AlertState, is_open, note_transition, opening, closing, open_after, close_after,
}
use deploy_hub.Noise.Alerts.{core}

-- What came of one observation: its result, and whether _open would have left the alert shut.
pub record Reading : Type 0 where
  pub ok : Bool
  pub held : Bool

-- The readings of an alert, the newest first.
abbrev pub last_ok : List Reading → Bool
last_ok [] = false
last_ok (x ∷ readings) = x.ok

abbrev pub last_failed : List Reading → Bool
last_failed [] = false
last_failed (x ∷ readings) = not x.ok

abbrev pub last_two_failed : List Reading → Bool
last_two_failed [] = false
last_two_failed (x ∷ readings) = not x.ok && last_failed readings

-- Opened by the third failure in a row, unless it is held; closed by the second success in a row.
unfoldable pub alarmed : List Reading → Bool
alarmed [] = false
alarmed (x ∷ readings) =
    let before = alarmed readings in
    if before
    then not (x.ok && last_ok readings)
    else not x.ok && (last_two_failed readings && not x.held)

pub record Probe : Type 0 where
  pub workspace : ℕ
  pub fingerprint : String
  pub ok : Bool
  pub now : ℕ

abbrev pub is_about : ℕ → String → Probe → Bool
is_about w f p = (p.workspace == w) && str_eq p.fingerprint f

-- The counters of a row, and whether it is open.
abbrev pub View : Type 0
View = ℕ × ℕ × Bool

unfoldable pub view : AlertState → View
unfolding is_open
view r = (r.consecutive_fail, r.consecutive_ok, is_open r)

pub view-core : (r r' : AlertState) → core r ≡ core r' → view r ≡ view r'
unfolding view is_open
view-core r r' e = ap view e

abbrev fails_of : List Reading → ℕ
fails_of [] = 0
fails_of (x ∷ readings) = if x.ok then 0 else suc (fails_of readings)

abbrev oks_of : List Reading → ℕ
oks_of [] = 0
oks_of (x ∷ readings) = if x.ok then suc (oks_of readings) else 0

unfoldable pub view_of : List Reading → View
unfolding alarmed
view_of readings = (fails_of readings, oks_of readings, alarmed readings)

-- The row of an observed alert, before what follows is filed.
abbrev pub better : AlertState → AlertState
better r = record r { consecutive_ok = suc r.consecutive_ok; consecutive_fail = 0 }

abbrev pub worse : AlertState → AlertState
worse r = record r { consecutive_fail = suc r.consecutive_fail; consecutive_ok = 0 }

abbrev pub opened_by : ℕ → AlertState → AlertState
unfolding note_transition
opened_by now r = note_transition opening now (record r { opened_at = some now; closed_at = none })

abbrev pub closed_by : ℕ → AlertState → AlertState
unfolding note_transition
closed_by now r = note_transition closing now (record r { closed_at = some now })

unfoldable pub next_row : Bool → Bool → ℕ → AlertState → AlertState
unfolding is_open opened_by closed_by
next_row ok held now r =
    if ok
    then (if is_open r && leb close_after (suc r.consecutive_ok)
        then closed_by now (better r)
        else better r)
    else (if leb open_after (suc r.consecutive_fail) && not (is_open r)
        then (if held then worse r else opened_by now (worse r))
        else worse r)

two_oks : (readings : List Reading) → leb close_after (suc (oks_of readings)) ≡ last_ok readings
two_oks [] = refl
two_oks (x ∷ readings) = ground arith

one_failed : (readings : List Reading) → leb 1 (fails_of readings) ≡ last_failed readings
one_failed [] = refl
one_failed (x ∷ readings) = ground arith

three_failed :
    (readings : List Reading) → leb open_after (suc (fails_of readings)) ≡ last_two_failed readings
three_failed [] = refl
three_failed (x ∷ readings) = ground (arith, one_failed readings)

pub next_row-view :
    (ok held : Bool) (now : ℕ) (r : AlertState) (readings : List Reading)
    → view r ≡ view_of readings
    → view (next_row ok held now r) ≡ view_of (record { ok = ok; held = held } ∷ readings)
unfolding next_row view_of view is_open note_transition alarmed
next_row-view ok held now r readings h = ground (arith, two_oks readings, three_failed readings, h)
