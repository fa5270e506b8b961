-- ===== src/Examples/Scaling.antt =====
-- The pressure decision on five minutes of samples.
use deploy_hub.Prelude.{ℕ, ◌*◌, ◌≡◌, refl, true, false, some, List, [], ◌∷◌, any}
use deploy_hub.Scaling.{
  Sample, Axis, minute, minute_of, overflow_axis, sustained_pressure, ram_over, load_over, is_fresh,
  minute_buckets, add_sample, insert, in_window, consecutive, axis_of,
}
use deploy_hub.Scaling.Streak.{overflow_axis_sound, five_over}

abbrev busy : ℕ → ℕ → Sample
busy m pct = record {
  ts = some (m * minute);
  ram_pct = some pct;
  load_avg = some 500;
  cores = some 2000;
}

abbrev five_busy : List Sample
five_busy = busy 6 90000 ∷ busy 7 91000 ∷ busy 8 92000 ∷ busy 9 90000 ∷ busy 10 86000 ∷ []

abbrev one_short : List Sample
one_short = busy 6 90000 ∷ busy 7 91000 ∷ busy 8 85000 ∷ busy 9 90000 ∷ busy 10 86000 ∷ []

five_is_pressure : overflow_axis (10 * minute) five_busy ≡ some Axis.ram
unfolding overflow_axis minute_buckets add_sample insert in_window minute_of consecutive axis_of
    ram_over is_fresh
five_is_pressure = refl

at_threshold_is_none : sustained_pressure (10 * minute) one_short ≡ false
unfolding sustained_pressure overflow_axis minute_buckets add_sample insert in_window minute_of
    consecutive axis_of ram_over load_over is_fresh
at_threshold_is_none = refl

overflow_axis_sound_example :
    ((m : ℕ) × (five_over (10 * minute) five_busy Axis.ram m ≡ true))
    × (any (is_fresh (10 * minute)) five_busy ≡ true)
overflow_axis_sound_example = overflow_axis_sound (10 * minute) five_busy Axis.ram five_is_pressure
