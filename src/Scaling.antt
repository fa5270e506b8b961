-- ===== src/Scaling.antt =====
-- scaling/pressure.py with scaling/constants.py: the decision that a site is under sustained pressure.
-- Times are microseconds; ram, load and cores are thousandths, as numbers that are not negative. A
-- sample that is no mapping is one without values; a time that is not aware is none. The dictionary by
-- minute is kept in the order of its keys.
pub mod Destination
pub mod Evaluator
pub mod Streak
use Prim.Native.Nat.{◌/◌}
use deploy_hub.Prelude.{
  ℕ, zero, suc, ◌+◌, ◌-◌, Bool, true, false, not, ◌&&◌, ◌||◌, Option, none, some, List, [], ◌∷◌,
  ◌==◌, ltb, leb, if◌then◌else◌, all, length,
}

abbrev pub mem_pct_threshold : ℕ
mem_pct_threshold = 85000

abbrev pub consecutive_minutes : ℕ
consecutive_minutes = 5

abbrev pub window : ℕ
window = 300000000

abbrev pub max_sample_gap : ℕ
max_sample_gap = 120000000

abbrev pub minute : ℕ
minute = 60000000

pub record Sample : Type 0 where
  pub ts : Option ℕ
  pub ram_pct : Option ℕ
  pub load_avg : Option ℕ
  pub cores : Option ℕ

pub data Axis : Type 0 where
  ram load : Axis

pub record Bucket : Type 0 where
  pub key : ℕ
  pub sample : Sample

-- ts.replace(second=0, microsecond=0), counted in minutes
unfoldable pub minute_of : ℕ → ℕ
minute_of ts = ts / minute

unfoldable pub in_window : ℕ → ℕ → Bool
in_window now ts = not (ltb (ts + window) now || ltb now ts)

-- A later sample of a minute takes the place of an earlier one.
unfoldable pub insert : ℕ → ℕ → Sample → List Bucket → List Bucket
insert k ts s [] = record { key = k; sample = s } ∷ []
insert k ts s (b ∷ buckets) =
    let rest = insert k ts s buckets in
    let replaces : Bool = elim b.sample.ts [ none ↦ true | some prev ↦ leb prev ts ] in
    if k == b.key
    then (if replaces then record { key = k; sample = s } ∷ buckets else b ∷ buckets)
    else if ltb k b.key
    then record { key = k; sample = s } ∷ b ∷ buckets
    else b ∷ rest

unfoldable pub add_sample : ℕ → Sample → List Bucket → List Bucket
add_sample now s buckets = elim s.ts [
  | none ↦ buckets
  | some ts ↦ if in_window now ts then insert (minute_of ts) ts s buckets else buckets
]

-- _minute_buckets
unfoldable pub minute_buckets : ℕ → List Sample → List Bucket → List Bucket
minute_buckets now [] buckets = buckets
minute_buckets now (s ∷ samples) buckets = minute_buckets now samples (add_sample now s buckets)

abbrev pub drop : ℕ → List Bucket → List Bucket
drop n [] = []
drop zero (b ∷ buckets) = b ∷ buckets
drop (suc n) (b ∷ buckets) = drop n buckets

abbrev pub last : List Bucket → Option Bucket
last [] = none
last (b ∷ []) = some b
last (b ∷ c ∷ buckets) = last (c ∷ buckets)

-- _consecutive
unfoldable pub consecutive : List Bucket → Bool
consecutive [] = true
consecutive (b ∷ []) = true
consecutive (b ∷ c ∷ buckets) = let rest = consecutive (c ∷ buckets) in (c.key == suc b.key) && rest

unfoldable pub ram_over : Sample → Bool
ram_over s = elim s.ram_pct [ none ↦ false | some pct ↦ ltb mem_pct_threshold pct ]

unfoldable pub load_over : Sample → Bool
load_over s = elim s.cores [
  | none ↦ false
  | some n ↦ elim s.load_avg [ none ↦ false | some avg ↦ leb 1000 n && ltb n avg ]
]

-- The newest sample is at most MAX_SAMPLE_GAP_S old, and not of the future.
unfoldable pub is_fresh : ℕ → Sample → Bool
is_fresh now s = elim s.ts [ none ↦ false | some ts ↦ leb ts now && leb now (ts + max_sample_gap) ]

unfoldable pub axis_of : List Bucket → Option Axis
axis_of five =
    if all (λ (b : Bucket). ram_over b.sample) five
    then some Axis.ram
    else if all (λ (b : Bucket). load_over b.sample) five
    then some Axis.load
    else none

-- _overflow_axis, for a `now` that is aware.
unfoldable pub overflow_axis : ℕ → List Sample → Option Axis
overflow_axis now samples =
    let buckets = minute_buckets now samples [] in
    let trailing = drop (length buckets - consecutive_minutes) buckets in
    if ltb (length buckets) consecutive_minutes then none else elim (last buckets) [
      | none ↦ none
      | some newest ↦
          if not (is_fresh now newest.sample)
          then none
          else if not (consecutive trailing)
          then none
          else axis_of trailing
    ]

unfoldable pub sustained_pressure : ℕ → List Sample → Bool
sustained_pressure now samples = elim (overflow_axis now samples) [
  | none ↦ false
  | some axis ↦ true
]

unfoldable pub has_headroom : Sample → Bool
has_headroom s = elim s.ram_pct [
  | none ↦ false
  | some pct ↦ elim s.load_avg [
    | none ↦ false
    | some avg ↦
        if ltb mem_pct_threshold pct
        then false
        else elim s.cores [ none ↦ true | some n ↦ if ltb n 1000 then true else leb avg n ]
  ]
]
