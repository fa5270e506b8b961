-- ===== src/Scaling/Streak.antt =====
-- What a decision of scaling/pressure.py says of the samples.
use deploy_hub.Prelude.{
  ℕ, zero, suc, ◌+◌, ◌-◌, ◌≡◌, sym, Bool, true, false, not, ◌&&◌, none, some, List, [], ◌∷◌, ◌==◌,
  ltb, leb, arith, any, all, inl, inr, Bool-cases, Option-cases, All, length,
}
use deploy_hub.Scaling.{
  Sample, Axis, Bucket, minute_of, in_window, insert, add_sample, minute_buckets, drop, last,
  consecutive, ram_over, load_over, is_fresh, axis_of, overflow_axis, has_headroom,
  consecutive_minutes,
}

-- A sample with both of its values has headroom exactly when it is over on neither axis.
pub has_headroom-over :
    (s : Sample) (pct avg : ℕ)
    → s.ram_pct ≡ some pct
    → s.load_avg ≡ some avg
    → has_headroom s ≡ (not (ram_over s) && not (load_over s))
unfolding has_headroom ram_over load_over
has_headroom-over s pct avg r l = elim (Option-cases s.cores) [
  | inl unknown ↦ ground arith
  | inr (n, known) ↦ ground arith
]

-- A sample of the window and of a minute, counted from the epoch.
abbrev pub is_of_minute : ℕ → ℕ → Sample → Bool
is_of_minute now k s = elim s.ts [ none ↦ false | some ts ↦ in_window now ts && minute_of ts == k ]

-- What holds of the sample of a bucket holds of a sample in the list, of the bucket's minute.
abbrev Backed : ℕ → List Sample → Bucket → Type 0
Backed now samples b =
    (p : Sample → Bool)
    → p b.sample ≡ true
    → any (λ s. is_of_minute now b.key s && p s) samples ≡ true

module _ (P : Bucket → Type 0) where
  insert-All :
      (k ts : ℕ) (s : Sample) (buckets : List Bucket)
      → P (record { key = k; sample = s })
      → All P buckets
      → All P (insert k ts s buckets)
  unfolding insert
  insert-All k ts s [] new h = (new, tt)
  insert-All k ts s (b ∷ buckets) new h = elim (Bool-cases (k == b.key)) [
    | inl same ↦ elim (Bool-cases (elim b.sample.ts [ none ↦ true | some prev ↦ leb prev ts ])) [
      | inl later ↦ rw (insert, same, later) (new, h.1)
      | inr older ↦ rw (insert, same, older) h
    ]
    | inr differs ↦ elim (Bool-cases (ltb k b.key)) [
      | inl before ↦ rw (insert, differs, before) (new, h)
      | inr behind ↦ rw (insert, differs, behind) (h.0, insert-All k ts s buckets new h.1)
    ]
  ]

  drop-All : (n : ℕ) (buckets : List Bucket) → All P buckets → All P (drop n buckets)
  drop-All n [] h = tt
  drop-All zero (b ∷ buckets) h = h
  drop-All (suc n) (b ∷ buckets) h = drop-All n buckets h.1

  last-All : (buckets : List Bucket) (b : Bucket) → All P buckets → last buckets ≡ some b → P b
  last-All [] b h e = absurd (cc)
  last-All (x ∷ []) b h e = rw (let eq : b ≡ x = cc in eq) h.0
  last-All (x ∷ y ∷ buckets) b h e = last-All (y ∷ buckets) b h.1 e

length-drop : (n : ℕ) (buckets : List Bucket) → length (drop n buckets) ≡ length buckets - n
length-drop n [] = omega arith
length-drop zero (b ∷ buckets) = omega arith
length-drop (suc n) (b ∷ buckets) = ground (arith, length-drop n buckets)

any_weaken :
    (p q : Sample → Bool) (samples : List Sample)
    → any (λ s. p s && q s) samples ≡ true
    → any q samples ≡ true
any_weaken p q [] e = e
any_weaken p q (s ∷ samples) e = ground (arith, any_weaken p q samples)

module _ (now : ℕ) (samples : List Sample) where
  fresh_bucket :
      (s : Sample) (ts : ℕ)
      → s.ts ≡ some ts
      → in_window now ts ≡ true
      → ((p : Sample → Bool) → p s ≡ true → any p samples ≡ true)
      → Backed now samples (record { key = minute_of ts; sample = s })
  fresh_bucket s ts at inside listed p holds =
      listed (λ x. is_of_minute now (minute_of ts) x && p x) (ground arith)

  minute_buckets-Backed :
      (rest : List Sample) (buckets : List Bucket)
      → ((p : Sample → Bool) → any p rest ≡ true → any p samples ≡ true)
      → All (Backed now samples) buckets
      → All (Backed now samples) (minute_buckets now rest buckets)
  unfolding minute_buckets add_sample
  minute_buckets-Backed [] buckets listed h = h
  minute_buckets-Backed (s ∷ rest) buckets listed h =
      minute_buckets-Backed rest (add_sample now s buckets) (λ p e. listed p (ground arith))
        (elim (Option-cases s.ts) [
          | inl untimed ↦ rw (add_sample, untimed) h
          | inr (ts, at) ↦ elim (Bool-cases (in_window now ts)) [
            | inr outside ↦ rw (add_sample, at, outside) h
            | inl inside ↦
                rw (add_sample, at, inside)
                  (insert-All (Backed now samples) (minute_of ts) ts s buckets
                    (fresh_bucket s ts at inside (λ p e. listed p (ground arith))) h)
          ]
        ])

  abbrev over : Axis → Sample → Bool
  over Axis.ram = ram_over
  over Axis.load = load_over

  -- Five minutes from `m` on, each with a sample in the list that is over.
  abbrev pub five_over : Axis → ℕ → Bool
  five_over axis m =
      all (λ (i : ℕ). any (λ (s : Sample). is_of_minute now (m + i) s && over axis s) samples)
        (0 ∷ 1 ∷ 2 ∷ 3 ∷ 4 ∷ [])

  bucket_over :
      (axis : Axis) (b : Bucket) (k : ℕ)
      → Backed now samples b
      → b.key ≡ k
      → over axis b.sample ≡ true
      → any (λ (s : Sample). is_of_minute now k s && over axis s) samples ≡ true
  bucket_over axis b k backed at high = rw (sym at) (backed (over axis) high)

  five_buckets :
      (axis : Axis) (five : List Bucket)
      → length five ≡ 5
      → consecutive five ≡ true
      → all (λ (b : Bucket). over axis b.sample) five ≡ true
      → All (Backed now samples) five
      → (m : ℕ) × (five_over axis m ≡ true)
  unfolding consecutive
  five_buckets axis (a ∷ b ∷ c ∷ d ∷ e ∷ []) len steps high backed = (
    a.key,
    ground (
      arith,
      bucket_over axis a (a.key + 0) backed.0,
      bucket_over axis b (a.key + 1) backed.1.0,
      bucket_over axis c (a.key + 2) backed.1.1.0,
      bucket_over axis d (a.key + 3) backed.1.1.1.0,
      bucket_over axis e (a.key + 4) backed.1.1.1.1.0,
    ),
  )
  five_buckets axis [] len steps high backed = absurd (ground arith)
  five_buckets axis (a ∷ []) len steps high backed = absurd (ground arith)
  five_buckets axis (a ∷ b ∷ []) len steps high backed = absurd (ground arith)
  five_buckets axis (a ∷ b ∷ c ∷ []) len steps high backed = absurd (ground arith)
  five_buckets axis (a ∷ b ∷ c ∷ d ∷ []) len steps high backed = absurd (ground arith)
  five_buckets axis (a ∷ b ∷ c ∷ d ∷ e ∷ f ∷ more) len steps high backed = absurd (ground arith)

  buckets-Backed : All (Backed now samples) (minute_buckets now samples [])
  buckets-Backed = minute_buckets-Backed samples [] (λ p e. e) tt

  axis_of-over :
      (axis : Axis) (five : List Bucket)
      → axis_of five ≡ some axis
      → all (λ (b : Bucket). over axis b.sample) five ≡ true
  unfolding axis_of
  axis_of-over Axis.ram five e = ground arith
  axis_of-over Axis.load five e = ground arith

  -- A decision for an axis rests on the samples of five minutes in a row, each of the window and over
  -- on that axis, and on a sample of the list that is fresh.
  pub overflow_axis_sound :
      (axis : Axis)
      → overflow_axis now samples ≡ some axis
      → ((m : ℕ) × (five_over axis m ≡ true)) × (any (is_fresh now) samples ≡ true)
  unfolding overflow_axis
  overflow_axis_sound axis e =
      let buckets = minute_buckets now samples [] in
      let trailing = drop (length buckets - consecutive_minutes) buckets in
      elim (Option-cases (last buckets)) [
        | inl empty ↦ absurd (ground arith)
        | inr (newest, is_last) ↦
            let fresh : is_fresh now newest.sample ≡ true = ground arith in
            let backed = last-All (Backed now samples) buckets newest buckets-Backed is_last in
            (
              five_buckets axis trailing
                  (ground (arith, length-drop (length buckets - consecutive_minutes) buckets))
                  (ground arith) (axis_of-over axis trailing (ground arith))
                  (drop-All (Backed now samples) (length buckets - consecutive_minutes) buckets
                    buckets-Backed),
              any_weaken (λ s. is_of_minute now newest.key s) (is_fresh now) samples
                  (backed (is_fresh now) fresh),
            )
      ]
