-- ===== src/Overflow/Values.antt =====
-- The values of the A record without a host, in deploys/overflow.py.

use deploy_hub.Prelude.{
  ℕ, String, ◌≡◌, ◌≢◌, refl, ap, ◌∙◌, Bool, true, false, not, Option, none, some, List, [], ◌∷◌,
  arith, Option-cases, Bool-cases, inl, inr, any, all, filter, str_eq, str_eq_iff,
}
use deploy_hub.Findings.Text.{strip}
use deploy_hub.Overflow.{
  Place, joinable_ipv4, joinable_all, primary_ipv4, or_primary, values_without,
}

abbrev pub holds : String → List String → Bool
holds host = any (λ p. str_eq p host)

abbrev pub is_clean : List String → Bool
is_clean = all (λ p. str_eq (strip p) p)

or_primary-host :
    (host : String) (ips : List String) (primary : Option String) (values : List String)
    → holds host ips ≡ false
    → primary ≢ some host
    → or_primary ips primary ≡ some values
    → holds host values ≡ false
unfolding or_primary
or_primary-host host (ip ∷ ips) primary values clear apart e = ground (arith, clear, e)
or_primary-host host [] none values clear apart e = absurd (cc)
or_primary-host host [] (some ip) values clear apart e = elim (Bool-cases (str_eq ip host)) [
  | inl same ↦ absurd (apart (ap some ((str_eq_iff ip host).0 same)))
  | inr other ↦ ground (arith, e, other)
]

or_primary_nonempty :
    (ips : List String) (primary : Option String) → or_primary ips primary ≢ some []
unfolding or_primary
or_primary_nonempty (ip ∷ ips) primary e = absurd (ground (arith, e))
or_primary_nonempty [] none e = absurd (ground (arith, e))
or_primary_nonempty [] (some ip) e = absurd (ground (arith, e))

module _ (parse : String → Option ℕ) (show : ℕ → String) where
  joinable_same :
      (p ip : String)
      → ((s : String) (n : ℕ) → parse s ≡ some n → show n ≡ s)
      → joinable_ipv4 parse show p ≡ some ip
      → ip ≡ strip p
  unfolding joinable_ipv4
  joinable_same p ip written e = elim (Option-cases (parse (strip p))) [
    | inl unread ↦ absurd (ground (arith, e, unread))
    | inr (n, read) ↦ ground (arith, e, read, written (strip p) n read)
  ]

  joinable_all_without :
      (host : String) (parts : List String)
      → ((s : String) (n : ℕ) → parse s ≡ some n → show n ≡ s)
      → is_clean parts ≡ true
      → holds host (joinable_all parse show (filter (λ p. not (str_eq p host)) parts)) ≡ false
  unfolding joinable_all
  joinable_all_without host [] written clean = refl
  joinable_all_without host (p ∷ parts) written clean =
      let rest = joinable_all_without host parts written (ground (arith, clean)) in
      elim (Bool-cases (str_eq p host)) [
        | inl same ↦ rw (same) rest
        | inr other ↦ elim (Option-cases (joinable_ipv4 parse show p)) [
          | inl unfit ↦ rw (other, joinable_all, unfit) rest
          | inr (ip, fit) ↦
              let is_p : ip ≡ p =
                joinable_same p ip written fit
                ∙ (str_eq_iff (strip p) p).0 (ground (arith, clean)) in
              rw (other, joinable_all, fit, is_p, other) rest
        ]
      ]

  -- The new record does not hold the host, if the primary's address is not the host.
  pub values_without-host :
      (place : Place) (host : String) (parts values : List String)
      → ((s : String) (n : ℕ) → parse s ≡ some n → show n ≡ s)
      → is_clean parts ≡ true
      → primary_ipv4 parse show place ≢ some host
      → values_without parse show place host parts ≡ some values
      → holds host values ≡ false
  unfolding values_without
  values_without-host place host parts values written clean apart e =
      or_primary-host host (joinable_all parse show (filter (λ p. not (str_eq p host)) parts))
        (primary_ipv4 parse show place) values (joinable_all_without host parts written clean) apart
        e

  -- A record that is written is never empty.
  pub values_without_nonempty :
      (place : Place) (host : String) (parts : List String)
      → values_without parse show place host parts ≢ some []
  unfolding values_without
  values_without_nonempty place host parts =
      or_primary_nonempty (joinable_all parse show (filter (λ p. not (str_eq p host)) parts))
        (primary_ipv4 parse show place)
