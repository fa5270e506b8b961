-- ===== src/Noise/Text.antt =====
-- The texts of monitor/antinoise.py: fingerprints and entities cut at a colon, and numbers in titles.
use Prim.Native.Char.{Char, code}
use Prim.Native.String.{◌++◌ as ◌<>◌}
use Prim.Native.Nat.{◌/◌, ◌%◌}
use deploy_hub.Prelude.{
  ℕ, zero, suc, ◌≤◌, ◌<◌, String, ◌≡◌, refl, Bool, true, false, Option, none, some, ◌==◌, ltb,
  arith, str_eq, str_eq_iff, if◌then◌else◌, is_some, List, [], ◌∷◌, Bool-cases, Option-cases, inl,
  inr,
}

-- text.partition(":"), without the separator.
unfoldable pub partition : String → String × String
partition String.[] = ("", "")
partition (String.◌∷◌ c s) =
    let (before, after) = partition s in
    if code c == 58 then ("", s) else (String.◌∷◌ c before, after)

-- text[len(prefix):], when the text starts with the prefix.
unfoldable pub remove_prefix : String → String → Option String
remove_prefix String.[] s = some s
remove_prefix (String.◌∷◌ p ps) String.[] = none
remove_prefix (String.◌∷◌ p ps) (String.◌∷◌ c s) =
    let rest = remove_prefix ps s in if code p == code c then rest else none

abbrev pub starts_with : String → String → Bool
starts_with s prefix = is_some (remove_prefix prefix s)

abbrev put_before : Char → Option String → Option String
put_before c none = none
put_before c (some s) = some (String.◌∷◌ c s)

-- text[:-len(suffix)], when the text ends with the suffix.
unfoldable pub remove_suffix : String → String → Option String
remove_suffix suffix String.[] = if str_eq suffix "" then some "" else none
remove_suffix suffix (String.◌∷◌ c s) =
    let rest = put_before c (remove_suffix suffix s) in
    if str_eq (String.◌∷◌ c s) suffix then some "" else rest

-- The code points of a text.
abbrev pub size : String → ℕ
size String.[] = 0
size (String.◌∷◌ c s) = suc (size s)

-- What _entity_of returns, from the rest of the text, its entity, what stands before "-down", and
-- whether the text is that of a flapping alert.
unfoldable pub entity_from : String → String → String → Option String → Bool → String
entity_from fingerprint rest deeper (some kind) flaps = kind <> (":" <> rest)
entity_from fingerprint rest deeper none true = deeper
entity_from fingerprint rest deeper none false = fingerprint

-- _entity_of with a bound on its calls of itself.
unfoldable pub entity_within : ℕ → String → String
entity_within zero fingerprint = fingerprint
entity_within (suc fuel) fingerprint =
    let (prefix, rest) = partition fingerprint in
    entity_from fingerprint rest (entity_within fuel rest) (remove_suffix "-down" prefix)
      (str_eq prefix "FLAPPING")

unfoldable pub entity_of : String → String
entity_of fingerprint = entity_within (suc (size fingerprint)) fingerprint

unfoldable pub flap_fp : String → String
flap_fp fingerprint = "FLAPPING:" <> fingerprint

abbrev nth : List String → ℕ → String
nth [] n = ""
nth (s ∷ rest) zero = s
nth (s ∷ rest) (suc n) = nth rest n

abbrev digit : ℕ → String
digit = nth ("0" ∷ "1" ∷ "2" ∷ "3" ∷ "4" ∷ "5" ∷ "6" ∷ "7" ∷ "8" ∷ "9" ∷ [])

unfoldable digits : ℕ → ℕ → String
digits zero n = ""
digits (suc fuel) n =
    let front = digits fuel (n / 10) in if ltb n 10 then digit n else front <> digit (n % 10)

-- str() of an int; a number has fewer digits than its successor has units.
unfoldable pub decimal : ℕ → String
unfolding digits
decimal n = digits (suc n) n

-- The calls that _entity_of makes, to the one that returns.
pub data Runs : String → String → Type 0 where
  down :
      (fingerprint kind : String)
      → remove_suffix "-down" (partition fingerprint).0 ≡ some kind
      → Runs fingerprint (kind <> (":" <> (partition fingerprint).1))
  flapping :
      (fingerprint entity : String)
      → remove_suffix "-down" (partition fingerprint).0 ≡ none
      → (partition fingerprint).0 ≡ "FLAPPING"
      → Runs (partition fingerprint).1 entity
      → Runs fingerprint entity
  itself :
      (fingerprint : String)
      → remove_suffix "-down" (partition fingerprint).0 ≡ none
      → str_eq (partition fingerprint).0 "FLAPPING" ≡ false
      → Runs fingerprint fingerprint

size-partition : (s : String) → size (partition s).1 ≤ size s
unfolding partition
size-partition String.[] = omega arith
size-partition (String.◌∷◌ c s) = ground (arith, size-partition s)

size-partition_lt :
    (s : String) → str_eq (partition s).0 "FLAPPING" ≡ true → size (partition s).1 < size s
unfolding partition
size-partition_lt String.[] e = absurd (cc)
size-partition_lt (String.◌∷◌ c s) e = ground (arith, size-partition s)

entity_within-Runs : (fuel : ℕ) (s : String) → size s < fuel → Runs s (entity_within fuel s)
unfolding entity_within entity_from
entity_within-Runs zero s lt = absurd (omega arith)
entity_within-Runs (suc fuel) s lt = elim (Option-cases (remove_suffix "-down" (partition s).0)) [
  | inr (kind, e) ↦ rw (e) (down s kind e)
  | inl e ↦ elim (Bool-cases (str_eq (partition s).0 "FLAPPING")) [
    | inr f ↦ rw (e, f) (itself s e f)
    | inl f ↦
        let smaller : size (partition s).1 < fuel = ground (arith, size-partition_lt s f) in
        rw (e, f)
          (flapping s (entity_within fuel (partition s).1) e
            (ground (arith, str_eq_iff (partition s).0 "FLAPPING"))
            (entity_within-Runs fuel (partition s).1 smaller))
  ]
]

-- The calls that _entity_of makes of itself come to an end on every text, and what the last of them
-- returns is `entity_of` of the text.
pub entity_of-Runs : (fingerprint : String) → Runs fingerprint (entity_of fingerprint)
unfolding entity_of
entity_of-Runs fingerprint = entity_within-Runs (suc (size fingerprint)) fingerprint (omega arith)

test_entity : entity_of "FLAPPING:FLAPPING:site-down:a:b" ≡ "site:a:b"
unfolding entity_of entity_within entity_from partition remove_suffix
test_entity = refl

test_decimal : decimal 1207 ≡ "1207"
unfolding decimal digits
test_decimal = refl
