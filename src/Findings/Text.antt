-- ===== src/Findings/Text.antt =====
-- str.strip() of Python, over the code points that it takes for white space.
use Prim.Native.Char.{Char, code}
use deploy_hub.Prelude.{
  String, ◌≡◌, refl, Bool, true, false, ◌&&◌, ◌||◌, ◌==◌, leb, arith, if◌then◌else◌,
}

unfoldable pub is_space : Char → Bool
is_space c =
    let n = code c in
    (leb 9 n && leb n 13)
    || (leb 28 n && leb n 32)
    || n == 0x85
    || n == 0xa0
    || n == 0x1680
    || (leb 0x2000 n && leb n 0x200a)
    || n == 0x2028
    || n == 0x2029
    || n == 0x202f
    || n == 0x205f
    || n == 0x3000

-- `not text.strip()`
unfoldable pub is_blank : String → Bool
is_blank String.[] = true
is_blank (String.◌∷◌ c s) = is_space c && is_blank s

abbrev is_empty : String → Bool
is_empty String.[] = true
is_empty (String.◌∷◌ c s) = false

unfoldable pub rstrip : String → String
rstrip String.[] = String.[]
rstrip (String.◌∷◌ c s) =
    let rest = rstrip s in if is_space c && is_empty rest then String.[] else String.◌∷◌ c rest

unfoldable pub lstrip : String → String
lstrip String.[] = String.[]
lstrip (String.◌∷◌ c s) = let rest = lstrip s in if is_space c then rest else String.◌∷◌ c s

unfoldable pub strip : String → String
unfolding lstrip rstrip
strip s = rstrip (lstrip s)

rstrip_blank : (s : String) → is_empty (rstrip s) ≡ is_blank s
unfolding rstrip is_blank
rstrip_blank String.[] = refl
rstrip_blank (String.◌∷◌ c s) = ground (arith, rstrip_blank s)

lstrip_blank : (s : String) → is_blank (lstrip s) ≡ is_blank s
unfolding lstrip is_blank
lstrip_blank String.[] = refl
lstrip_blank (String.◌∷◌ c s) = ground (arith, lstrip_blank s)

is_blank-rstrip : (s : String) → is_blank (rstrip s) ≡ is_blank s
unfolding rstrip is_blank
is_blank-rstrip String.[] = refl
is_blank-rstrip (String.◌∷◌ c s) = ground (arith, is_blank-rstrip s, rstrip_blank s)

-- What is left is blank exactly when the text was.
pub is_blank-strip : (s : String) → is_blank (strip s) ≡ is_blank s
unfolding strip
is_blank-strip s = ground (arith, is_blank-rstrip (lstrip s), lstrip_blank s)
