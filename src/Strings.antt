-- ===== src/Strings.antt =====
-- What the code uses of Go's `strings` and `unicode` packages. A Go string that is only compared or
-- normalised is a `String`, its runes; one that is cut at byte offsets is a `Bytes`.
pub mod Laws
pub mod Append
pub mod Trim
pub mod Suffix
pub mod Path
use Prim.Native.Char.{Char, code}
use Prim.Native.String
use Prim.Native.String.{char_at}
use datafog.Prelude.{
  ℕ, ◌+◌, ◌-◌, String, Bool, true, false, ◌&&◌, ◌||◌, List, [], ◌∷◌, ltb, leb, eqb, length,
  if◌then◌else◌,
}

abbrev pub Bytes : Type 0
Bytes = List ℕ

-- The case tables of the `unicode` package, of which ASCII is written out below.
pub record Unicode : Type 0 where
  pub lower : Char → Char
  pub upper : Char → Char
  pub is_upper : Char → Bool
  -- two runes that `unicode.SimpleFold` leads from one to the other
  pub fold : Char → Char → Bool

abbrev within : ℕ → ℕ → ℕ → Bool
within lo hi n = leb lo n && leb n hi

unfoldable pub lower_ascii : Char → Char
lower_ascii c =
    if within b'A' b'Z' (code c) then char_at "abcdefghijklmnopqrstuvwxyz" (code c - b'A') else c

unfoldable pub upper_ascii : Char → Char
upper_ascii c =
    if within b'a' b'z' (code c) then char_at "ABCDEFGHIJKLMNOPQRSTUVWXYZ" (code c - b'a') else c

abbrev pub map_chars : (Char → Char) → String → String
map_chars f String.[] = String.[]
map_chars f (String.◌∷◌ c s) = String.◌∷◌ (f c) (map_chars f s)

-- unicode.IsSpace: the Latin-1 list, and the property White_Space above it
unfoldable pub is_space : Char → Bool
is_space c =
    let n = code c in
    within 9 13 n
    || eqb n 32
    || eqb n 0x85
    || eqb n 0xa0
    || eqb n 0x1680
    || within 0x2000 0x200a n
    || eqb n 0x2028
    || eqb n 0x2029
    || eqb n 0x202f
    || eqb n 0x205f
    || eqb n 0x3000

unfoldable pub trim_left : String → String
trim_left String.[] = String.[]
trim_left (String.◌∷◌ c s) = let rest = trim_left s in if is_space c then rest else String.◌∷◌ c s

-- a rune goes only if all behind it has gone
unfoldable pub cons_unless_space : Char → String → String
cons_unless_space c String.[] = if is_space c then String.[] else String.◌∷◌ c String.[]
cons_unless_space c (String.◌∷◌ d s) = String.◌∷◌ c (String.◌∷◌ d s)

unfoldable pub trim_right : String → String
trim_right String.[] = String.[]
trim_right (String.◌∷◌ c s) = cons_unless_space c (trim_right s)

-- strings.TrimSpace
unfoldable pub trim_space : String → String
unfolding trim_left trim_right cons_unless_space is_space
trim_space s = trim_right (trim_left s)

-- strings.HasPrefix(s, prefix)
unfoldable pub has_prefix : String → String → Bool
has_prefix s String.[] = true
has_prefix String.[] (String.◌∷◌ d t) = false
has_prefix (String.◌∷◌ c s) (String.◌∷◌ d t) = eqb (code c) (code d) && has_prefix s t

-- strings.Join(parts, sep)
unfoldable pub join : List String → String → String
join [] sep = ""
join (p ∷ []) sep = p
join (p ∷ q ∷ ps) sep = String.◌++◌ p (String.◌++◌ sep (join (q ∷ ps) sep))

module _ ⦃u : Unicode⦄ where
  -- unicode.ToLower, unicode.ToUpper
  unfoldable pub lower_char : Char → Char
  unfolding lower_ascii
  lower_char c = if ltb (code c) 128 then lower_ascii c else u.lower c

  unfoldable pub upper_char : Char → Char
  unfolding upper_ascii
  upper_char c = if ltb (code c) 128 then upper_ascii c else u.upper c

  -- strings.ToLower, strings.ToUpper
  unfoldable pub to_lower : String → String
  unfolding lower_char
  to_lower s = map_chars lower_char s

  unfoldable pub to_upper : String → String
  unfolding upper_char
  to_upper s = map_chars upper_char s

  -- one round of strings.EqualFold
  fold_char : Char → Char → Bool
  unfolding lower_ascii
  fold_char c d =
      eqb (code c) (code d)
      || (if ltb (code c) 128 && ltb (code d) 128
          then eqb (code (lower_ascii c)) (code (lower_ascii d))
          else u.fold c d)

  -- strings.EqualFold
  unfoldable pub equal_fold : String → String → Bool
  unfolding fold_char
  equal_fold String.[] String.[] = true
  equal_fold String.[] (String.◌∷◌ d t) = false
  equal_fold (String.◌∷◌ c s) String.[] = false
  equal_fold (String.◌∷◌ c s) (String.◌∷◌ d t) = fold_char c d && equal_fold s t

-- Tables with no letter above ASCII, for runs of the code.
abbrev pub ascii_tables : Unicode
ascii_tables = record {
  lower = λ c. c;
  upper = λ c. c;
  is_upper = λ c. within b'A' b'Z' (code c);
  fold = λ c d. false;
}
