-- ===== src/Strings/Suffix.antt =====
-- What the code uses of `strings.HasSuffix`, `strings.TrimRight` and the decimal `%d`.
use Prim.Native.Char.{Char, code}
use Prim.Native.String.{char_at}
use datafog.Prelude.{
  ℕ, zero, suc, ◌/◌, ◌%◌, String, Bool, true, ◌≡◌, refl, ◌==◌, eq_iff, eqb, arith, if◌then◌else◌,
  Bool-cases, inl, inr,
}
use datafog.Strings.Append.{◌<>◌}

-- strings.HasSuffix(s, suffix)
unfoldable pub has_suffix : String → String → Bool
has_suffix String.[] suffix = suffix == ""
has_suffix (String.◌∷◌ c s) suffix =
    let rest = has_suffix s suffix in if String.◌∷◌ c s == suffix then true else rest

-- a rune of the cutset goes only if all behind it has gone
abbrev pub cons_unless : ℕ → Char → String → String
cons_unless n c String.[] = if eqb (code c) n then String.[] else String.◌∷◌ c String.[]
cons_unless n c (String.◌∷◌ d s) = String.◌∷◌ c (String.◌∷◌ d s)

-- strings.TrimRight(s, cutset), for a cutset of one rune
unfoldable pub trim_right_rune : ℕ → String → String
trim_right_rune n String.[] = String.[]
trim_right_rune n (String.◌∷◌ c s) = cons_unless n c (trim_right_rune n s)

-- the digits of a number; 20 steps are more than an int of 64 bits has digits
decimal_from : ℕ → ℕ → String → String
decimal_from zero n digits = digits
decimal_from (suc fuel) n digits =
    let later = decimal_from fuel (n / 10) (String.◌∷◌ (char_at "0123456789" (n % 10)) digits) in
    if eqb (n / 10) 0 then String.◌∷◌ (char_at "0123456789" (n % 10)) digits else later

unfoldable pub decimal : ℕ → String
unfolding decimal_from
decimal n = decimal_from 20 n ""

pub has_suffix_refl : (s : String) → has_suffix s s ≡ true
unfolding has_suffix
has_suffix_refl String.[] = refl
has_suffix_refl (String.◌∷◌ c s) = rw ((eq_iff (String.◌∷◌ c s) (String.◌∷◌ c s)).1 refl) refl

pub has_suffix-append : (s suffix : String) → has_suffix (s <> suffix) suffix ≡ true
unfolding has_suffix
has_suffix-append String.[] suffix = has_suffix_refl suffix
has_suffix-append (String.◌∷◌ c s) suffix =
    elim (Bool-cases (String.◌∷◌ c (s <> suffix) == suffix)) [
      | inl e ↦ rw e refl
      | inr e ↦ rw e (has_suffix-append s suffix)
    ]

-- A text is still a suffix when both get the same end.
pub has_suffix_extended :
    (s suffix end : String)
    → has_suffix s suffix ≡ true
    → has_suffix (s <> end) (suffix <> end) ≡ true
unfolding has_suffix
has_suffix_extended String.[] suffix end h = rw ((eq_iff suffix "").0 h) (has_suffix_refl end)
has_suffix_extended (String.◌∷◌ c s) suffix end h = elim (Bool-cases (String.◌∷◌ c s == suffix)) [
  | inl e ↦ rw (← (eq_iff (String.◌∷◌ c s) suffix).0 e) (has_suffix_refl (String.◌∷◌ c (s <> end)))
  | inr e ↦ ground (arith, has_suffix_extended s suffix end (rw e at h))
]

decimal_test : decimal 503 ≡ "503"
unfolding decimal decimal_from
decimal_test = refl

trim_test : trim_right_rune 47 "http://a//" ≡ "http://a"
unfolding trim_right_rune
trim_test = refl
