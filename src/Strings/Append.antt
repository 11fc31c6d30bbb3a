-- ===== src/Strings/Append.antt =====
-- Go's `+` on strings and strings.ReplaceAll for a text of one byte, by clauses.
use Prim.Native.Char.{code}
use datafog.Prelude.{ℕ, String, ◌≡◌, refl, ap, eqb, if◌then◌else◌}

infixr 70 ◌<>◌
abbrev pub ◌<>◌ : String → String → String
String.[] <> t = t
String.◌∷◌ c s <> t = String.◌∷◌ c (s <> t)

pub append_assoc : (r s t : String) → (r <> s) <> t ≡ r <> (s <> t)
append_assoc String.[] s t = refl
append_assoc (String.◌∷◌ c r) s t = ap (String.◌∷◌ c) (append_assoc r s t)

pub append-nil : (s : String) → s <> "" ≡ s
append-nil String.[] = refl
append-nil (String.◌∷◌ c s) = ap (String.◌∷◌ c) (append-nil s)

-- strings.ReplaceAll(s, old, new) where `old` is one ASCII character
unfoldable pub replace_char : ℕ → String → String → String
replace_char old new String.[] = String.[]
replace_char old new (String.◌∷◌ c s) =
    let rest = replace_char old new s in if eqb (code c) old then new <> rest else String.◌∷◌ c rest
