-- ===== src/Cli/Words.antt =====
-- What the shell makes of the texts that the generated script quotes.
use Prim.Native.Char.{Char, code}
use Prim.Native.String.{char_at}
use text.Mathlib.TextEquality.{Char-path}
use datafog.Prelude.{
  String, Bool, true, false, not, ◌||◌, ◌&&◌, Option, none, some, ◌≡◌, refl, ap, sym, ◌∙◌, eqb,
  arith, Bool-cases, inl, inr,
}
use datafog.Strings.{trim_space}
use datafog.Strings.Append.{◌<>◌, replace_char, append_assoc, append-nil}
use datafog.Cli.Quote.{
  sh_quote, shell_escape, Place, bare, single, double, escaped, double_escaped, turn, prepend, word,
}

prepend-nil : (o : Option String) → prepend "" o ≡ o
prepend-nil none = refl
prepend-nil (some s) = refl

prepend_twice : (s t : String) (o : Option String) → prepend s (prepend t o) ≡ prepend (s <> t) o
prepend_twice s t none = refl
prepend_twice s t (some r) = ap some (sym (append_assoc s t r))

is_char : (c d : Char) → eqb (code c) (code d) ≡ true → c ≡ d
is_char c d h = Char-path c d (ground arith)

-- the characters for the two quotes
abbrev quote : Char
quote = char_at "'" 0

abbrev double_quote : Char
double_quote = char_at "\"" 0

word-turn :
    (p q : Place) (c : Char) (s out : String)
    → turn p c ≡ some (out, q)
    → word p (String.◌∷◌ c s) ≡ prepend out (word q s)
unfolding word
word-turn bare q c s out e = ap (λ t. elim t [ none ↦ none | some (o, r) ↦ prepend o (word r s) ]) e
word-turn single q c s out e =
    ap (λ t. elim t [ none ↦ none | some (o, r) ↦ prepend o (word r s) ]) e
word-turn double q c s out e =
    ap (λ t. elim t [ none ↦ none | some (o, r) ↦ prepend o (word r s) ]) e
word-turn escaped q c s out e =
    ap (λ t. elim t [ none ↦ none | some (o, r) ↦ prepend o (word r s) ]) e
word-turn double_escaped q c s out e =
    ap (λ t. elim t [ none ↦ none | some (o, r) ↦ prepend o (word r s) ]) e

word_single :
    (v rest : String)
    → word single (replace_char 39 "'\\''" v <> ("'" <> rest)) ≡ prepend v (word bare rest)
unfolding word replace_char turn
word_single String.[] rest = refl
word_single (String.◌∷◌ c v) rest = elim (Bool-cases (eqb (code c) 39)) [
  | inl e ↦ rw e (
      prepend-nil _
      ∙ prepend-nil _
      ∙ ap (prepend "'") (prepend-nil _ ∙ word_single v rest)
      ∙ prepend_twice "'" v (word bare rest)
      ∙ ap (λ d. prepend (String.◌∷◌ d v) (word bare rest)) (sym (is_char c quote e)))
  | inr e ↦ rw e (
      word-turn single single c _ (String.◌∷◌ c "") (rw e refl)
      ∙ ap (prepend (String.◌∷◌ c "")) (word_single v rest)
      ∙ prepend_twice (String.◌∷◌ c "") v (word bare rest))
]

-- The shell reads what `shQuote` makes of a text as one word, the text itself, whatever it is.
pub word-sh_quote : (value : String) → word bare (sh_quote value) ≡ some value
unfolding word sh_quote turn
word-sh_quote value = prepend-nil _ ∙ word_single value "" ∙ ap some (append-nil value)

-- A text in which the shell expands nothing inside double quotes.
unfoldable pub is_plain : String → Bool
is_plain String.[] = true
is_plain (String.◌∷◌ c s) =
    not (eqb (code c) 36 || eqb (code c) 96 || eqb (code c) 92) && is_plain s

word_double :
    (v rest : String)
    → is_plain v ≡ true
    → word double (replace_char 34 "\\\"" v <> ("\"" <> rest)) ≡ prepend v (word bare rest)
unfolding word replace_char turn is_plain
word_double String.[] rest h = refl
word_double (String.◌∷◌ c v) rest h = elim (Bool-cases (eqb (code c) 34)) [
  | inl e ↦ rw e (
      prepend-nil _
      ∙ ap (prepend "\"") (word_double v rest (ground arith))
      ∙ prepend_twice "\"" v (word bare rest)
      ∙ ap (λ d. prepend (String.◌∷◌ d v) (word bare rest)) (sym (is_char c double_quote e)))
  | inr e ↦
      let other : eqb (code c) 92 ≡ false = ground arith in
      let still : (eqb (code c) 36 || eqb (code c) 96) ≡ false = ground arith in
      rw e (
        word-turn double double c _ (String.◌∷◌ c "") (rw (e, other, still) refl)
        ∙ ap (prepend (String.◌∷◌ c "")) (word_double v rest (ground arith))
        ∙ prepend_twice (String.◌∷◌ c "") v (word bare rest))
]

-- Between double quotes the shell reads what `shellEscape` makes of a text as the trimmed text, if
-- that has no dollar sign, backquote or backslash.
pub word-shell_escape :
    (value : String)
    → is_plain (trim_space value) ≡ true
    → word bare ("\"" <> (shell_escape value <> "\"")) ≡ some (trim_space value)
unfolding word shell_escape turn
word-shell_escape value h =
    prepend-nil _ ∙ word_double (trim_space value) "" h ∙ ap some (append-nil (trim_space value))

breaks :
    (rest : String)
    → word double (replace_char 34 "\\\"" ("\\\"" <> rest) <> "\"")
      ≡ prepend "\\" (word bare (replace_char 34 "\\\"" rest <> "\""))
unfolding word replace_char turn
breaks rest = prepend-nil _ ∙ ap (prepend "\\") (prepend-nil _)

-- A backslash in front of a double quote ends the quotation: of a text that begins with these two and
-- has no space at its ends, the shell reads the rest outside the quotes that `shellEscape` is for.
pub shell_escape_breaks :
    (rest : String)
    → trim_space ("\\\"" <> rest) ≡ "\\\"" <> rest
    → word double (shell_escape ("\\\"" <> rest) <> "\"")
      ≡ prepend "\\" (word bare (replace_char 34 "\\\"" rest <> "\""))
unfolding shell_escape
shell_escape_breaks rest trimmed =
    ap (λ s. word double (replace_char 34 "\\\"" s <> "\"")) trimmed ∙ breaks rest
