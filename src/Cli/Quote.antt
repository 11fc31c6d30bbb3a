-- ===== src/Cli/Quote.antt =====
-- cmd/datafog-shim/main.go: `shQuote` and `shellEscape`, which put a text into the generated script,
-- and how a POSIX shell reads such a word.
use Prim.Native.Char.{Char, code}
use Prim.Native.String
use datafog.Prelude.{ℕ, String, Bool, ◌||◌, Option, none, some, eqb, if◌then◌else◌}
use datafog.Strings.{trim_space}
use datafog.Strings.Append.{◌<>◌, replace_char}

unfoldable pub sh_quote : String → String
sh_quote value = "'" <> (replace_char 39 "'\\''" value <> "'")

unfoldable pub shell_escape : String → String
shell_escape value = replace_char 34 "\\\"" (trim_space value)

-- Where the shell stands in a word: outside quotes, in single or double quotes, or behind a
-- backslash outside quotes or in double quotes.
pub data Place : Type 0 where
  bare single double escaped double_escaped : Place

-- in double quotes, a backslash makes these literal
abbrev pub is_escapable : ℕ → Bool
is_escapable n = eqb n 36 || eqb n 96 || eqb n 34 || eqb n 92

-- characters that end the word or begin an expansion outside quotes
abbrev pub is_special : ℕ → Bool
is_special n =
    eqb n 32
    || eqb n 9
    || eqb n 10
    || eqb n 36
    || eqb n 96
    || eqb n 59
    || eqb n 38
    || eqb n 124
    || eqb n 40
    || eqb n 41
    || eqb n 60
    || eqb n 62
    || eqb n 42
    || eqb n 63
    || eqb n 91

-- One character: what it adds to the word and where the shell then stands, or none where the text is
-- no longer one literal word. A newline behind a backslash, which the shell drops, is none too.
unfoldable pub turn : Place → Char → Option (String × Place)
turn bare c =
    if eqb (code c) 39
    then some ("", single)
    else if eqb (code c) 34
    then some ("", double)
    else if eqb (code c) 92
    then some ("", escaped)
    else if is_special (code c)
    then none
    else some (String.◌∷◌ c "", bare)
turn single c = if eqb (code c) 39 then some ("", bare) else some (String.◌∷◌ c "", single)
turn double c =
    if eqb (code c) 34
    then some ("", bare)
    else if eqb (code c) 92
    then some ("", double_escaped)
    else if eqb (code c) 36 || eqb (code c) 96
    then none
    else some (String.◌∷◌ c "", double)
turn escaped c = if eqb (code c) 10 then none else some (String.◌∷◌ c "", bare)
turn double_escaped c =
    if eqb (code c) 10
    then none
    else if is_escapable (code c)
    then some (String.◌∷◌ c "", double)
    else some (String.◌∷◌ (Prim.Native.String.char_at "\\" 0) (String.◌∷◌ c ""), double)

abbrev pub prepend : String → Option String → Option String
prepend out none = none
prepend out (some rest) = some (out <> rest)

-- The value of a text that is one word, or none.
unfoldable pub word : Place → String → Option String
word bare String.[] = some ""
word _ String.[] = none
word p (String.◌∷◌ c s) = elim (turn p c) [ none ↦ none | some (out, q) ↦ prepend out (word q s) ]
