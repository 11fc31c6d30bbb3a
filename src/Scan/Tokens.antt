-- ===== src/Scan/Tokens.antt =====
-- internal/scan/ner.go: `tokenize` and `byteOffset`. Go's conversions between a string and its runes
-- are the parameter `Encoding`.
use Prim.Native.Char.{Char, code}
use datafog.Prelude.{
  ℕ, zero, suc, ◌+◌, String, Bool, Option, none, some, List, [], ◌∷◌, ◌++◌, ◌||◌, ltb, length,
  if◌then◌else◌, eqb,
}
use datafog.Strings.{Bytes, is_space}

-- `[]rune(s)`, and the UTF-8 of a rune
pub record Encoding : Type 0 where
  pub runes : Bytes → String
  pub utf8 : Char → Bytes

abbrev pub rune_count : String → ℕ
rune_count String.[] = 0
rune_count (String.◌∷◌ c s) = suc (rune_count s)

abbrev pub take_runes : ℕ → String → String
take_runes zero s = String.[]
take_runes (suc n) String.[] = String.[]
take_runes (suc n) (String.◌∷◌ c s) = String.◌∷◌ c (take_runes n s)

pub record TokenInfo : Type 0 where
  pub text : String
  pub start : ℕ
  pub end : ℕ

-- the white space in front, counted, and what follows
unfoldable pub skip_spaces : String → ℕ × String
skip_spaces String.[] = (0, String.[])
skip_spaces (String.◌∷◌ c s) =
    let (n, rest) = skip_spaces s in if is_space c then (suc n, rest) else (0, String.◌∷◌ c s)

-- the word in front, and what follows
unfoldable pub take_word : String → String × String
take_word String.[] = (String.[], String.[])
take_word (String.◌∷◌ c s) =
    let (word, rest) = take_word s in
    if is_space c then (String.[], String.◌∷◌ c s) else (String.◌∷◌ c word, rest)

-- `,;:!?"')`
abbrev pub is_punctuation : Char → Bool
is_punctuation c =
    let n = code c in
    eqb n b','
    || eqb n b';'
    || eqb n b':'
    || eqb n b'!'
    || eqb n b'?'
    || eqb n 34
    || eqb n 39
    || eqb n 41

-- a rune goes only if all behind it has gone
unfoldable pub cons_unless_punctuation : Char → String → String
cons_unless_punctuation c String.[] = if is_punctuation c then String.[] else String.◌∷◌ c String.[]
cons_unless_punctuation c (String.◌∷◌ d s) = String.◌∷◌ c (String.◌∷◌ d s)

-- strings.TrimRight with these
unfoldable pub trim_punctuation : String → String
trim_punctuation String.[] = String.[]
trim_punctuation (String.◌∷◌ c s) = cons_unless_punctuation c (trim_punctuation s)

-- the token of a trimmed word, if any, in front of the tokens that follow
abbrev pub add_token : (ℕ → ℕ) → ℕ → String → List TokenInfo → List TokenInfo
add_token offset start String.[] tokens = tokens
add_token offset start (String.◌∷◌ c s) tokens =
    record {
      text = String.◌∷◌ c s;
      start = offset start;
      end = offset (start + rune_count (String.◌∷◌ c s));
    }
    ∷ tokens

module _ ⦃e : Encoding⦄ where
  -- `string(runes)`
  unfoldable pub encode : String → Bytes
  encode String.[] = []
  encode (String.◌∷◌ c s) = e.utf8 c ++ encode s

  unfoldable pub byte_offset : Bytes → ℕ → ℕ
  byte_offset text rune_idx =
      let runes = e.runes text in
      if ltb rune_idx (rune_count runes)
      then length (encode (take_runes rune_idx runes))
      else length text

abbrev pub put_token : (ℕ → ℕ) → ℕ → String → Option (List TokenInfo) → Option (List TokenInfo)
put_token offset start word none = none
put_token offset start word (some tokens) = some (add_token offset start word tokens)

-- The loop at the rune `i`, where `rest` begins; none if the fuel does not suffice.
unfoldable pub tokenize_from : (ℕ → ℕ) → ℕ → ℕ → String → Option (List TokenInfo)
tokenize_from offset zero i rest = if eqb (rune_count rest) 0 then some [] else none
tokenize_from offset (suc fuel) i rest =
    let start = i + (skip_spaces rest).0 in
    let (word, after) = take_word (skip_spaces rest).1 in
    let tokens = tokenize_from offset fuel (start + rune_count word) after in
    if eqb (rune_count (skip_spaces rest).1) 0
    then some []
    else put_token offset start (trim_punctuation word) tokens

module _ ⦃e : Encoding⦄ where
  -- enough fuel is the number of runes
  unfoldable pub tokenize : Bytes → Option (List TokenInfo)
  tokenize text = tokenize_from (byte_offset text) (rune_count (e.runes text)) 0 (e.runes text)
