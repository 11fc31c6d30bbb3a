-- ===== src/Examples/NerRuns.antt =====
-- internal/scan/ner.go and `ScanText`, run on a text in ASCII.
use Prim.Native.Char.{Char, code}
use Prim.Native.String.{char_at}
use datafog.Prelude.{◌-◌, String, true, ◌<◌, ◌≡◌, refl, some, List, [], ◌∷◌, length, arith, All}
use datafog.Prelude.Int.{ℤ, pos}
use datafog.Strings.{ascii_tables, Bytes}
use datafog.Models.{ScanFinding}
use datafog.Scan.Tokens.{Encoding, TokenInfo, encode, tokenize}
use datafog.Scan.Layout.{tokenize_ends}
use datafog.Scan.Ner.{scan_ner}
use datafog.Scan.Extents.{InOrder, scan_ner-InOrder}
use datafog.Scan.Detector.{scan_text}
use datafog.Scan.Sound.{IsMatch, IsOnText, scan_text-All}

-- the printable characters of ASCII
abbrev printable : String
printable =
    " !\"#$%&'()*+,-./0123456789:;<=>?@ABCDEFGHIJKLMNOPQRSTUVWXYZ[\\]^_`abcdefghijklmnopqrstuvwxyz{|}~"

abbrev ascii_runes : Bytes → String
ascii_runes [] = String.[]
ascii_runes (b ∷ bs) = String.◌∷◌ (char_at printable (b - 32)) (ascii_runes bs)

-- one byte for each rune
abbrev ascii : Encoding
ascii = record { runes = ascii_runes; utf8 = λ c. code c ∷ [] }

abbrev ascii_bytes : String → Bytes
ascii_bytes String.[] = []
ascii_bytes (String.◌∷◌ c s) = code c ∷ ascii_bytes s

abbrev text : Bytes
text = ascii_bytes "Mr. Ada Lovell is in Paris"

some_byte : (c : Char) → 0 < length (ascii.utf8 c)
some_byte c = omega arith

valid : encode ⦃e = ascii⦄ (ascii.runes text) ≡ text
unfolding encode
valid = refl

ends_example : (ts : List TokenInfo) × (tokenize ⦃e = ascii⦄ text ≡ some ts)
ends_example = tokenize_ends ⦃e = ascii⦄ text

recogniser_example :
    (fs : List ScanFinding) × (scan_ner ⦃u = ascii_tables⦄ ⦃e = ascii⦄ true text [] ≡ some fs)
    × InOrder text 0 fs
recogniser_example = scan_ner-InOrder ⦃u = ascii_tables⦄ ⦃e = ascii⦄ text true [] some_byte valid

-- what a matcher finds: a date at the end of the text
abbrev find_all : String → Bytes → List (List ℤ)
find_all entity_type bytes = (pos 0 ∷ pos 3 ∷ []) ∷ (pos 4 ∷ pos 7 ∷ []) ∷ []

matches : (entity_type : String) → All (IsMatch text) (find_all entity_type text)
unfolding IsMatch
matches entity_type =
    ((0, 3, refl, omega arith, omega arith), ((4, 7, refl, omega arith, omega arith), tt))

scan_text_example :
    (fs : List ScanFinding) × (scan_text find_all ⦃u = ascii_tables⦄ ⦃e = ascii⦄ true text []
      ≡ some fs)
    × All (IsOnText text) fs
scan_text_example =
    scan_text-All find_all text matches ⦃u = ascii_tables⦄ ⦃e = ascii⦄ true [] some_byte valid
