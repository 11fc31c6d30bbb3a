-- ===== src/Scan/Ner.antt =====
-- internal/scan/ner.go: the recogniser of persons, organizations and locations. The offsets are
-- natural numbers, since `byteOffset` is never negative.
use Prim.Native.Char.{Char, code}
use datafog.Prelude.{
  ℕ, zero, suc, ◌-◌, String, Bool, true, false, not, ◌&&◌, ◌||◌, Option, none, some, List, [], ◌∷◌,
  ltb, leb, eqb, is_empty, length, take, drop, contains, if◌then◌else◌,
}
use datafog.Prelude.Int.{pos}
use datafog.Strings.{Unicode, Bytes, to_lower}
use datafog.Models.{ScanFinding}
use datafog.Scan.Filters.{requested_entity_set, should_run_entity_type, should_run_ner_for_filter}
use datafog.Scan.Dictionaries.{
  person_triggers, org_suffixes, location_triggers, common_first_names, well_known_locations,
}
use datafog.Scan.Tokens.{Encoding, TokenInfo, rune_count, encode, tokenize}

-- text[start:end]
abbrev pub slice : Bytes → ℕ → ℕ → Bytes
slice text start end = take (end - start) (drop start text)

abbrev pub last_end : TokenInfo → List TokenInfo → ℕ
last_end tok [] = tok.end
last_end tok (next ∷ rest) = last_end next rest

abbrev pub last_token : TokenInfo → List TokenInfo → TokenInfo
last_token tok [] = tok
last_token tok (next ∷ rest) = last_token next rest

-- of a span, its first token and the others
unfoldable pub build_span_text : Bytes → TokenInfo → List TokenInfo → Bytes
build_span_text text tok more =
    let end = last_end tok more in
    if ltb (length text) end || leb end tok.start then [] else slice text tok.start end

abbrev ends_sentence : Bytes → Bool
ends_sentence [] = false
ends_sentence (b ∷ []) = eqb b b'.' || eqb b b'!' || eqb b b'?'
ends_sentence (b ∷ c ∷ bs) = ends_sentence (c ∷ bs)

abbrev pub finding : String → ℕ → Bytes → TokenInfo → List TokenInfo → ScanFinding
finding entity_type confidence text tok more = record {
  entity_type = entity_type;
  value = build_span_text text tok more;
  start = pos tok.start;
  end = pos (last_end tok more);
  confidence = confidence;
}

-- what the loop goes on with, passing over so many tokens if there is a finding
abbrev pub add_finding : Option ScanFinding → ℕ → (ℕ → List ScanFinding) → List ScanFinding
add_finding none skipped later = later 0
add_finding (some f) skipped later = f ∷ later skipped

-- Which entities are asked for.
pub record Wanted : Type 0 where
  pub person : Bool
  pub organization : Bool
  pub location : Bool

unfoldable pub wanted : List String → Wanted
wanted requested = record {
  person = should_run_entity_type requested "person";
  organization = should_run_entity_type requested "organization";
  location = should_run_entity_type requested "location";
}

module _ ⦃u : Unicode⦄ ⦃e : Encoding⦄ where
  -- unicode.IsUpper
  is_upper_char : Char → Bool
  is_upper_char c =
      if ltb (code c) 128 then leb b'A' (code c) && leb (code c) b'Z' else u.is_upper c

  unfoldable pub is_title_case : String → Bool
  unfolding is_upper_char
  is_title_case String.[] = false
  is_title_case (String.◌∷◌ c s) = is_upper_char c && ltb 1 (rune_count (String.◌∷◌ c s))

  unfoldable pub is_connector : String → Bool
  is_connector s = contains (to_lower s) ("of" ∷ "the" ∷ "and" ∷ "de" ∷ "van" ∷ "von" ∷ [])

  unfoldable pub is_sentence_end : String → Bool
  is_sentence_end s = ends_sentence (encode s)

  abbrev starts_title : List TokenInfo → Bool
  starts_title [] = false
  starts_title (tok ∷ rest) = is_title_case tok.text

  -- the tokens behind the first that belong to the span
  unfoldable pub gather : List TokenInfo → List TokenInfo
  gather [] = []
  gather (next ∷ rest) =
      let more = gather rest in
      if is_connector next.text && starts_title rest
      then next ∷ more
      else if is_title_case next.text
      then next ∷ more
      else []

  -- for organizations, without a first word that only begins the sentence
  unfoldable pub org_finding : Bytes → Bool → TokenInfo → List TokenInfo → ScanFinding
  unfolding is_sentence_end
  org_finding text initial tok [] = finding "organization" 650 text tok []
  org_finding text initial tok (next ∷ more) =
      let first_lower = to_lower tok.text in
      if initial
        && (not (contains first_lower common_first_names)
            && not (contains first_lower org_suffixes))
      then finding "organization" 650 text next more
      else finding "organization" 650 text tok (next ∷ more)

  -- the finding for a span, if it has one
  unfoldable pub classify :
      Bytes → Wanted → String → Bool → TokenInfo → List TokenInfo → Option ScanFinding
  unfolding org_finding
  classify text want prev_word initial tok more =
      if want.organization && contains (to_lower (last_token tok more).text) org_suffixes
      then some (org_finding text initial tok more)
      else if want.person && contains prev_word person_triggers
      then some (finding "person" 800 text tok more)
      else if want.person
          && (not (is_empty more) && contains (to_lower tok.text) common_first_names)
      then some (finding "person" 700 text tok more)
      else if want.location
          && contains (to_lower (e.runes (build_span_text text tok more))) well_known_locations
      then some (finding "location" 800 text tok more)
      else if want.location && contains prev_word location_triggers
      then some (finding "location" 650 text tok more)
      else none

  abbrev lower_word : Option TokenInfo → String
  lower_word none = ""
  lower_word (some tok) = to_lower tok.text

  abbrev is_initial : Option TokenInfo → Bool
  is_initial none = true
  is_initial (some tok) = is_sentence_end tok.text

  -- The loop on the tokens from `i` on, of which the first `skipped` belong to a finding; `prev` is
  -- the token before them.
  unfoldable pub scan_tokens :
      Bytes → Wanted → ℕ → Option TokenInfo → List TokenInfo → List ScanFinding
  unfolding gather classify
  scan_tokens text want skipped prev [] = []
  scan_tokens text want (suc skipped) prev (tok ∷ rest) =
      scan_tokens text want skipped (some tok) rest
  scan_tokens text want zero prev (tok ∷ rest) =
      let later : ℕ → List ScanFinding = λ n. scan_tokens text want n (some tok) rest in
      let more = gather rest in
      if is_title_case tok.text
      then add_finding (classify text want (lower_word prev) (is_initial prev) tok more)
          (length more) later
      else later 0

  abbrev pub scan_all : Bytes → Wanted → Option (List TokenInfo) → Option (List ScanFinding)
  scan_all text want none = none
  scan_all text want (some tokens) = some (scan_tokens text want 0 none tokens)

  unfoldable pub scan_ner_with_filter : Bool → Bytes → List String → Option (List ScanFinding)
  scan_ner_with_filter ner_enabled text requested =
      if not ner_enabled
      then some []
      else if not (is_empty requested) && not (should_run_ner_for_filter requested)
      then some []
      else scan_all text (wanted requested) (tokenize text)

  unfoldable pub scan_ner : Bool → Bytes → List String → Option (List ScanFinding)
  scan_ner ner_enabled text entity_filter =
      if not ner_enabled
      then some []
      else scan_ner_with_filter ner_enabled text (requested_entity_set entity_filter)
