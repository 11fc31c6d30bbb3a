-- ===== src/Scan/Detector.antt =====
-- internal/scan/detector.go: `ScanText`. What the regular expression of an entity type finds,
-- `FindAllStringIndex(text, -1)`, is the parameter `find_all`. None stands for a recogniser without
-- enough fuel.
use datafog.Prelude.{
  ℕ, String, Bool, true, not, ◌||◌, Option, none, some, List, [], ◌∷◌, ◌++◌, ◌==◌, if◌then◌else◌,
}
use datafog.Prelude.Int.{ℤ, pos_part, is_negative, ltb_ℤ}
use datafog.Strings.{Unicode, Bytes}
use datafog.Models.{ScanFinding}
use datafog.Scan.Filters.{requested_entity_set, should_run_entity_type, should_run_ner_for_filter}
use datafog.Scan.Validators.{luhn_valid, ipv4_valid}
use datafog.Scan.Tokens.{Encoding}
use datafog.Scan.Ner.{slice, scan_ner_with_filter}

unfoldable pub default_scan_entity_types : List String
default_scan_entity_types =
    "api_key" ∷ "credit_card" ∷ "date" ∷ "email" ∷ "ip_address" ∷ "phone" ∷ "ssn" ∷ "zip_code" ∷ []

unfoldable pub default_entity_confidence : String → ℕ
default_entity_confidence entity_type =
    if entity_type == "email"
    then 995
    else if entity_type == "phone"
    then 880
    else if entity_type == "ssn"
    then 990
    else if entity_type == "api_key"
    then 940
    else if entity_type == "credit_card"
    then 950
    else if entity_type == "ip_address"
    then 900
    else if entity_type == "date"
    then 850
    else if entity_type == "zip_code"
    then 800
    else 0

-- the validators of `DefaultEntityPatterns`; a pattern without one keeps every match
unfoldable pub validate : String → Bytes → Bool
validate entity_type value =
    if entity_type == "credit_card"
    then luhn_valid value
    else if entity_type == "ip_address"
    then ipv4_valid value
    else true

-- one round of the loop over the matches
unfoldable pub match_finding : Bytes → String → List ℤ → Option ScanFinding
match_finding text entity_type (start ∷ end ∷ []) =
    let value = slice text (pos_part start) (pos_part end) in
    if is_negative start || ltb_ℤ end start
    then none
    else if not (validate entity_type value)
    then none
    else some record {
      entity_type = entity_type;
      value = value;
      start = start;
      end = end;
      confidence = default_entity_confidence entity_type;
    }
match_finding text entity_type [] = none
match_finding text entity_type (a ∷ []) = none
match_finding text entity_type (a ∷ b ∷ c ∷ more) = none

abbrev pub keep : Option ScanFinding → List ScanFinding → List ScanFinding
keep none fs = fs
keep (some f) fs = f ∷ fs

unfoldable pub match_findings : Bytes → String → List (List ℤ) → List ScanFinding
unfolding match_finding
match_findings text entity_type [] = []
match_findings text entity_type (idx ∷ idxs) =
    keep (match_finding text entity_type idx) (match_findings text entity_type idxs)

abbrev pub append_found : List ScanFinding → Option (List ScanFinding) → Option (List ScanFinding)
append_found fs none = none
append_found fs (some more) = some (fs ++ more)

module _ (find_all : String → Bytes → List (List ℤ)) where
  unfoldable pub pattern_findings : Bytes → List String → List String → List ScanFinding
  unfolding match_findings
  pattern_findings text requested [] = []
  pattern_findings text requested (entity_type ∷ entity_types) =
      let rest = pattern_findings text requested entity_types in
      if should_run_entity_type requested entity_type
      then match_findings text entity_type (find_all entity_type text) ++ rest
      else rest

  unfoldable pub scan_text :
      ⦃u : Unicode⦄ ⦃e : Encoding⦄ → Bool → Bytes → List String → Option (List ScanFinding)
  scan_text ⦃u⦄ ⦃e⦄ ner_enabled text entity_filter =
      let requested = requested_entity_set entity_filter in
      let findings = pattern_findings text requested default_scan_entity_types in
      if not (should_run_ner_for_filter requested)
      then some findings
      else append_found findings (scan_ner_with_filter ner_enabled text requested)
