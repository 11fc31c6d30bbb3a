-- ===== src/Scan/Filters.antt =====
-- internal/scan/filters.go. A set of names is the list of them, and Go's nil set is the empty one.
use datafog.Prelude.{
  String, Bool, true, ◌||◌, List, [], ◌∷◌, ◌==◌, is_empty, contains, if◌then◌else◌,
}
use datafog.Strings.{Unicode, to_lower, trim_space}

module _ ⦃u : Unicode⦄ where
  unfoldable pub requested_entity_set : List String → List String
  requested_entity_set [] = []
  requested_entity_set (name ∷ names) =
      let entity = to_lower (trim_space name) in
      let rest = requested_entity_set names in if entity == "" then rest else entity ∷ rest

unfoldable pub should_run_entity_type : List String → String → Bool
should_run_entity_type requested entity_type =
    if is_empty requested then true else contains entity_type requested

unfoldable pub should_run_ner_for_filter : List String → Bool
should_run_ner_for_filter requested =
    if is_empty requested
    then true
    else contains "person" requested
      || contains "organization" requested
      || contains "location" requested
