-- ===== src/Policy/Match.antt =====
-- Whether a rule applies to an action: the conditions of internal/policy/policy.go.
use Prim.Native.String.{String}
use datafog.Prelude.{
  Bool, true, false, not, ◌&&◌, List, [], ◌∷◌, ◌==◌, is_empty, contains, if◌then◌else◌,
}
use datafog.Strings.{Unicode, to_lower, trim_space, equal_fold, has_prefix}
use datafog.Models.{Decision, ActionMeta, MatchCriteria, ScanFinding}
use datafog.Adapters.{matches_adapter}

-- RequiredDecisionInputs
unfoldable pub is_required_decision : Decision → Bool
is_required_decision Decision.allow = true
is_required_decision Decision.deny = true
is_required_decision Decision.transform = true
is_required_decision Decision.allow_with_redaction = true
is_required_decision (Decision.other _) = false

abbrev pub default_entity_types : List String
default_entity_types =
    "email" ∷ "phone" ∷ "ssn" ∷ "api_key" ∷ "credit_card" ∷ "ip_address" ∷ "date" ∷ "zip_code"
    ∷ "person" ∷ "organization" ∷ "location" ∷ []

module _ ⦃u : Unicode⦄ where
  any_equal_fold : List String → String → Bool
  any_equal_fold [] value = false
  any_equal_fold (allow ∷ rest) value =
      if equal_fold allow value then true else any_equal_fold rest value

  unfoldable pub matches_field : List String → String → Bool
  unfolding any_equal_fold
  matches_field allowed value = if is_empty allowed then true else any_equal_fold allowed value

  -- the loop over `args` for one expected argument
  any_arg : String → List String → Bool
  any_arg expected [] = false
  any_arg expected (value ∷ rest) =
      if matches_field (expected ∷ []) value then true else any_arg expected rest

  all_expected : List String → List String → Bool
  all_expected [] args = true
  all_expected (expected ∷ rest) args =
      if not (any_arg expected args) then false else all_expected rest args

  unfoldable pub matches_args : List String → List String → Bool
  unfolding all_expected any_arg
  matches_args required args =
      if is_empty required
      then true
      else if is_empty args
      then false
      else all_expected required args

  any_prefix : String → List String → Bool
  any_prefix resource [] = false
  any_prefix resource (prefix ∷ rest) =
      if has_prefix resource prefix then true else any_prefix resource rest

  unfoldable pub match_action : MatchCriteria → Bool → ActionMeta → Bool
  unfolding any_prefix
  match_action match require_sensitive_only action =
      if not (matches_field match.action_types action.type)
      then false
      else if not (matches_field match.tools action.tool)
      then false
      else if not (matches_field match.commands action.command)
      then false
      else if not (matches_args match.args action.args)
      then false
      else if not (matches_adapter action.tool match.adapters)
      then false
      else if require_sensitive_only && not action.sensitive
      then false
      else if not (is_empty match.resource_prefix) && action.resource == ""
      then false
      else if any_prefix action.resource match.resource_prefix
      then true
      else if not (is_empty match.resource_prefix)
      then false
      else true

  -- the keys of `hasFindings`
  unfoldable pub found_types : List ScanFinding → List String
  found_types [] = []
  found_types (f ∷ fs) = to_lower f.entity_type ∷ found_types fs

  unfoldable pub has_required_entities : List String → List String → Bool
  has_required_entities [] found = true
  has_required_entities (req ∷ reqs) found =
      let req_name = to_lower (trim_space req) in
      if not (contains req_name default_entity_types)
      then false
      else if not (contains req_name found)
      then false
      else has_required_entities reqs found
