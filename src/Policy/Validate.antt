-- ===== src/Policy/Validate.antt =====
-- `ValidatePolicy`: the errors that it collects, with what each message names.
use datafog.Prelude.{
  String, Bool, true, false, not, List, [], ◌∷◌, ◌++◌, ◌==◌, is_empty, contains, if◌then◌else◌,
}
use datafog.Prelude.Int.{ℤ, is_negative}
use datafog.Strings.{Unicode, to_lower, trim_space}
use datafog.Models.{Decision, TransformMode, TransformStep, Rule, Policy}
use datafog.Policy.Match.{is_required_decision, default_entity_types}

pub data PolicyError : Type 0 where
  policy_id_required policy_version_required no_rules rule_missing_id : PolicyError
  duplicate_rule_id : String → PolicyError
  negative_priority : String → ℤ → PolicyError
  unsupported_effect : String → Decision → PolicyError
  empty_action_type empty_tool empty_resource_prefix : String → PolicyError
  empty_command empty_arg empty_adapter empty_entity_requirement : String → PolicyError
  unsupported_requirement : String → String → PolicyError
  transform_without_type : String → PolicyError
  unsupported_transform_type : String → String → PolicyError
  unsupported_mode : String → TransformMode → PolicyError

-- allowedModes
unfoldable pub is_allowed_mode : TransformMode → Bool
is_allowed_mode (TransformMode.other _) = false
is_allowed_mode TransformMode.mask = true
is_allowed_mode TransformMode.tokenize = true
is_allowed_mode TransformMode.anonymize = true
is_allowed_mode TransformMode.redact = true
is_allowed_mode TransformMode.replace = true
is_allowed_mode TransformMode.hash = true

abbrev pub unless : Bool → PolicyError → List PolicyError
unless good e = if good then [] else e ∷ []

-- the loop over one list of conditions
unfoldable pub empty_conditions : PolicyError → List String → List PolicyError
empty_conditions e [] = []
empty_conditions e (c ∷ cs) = unless (not (trim_space c == "")) e ++ empty_conditions e cs

module _ ⦃u : Unicode⦄ where
  unfoldable pub requirement_errors : String → List String → List PolicyError
  requirement_errors rule_id [] = []
  requirement_errors rule_id (requirement ∷ rest) =
      let req_name = to_lower (trim_space requirement) in
      (if req_name == ""
        then empty_entity_requirement rule_id ∷ []
        else unless (contains req_name default_entity_types)
            (unsupported_requirement rule_id requirement))
      ++ requirement_errors rule_id rest

  unfoldable pub step_errors : String → List TransformStep → List PolicyError
  step_errors rule_id [] = []
  step_errors rule_id (step ∷ rest) =
      let entity_type = to_lower (trim_space step.entity_type) in
      (if trim_space step.entity_type == ""
        then transform_without_type rule_id ∷ []
        else unless (contains entity_type default_entity_types)
            (unsupported_transform_type rule_id step.entity_type)
          ++ unless (is_allowed_mode step.mode) (unsupported_mode rule_id step.mode))
      ++ step_errors rule_id rest

  -- one round of the loop over the rules, behind the test for an id
  unfoldable pub rule_errors : String → List String → Rule → List PolicyError
  rule_errors rule_id seen rule =
      unless (not (contains rule_id seen)) (duplicate_rule_id rule_id)
      ++ (unless (not (is_negative rule.priority)) (negative_priority rule_id rule.priority)
          ++ (unless (is_required_decision rule.effect) (unsupported_effect rule_id rule.effect)
              ++ (empty_conditions (empty_action_type rule_id) rule.match.action_types
                  ++ (empty_conditions (empty_tool rule_id) rule.match.tools
                      ++ (empty_conditions (empty_resource_prefix rule_id)
                            rule.match.resource_prefix
                          ++ (empty_conditions (empty_command rule_id) rule.match.commands
                              ++ (empty_conditions (empty_arg rule_id) rule.match.args
                                  ++ (empty_conditions (empty_adapter rule_id) rule.match.adapters
                                      ++ (requirement_errors rule_id rule.entity_requirements
                                          ++ step_errors rule_id rule.entity_transforms)))))))))

  unfoldable pub rules_errors : List String → List Rule → List PolicyError
  rules_errors seen [] = []
  rules_errors seen (rule ∷ rest) =
      let rule_id = trim_space rule.id in
      (if rule_id == "" then rule_missing_id ∷ [] else rule_errors rule_id seen rule)
      ++ rules_errors (if rule_id == "" then seen else rule_id ∷ seen) rest

  -- the policy is accepted if there is no error
  unfoldable pub validate_policy : Policy → List PolicyError
  validate_policy policy =
      unless (not (trim_space policy.policy_id == "")) policy_id_required
      ++ (unless (not (trim_space policy.policy_version == "")) policy_version_required
          ++ (unless (not (is_empty policy.rules)) no_rules ++ rules_errors [] policy.rules))
