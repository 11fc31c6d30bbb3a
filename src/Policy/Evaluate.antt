-- ===== src/Policy/Evaluate.antt =====
-- `NormalizeForEvaluation`, `EvaluateSorted` and `Evaluate`.
use datafog.Prelude.{
  String, Bool, true, false, not, List, [], ◌∷◌, ◌++◌, ◌==◌, is_empty, if◌then◌else◌,
}
use datafog.Prelude.Int.{ltb_ℤ}
use datafog.Prelude.Sort.{stable_sort}
use datafog.Strings.{Unicode}
use datafog.Models.{Decision, TransformMode, TransformStep, ActionMeta, ScanFinding, Rule, Policy}
use datafog.Policy.Match.{is_required_decision, match_action, found_types, has_required_entities}

pub record DecisionContext : Type 0 where
  pub action : ActionMeta
  pub findings : List ScanFinding

pub record DecisionResult : Type 0 where
  pub decision : Decision
  pub matched_rules : List String
  pub transform_plan : List TransformStep
  pub reason : String

abbrev pub default_entity_transforms : List TransformStep
default_entity_transforms =
    record { entity_type = "email"; mode = TransformMode.mask }
    ∷ record { entity_type = "phone"; mode = TransformMode.tokenize }
    ∷ record { entity_type = "ssn"; mode = TransformMode.anonymize }
    ∷ record { entity_type = "api_key"; mode = TransformMode.redact }
    ∷ record { entity_type = "credit_card"; mode = TransformMode.redact }
    ∷ record { entity_type = "ip_address"; mode = TransformMode.mask }
    ∷ record { entity_type = "date"; mode = TransformMode.mask }
    ∷ record { entity_type = "zip_code"; mode = TransformMode.mask }
    ∷ record { entity_type = "person"; mode = TransformMode.redact }
    ∷ record { entity_type = "organization"; mode = TransformMode.mask }
    ∷ record { entity_type = "location"; mode = TransformMode.mask }
    ∷ []

-- `rules[i].Priority > rules[j].Priority`
abbrev pub before : Rule → Rule → Bool
before a b = ltb_ℤ b.priority a.priority

unfoldable pub normalize_for_evaluation : Policy → Policy
normalize_for_evaluation policy = record policy { rules = stable_sort before policy.rules }

-- The variables of the loop of `EvaluateSorted`.
pub record Tally : Type 0 where
  pub match_ids : List String
  pub transform_plan : List TransformStep
  pub transform_found : Bool
  pub transform_with_redaction : Bool
  pub deny_reason : String
  pub deny_matched : Bool
  pub matched : Bool

abbrev pub no_match : Tally
no_match = record {
  match_ids = [];
  transform_plan = [];
  transform_found = false;
  transform_with_redaction = false;
  deny_reason = "";
  deny_matched = false;
  matched = false;
}

-- the switch on the effect of a rule that applies
unfoldable pub apply_effect : Decision → Rule → Tally → Tally
apply_effect Decision.deny rule t = record t {
  deny_matched = true;
  deny_reason = if t.deny_reason == "" then rule.description else t.deny_reason;
}
apply_effect Decision.transform rule t = record t {
  transform_found = true;
  transform_plan =
      if not (is_empty rule.entity_transforms)
      then t.transform_plan ++ rule.entity_transforms
      else t.transform_plan;
}
apply_effect Decision.allow_with_redaction rule t = record t { transform_with_redaction = true }
apply_effect Decision.allow rule t = t
apply_effect (Decision.other _) rule t = t

abbrev pub plan_or_default : List TransformStep → List TransformStep
plan_or_default plan = if is_empty plan then default_entity_transforms else plan

-- what stands behind the loop
unfoldable pub conclude : Tally → DecisionResult
conclude t =
    if t.deny_matched
    then record {
      decision = Decision.deny;
      matched_rules = t.match_ids;
      transform_plan = [];
      reason = t.deny_reason;
    }
    else if t.transform_found
    then record {
      decision = Decision.transform;
      matched_rules = t.match_ids;
      transform_plan = plan_or_default t.transform_plan;
      reason = "";
    }
    else if t.transform_with_redaction
    then record {
      decision = Decision.allow_with_redaction;
      matched_rules = t.match_ids;
      transform_plan = plan_or_default t.transform_plan;
      reason = "";
    }
    else if t.matched
    then record {
      decision = Decision.allow;
      matched_rules = t.match_ids;
      transform_plan = [];
      reason = "";
    }
    else record {
      decision = Decision.deny;
      matched_rules = [];
      transform_plan = [];
      reason = "no matching rule";
    }

abbrev pub deny_because : String → DecisionResult
deny_because reason = record {
  decision = Decision.deny;
  matched_rules = [];
  transform_plan = [];
  reason = reason;
}

module _ ⦃u : Unicode⦄ where
  -- one round of the loop
  unfoldable pub tally_rule : ActionMeta → List String → Rule → Tally → Tally
  unfolding apply_effect
  tally_rule action found rule t =
      if not (is_required_decision rule.effect)
      then t
      else if not (match_action rule.match rule.require_sensitive_only action)
      then t
      else if not (has_required_entities rule.entity_requirements found)
      then t
      else apply_effect rule.effect rule
          (record t { matched = true; match_ids = t.match_ids ++ rule.id ∷ [] })

  unfoldable pub tally_rules : ActionMeta → List String → List Rule → Tally → Tally
  tally_rules action found [] t = t
  tally_rules action found (rule ∷ rest) t =
      tally_rules action found rest (tally_rule action found rule t)

  unfoldable pub evaluate_sorted : Policy → DecisionContext → DecisionResult
  unfolding conclude
  evaluate_sorted policy ctx =
      if ctx.action.type == ""
      then deny_because "action.type is required"
      else if is_empty policy.rules
      then deny_because "policy has no rules"
      else conclude (tally_rules ctx.action (found_types ctx.findings) policy.rules no_match)

  unfoldable pub evaluate : Policy → DecisionContext → DecisionResult
  evaluate policy ctx = evaluate_sorted (normalize_for_evaluation policy) ctx
