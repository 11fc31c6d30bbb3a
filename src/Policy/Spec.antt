-- ===== src/Policy/Spec.antt =====
-- What a policy decision means: of the rules that apply, a denial wins, then a transformation, then
-- a redaction, then a permission; where none applies the action is denied.
use datafog.Prelude.{
  String, Bool, true, false, not, ◌&&◌, ◌||◌, ◌≡◌, refl, List, [], ◌∷◌, ◌++◌, append_assoc,
  append-nil, arith, ◌∙◌, ◌==◌, eq_iff, is_empty, any, select, if◌then◌else◌,
}
use datafog.Strings.{Unicode}
use datafog.Models.{Decision, TransformStep, ActionMeta, Rule, Policy}
use datafog.Policy.Match.{is_required_decision, match_action, found_types, has_required_entities}
use datafog.Policy.Evaluate.{
  DecisionContext, DecisionResult, Tally, no_match, apply_effect, conclude, deny_because,
  plan_or_default, tally_rule, tally_rules, evaluate_sorted,
}

abbrev pub is_deny : Rule → Bool
is_deny r = elim r.effect [ Decision.deny ↦ true | _ ↦ false ]

abbrev pub is_transform : Rule → Bool
is_transform r = elim r.effect [ Decision.transform ↦ true | _ ↦ false ]

abbrev pub is_redaction : Rule → Bool
is_redaction r = elim r.effect [ Decision.allow_with_redaction ↦ true | _ ↦ false ]

abbrev pub rule_ids : List Rule → List String
rule_ids [] = []
rule_ids (r ∷ rs) = r.id ∷ rule_ids rs

-- the first description among the denials that is not empty
abbrev pub first_reason : List Rule → String
first_reason [] = ""
first_reason (r ∷ rs) =
    let rest = first_reason rs in
    if is_deny r && not (r.description == "") then r.description else rest

-- the steps of the transformations, in their order
abbrev pub all_steps : List Rule → List TransformStep
all_steps [] = []
all_steps (r ∷ rs) =
    let rest = all_steps rs in if is_transform r then r.entity_transforms ++ rest else rest

-- The decision on the rules that apply.
abbrev pub verdict : List Rule → DecisionResult
verdict rules =
    if is_empty rules
    then deny_because "no matching rule"
    else if any is_deny rules
    then record {
      decision = Decision.deny;
      matched_rules = rule_ids rules;
      transform_plan = [];
      reason = first_reason rules;
    }
    else if any is_transform rules
    then record {
      decision = Decision.transform;
      matched_rules = rule_ids rules;
      transform_plan = plan_or_default (all_steps rules);
      reason = "";
    }
    else if any is_redaction rules
    then record {
      decision = Decision.allow_with_redaction;
      matched_rules = rule_ids rules;
      transform_plan = plan_or_default [];
      reason = "";
    }
    else record {
      decision = Decision.allow;
      matched_rules = rule_ids rules;
      transform_plan = [];
      reason = "";
    }

-- the variables after the rules that apply, from any state of the loop
after : Tally → List Rule → Tally
after t rules = record {
  match_ids = t.match_ids ++ rule_ids rules;
  transform_plan = t.transform_plan ++ all_steps rules;
  transform_found = t.transform_found || any is_transform rules;
  transform_with_redaction = t.transform_with_redaction || any is_redaction rules;
  deny_reason = if t.deny_reason == "" then first_reason rules else t.deny_reason;
  deny_matched = t.deny_matched || any is_deny rules;
  matched = t.matched || not (is_empty rules);
}

all_steps-nil : (rules : List Rule) → any is_transform rules ≡ false → all_steps rules ≡ []
all_steps-nil [] h = refl
all_steps-nil (r ∷ rs) h = ground (arith, all_steps-nil rs)

conclude-after : (rules : List Rule) → conclude (after no_match rules) ≡ verdict rules
unfolding conclude after
conclude-after [] = refl
conclude-after (r ∷ rs) = ground (arith, all_steps-nil (r ∷ rs))

module _ ⦃u : Unicode⦄ where
  -- The rule's effect is known, and its conditions hold of the action and the findings.
  abbrev pub applies : ActionMeta → List String → Rule → Bool
  applies action found rule =
      is_required_decision rule.effect
      && match_action rule.match rule.require_sensitive_only action
      && has_required_entities rule.entity_requirements found

  after-nil : (t : Tally) → t ≡ after t []
  unfolding after
  after-nil t =
      ground (arith, append-nil t.match_ids, append-nil t.transform_plan, eq_iff t.deny_reason "")

  after-cons :
      (action : ActionMeta) (found : List String) (rule : Rule) (t : Tally) (rules : List Rule)
      → after (tally_rule action found rule t) rules
        ≡ after t (if applies action found rule then rule ∷ rules else rules)
  unfolding after tally_rule apply_effect is_required_decision
  after-cons action found rule t rules = ground (
    arith,
    append_assoc t.match_ids (rule.id ∷ []) (rule_ids rules),
    append_assoc t.transform_plan rule.entity_transforms (all_steps rules),
    eq_iff t.deny_reason "",
    eq_iff rule.description "",
  )

  tally_rules-after :
      (action : ActionMeta) (found : List String) (rules : List Rule) (t : Tally)
      → tally_rules action found rules t ≡ after t (select (applies action found) rules)
  unfolding tally_rules
  tally_rules-after action found [] t = after-nil t
  tally_rules-after action found (rule ∷ rest) t =
      tally_rules-after action found rest (tally_rule action found rule t)
      ∙ after-cons action found rule t (select (applies action found) rest)

  -- `EvaluateSorted` decides by the rules that apply alone, in the order in which they stand: a
  -- denial wins over a transformation, that over a redaction, and that over a permission; the
  -- matched rules are all that apply; an action without a type and a policy without rules are denied.
  pub evaluate_sorted-verdict :
      (policy : Policy) (ctx : DecisionContext)
      → evaluate_sorted policy ctx ≡ (
          if ctx.action.type == ""
          then deny_because "action.type is required"
          else if is_empty policy.rules
          then deny_because "policy has no rules"
          else verdict (select (applies ctx.action (found_types ctx.findings)) policy.rules))
  unfolding evaluate_sorted
  evaluate_sorted-verdict policy ctx =
      let rules = select (applies ctx.action (found_types ctx.findings)) policy.rules in
      ground (
        arith,
        tally_rules-after ctx.action (found_types ctx.findings) policy.rules no_match,
        conclude-after rules,
      )
