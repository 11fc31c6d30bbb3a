-- ===== src/Examples/PolicyRuns.antt =====
-- internal/policy/policy.go, run.
use mathlib.Core.List.{Memᴰ}
use datafog.Prelude.{◌≡◌, ◌≢◌, ◌↔◌, refl, true, false, List, [], ◌∷◌, select, arith}
use datafog.Strings.{ascii_tables, equal_fold, to_lower, trim_space}
use datafog.Models.{Decision}
use datafog.Policy.Match.{
  found_types, match_action, matches_field, has_required_entities, is_required_decision,
}
use datafog.Policy.Validate.{validate_policy}
use datafog.Policy.Valid.{IsValidPolicy, validate_policy-eq-nil}
use datafog.Policy.Evaluate.{evaluate_sorted, evaluate}
use datafog.Policy.Spec.{applies, verdict, evaluate_sorted-verdict}
use datafog.Policy.Safety.{deny_wins}
use datafog.Examples.{sample_policy, deny_keys, key_read}

verdict_example :
    evaluate_sorted ⦃u = ascii_tables⦄ sample_policy key_read
    ≡ verdict (
        select
          (applies ⦃u = ascii_tables⦄ key_read.action
            (found_types ⦃u = ascii_tables⦄ key_read.findings))
          sample_policy.rules)
verdict_example = evaluate_sorted-verdict ⦃u = ascii_tables⦄ sample_policy key_read

key_rule_applies :
    applies ⦃u = ascii_tables⦄ key_read.action
      (found_types ⦃u = ascii_tables⦄ key_read.findings)
      deny_keys
    ≡ true
unfolding match_action matches_field found_types has_required_entities is_required_decision
    equal_fold to_lower trim_space datafog.Policy.Match.matches_args
    datafog.Adapters.matches_adapter datafog.Prelude.contains
key_rule_applies = refl

deny_wins_example : (evaluate ⦃u = ascii_tables⦄ sample_policy key_read).decision ≡ Decision.deny
deny_wins_example =
    deny_wins ⦃u = ascii_tables⦄ sample_policy key_read deny_keys ∣ Memᴰ.tail (Memᴰ.head refl) ∣₁
      key_rule_applies refl

validate_example :
    (validate_policy ⦃u = ascii_tables⦄ sample_policy ≡ [])
    ↔ IsValidPolicy ⦃u = ascii_tables⦄ sample_policy
validate_example = validate_policy-eq-nil ⦃u = ascii_tables⦄ sample_policy
