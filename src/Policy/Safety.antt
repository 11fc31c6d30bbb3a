-- ===== src/Policy/Safety.antt =====
-- When an action is permitted and when it is denied.
use mathlib.Core.Bool.{Bool-set}
use mathlib.Core.Logic.{∥∥₁_elim}
use mathlib.Core.List.{Mem, Memᴰ}
use datafog.Prelude.{
  Bool, true, ◌&&◌, ◌≡◌, ◌≢◌, refl, ◌∙◌, List, [], ◌∷◌, arith, any, select, Bool-cases, inl, inr,
}
use datafog.Strings.{Unicode}
use datafog.Models.{Decision, Rule, Policy}
use datafog.Policy.Match.{is_required_decision, found_types}
use datafog.Policy.Evaluate.{DecisionContext, normalize_for_evaluation, evaluate_sorted, evaluate}
use datafog.Policy.Spec.{
  is_deny, is_transform, is_redaction, applies, verdict, evaluate_sorted-verdict,
}
use datafog.Policy.Order.{
  is_empty-any, decision-perm, normalize_for_evaluation_lem, verdict-decision,
}

module _ {ℓ} {A : Type ℓ} (q p : A → Bool) where
  any_of_position :
      {a : A} {xs : List A} → Memᴰ a xs → p a ≡ true → q a ≡ true → any q (select p xs) ≡ true
  any_of_position (Memᴰ.head e) h k = rw (← e) (ground arith)
  any_of_position (Memᴰ.tail m) h k = ground (arith, any_of_position m h k)

  any_of_mem :
      {a : A} {xs : List A} → Mem a xs → p a ≡ true → q a ≡ true → any q (select p xs) ≡ true
  any_of_mem m h k = ∥∥₁_elim m (Bool-set _ _) (λ d. any_of_position d h k)

  mem_of_any :
      (xs : List A) → any q (select p xs) ≡ true → (a : A) × Memᴰ a xs × (p a ≡ true) × (q a ≡ true)
  mem_of_any [] h = cc
  mem_of_any (x ∷ xs) h = elim (Bool-cases (p x && q x)) [
    | inl e ↦ (x, Memᴰ.head refl, ground arith, ground arith)
    | inr e ↦ let (a, m, r, s) = mem_of_any xs (ground arith) in (a, Memᴰ.tail m, r, s)
  ]

module _ (p : Rule → Bool)
    (known : (r : Rule) → p r ≡ true → is_required_decision r.effect ≡ true) where
  verdict_has_rule :
      (xs : List Rule)
      → (verdict (select p xs)).decision ≢ Decision.deny
      → (r : Rule) × Memᴰ r xs × (p r ≡ true) × (r.effect ≡ (verdict (select p xs)).decision)
  unfolding is_required_decision
  verdict_has_rule xs h =
      let rules = select p xs in
      let decided = verdict-decision rules in
      elim (Bool-cases (any is_transform rules)) [
        | inl t ↦
            let (r, m, a, b) = mem_of_any is_transform p xs t in (r, m, a, ground (arith, decided))
        | inr t ↦ elim (Bool-cases (any is_redaction rules)) [
          | inl d ↦
              let (r, m, a, b) = mem_of_any is_redaction p xs d in
              (r, m, a, ground (arith, decided))
          | inr d ↦
              let (r, m, a, _) =
                mem_of_any (λ r. true) p xs (ground (arith, decided, is_empty-any rules)) in
              (
                r,
                m,
                a,
                ground (
                  arith,
                  decided,
                  known r a,
                  any_of_position is_deny p m a,
                  any_of_position is_transform p m a,
                  any_of_position is_redaction p m a,
                ),
              )
        ]
      ]

module _ ⦃u : Unicode⦄ where
  -- A rule of the policy that applies to the action and denies makes `Evaluate` deny it, whatever the
  -- priorities and the other rules.
  pub deny_wins :
      (policy : Policy) (ctx : DecisionContext) (rule : Rule)
      → Mem rule policy.rules
      → applies ctx.action (found_types ctx.findings) rule ≡ true
      → rule.effect ≡ Decision.deny
      → (evaluate policy ctx).decision ≡ Decision.deny
  unfolding evaluate
  deny_wins policy ctx rule m h e =
      let p = applies ctx.action (found_types ctx.findings) in
      decision-perm (normalize_for_evaluation policy) policy ctx
        (normalize_for_evaluation_lem policy).1
      ∙ ground (
        arith,
        evaluate_sorted-verdict policy ctx,
        verdict-decision (select p policy.rules),
        any_of_mem is_deny p m h,
      )

  -- Nothing is permitted without a rule: a decision other than a denial is the effect of a rule of
  -- the policy that applies to the action.
  decision_has_rule :
      (policy : Policy) (ctx : DecisionContext)
      → (evaluate_sorted policy ctx).decision ≢ Decision.deny
      → (rule : Rule) × Memᴰ rule policy.rules
        × (applies ctx.action (found_types ctx.findings) rule ≡ true)
        × (rule.effect ≡ (evaluate_sorted policy ctx).decision)
  decision_has_rule policy ctx h =
      let p = applies ctx.action (found_types ctx.findings) in
      let verdict_is = evaluate_sorted-verdict policy ctx in
      let (r, m, a, e) =
        verdict_has_rule p (λ r a. ground arith) policy.rules (ground (arith, verdict_is)) in
      (r, m, a, ground (arith, verdict_is))
