-- ===== src/Policy/Order.antt =====
-- The order of rules: what sorting by priority does, and what it cannot change.
use mathlib.Core.Bool.{Bool-set}
use mathlib.Core.Logic.{∥∥₁_elim}
use mathlib.Core.List.{Perm, Permᴰ}
use datafog.Prelude.{
  Bool, true, false, not, ◌&&◌, ◌≡◌, refl, ap, sym, ◌∙◌, List, [], ◌∷◌, arith, is_empty, any,
  select, if◌then◌else◌,
}
use datafog.Prelude.Sort.{IsSorted, stable_sort-perm, stable_sort-IsSorted, select-stable_sort}
use datafog.Prelude.Int.{ℤ, ltb_ℤ}
use datafog.Strings.{Unicode}
use datafog.Models.{Decision, Rule, Policy}
use datafog.Policy.Match.{found_types}
use datafog.Policy.Evaluate.{DecisionContext, before, normalize_for_evaluation, evaluate_sorted}
use datafog.Policy.Spec.{
  is_deny, is_transform, is_redaction, applies, verdict, evaluate_sorted-verdict,
}

before_flip : (x y : Rule) → before y x ≡ true → before x y ≡ false
before_flip x y h = ground arith

before_chain : (x y z : Rule) → before y x ≡ false → before z y ≡ false → before z x ≡ false
before_chain x y z h k = ground arith

-- a rule of this priority
abbrev pub has_priority : ℤ → Rule → Bool
has_priority p r = not (ltb_ℤ p r.priority) && not (ltb_ℤ r.priority p)

-- Evaluation meets the rules with none of higher priority behind one of lower priority, loses and
-- invents none, and keeps rules of one priority in the order of the policy file.
pub normalize_for_evaluation_lem :
    (policy : Policy)
    → IsSorted before (normalize_for_evaluation policy).rules
      × Perm (normalize_for_evaluation policy).rules policy.rules
      × ((p : ℤ)
          → select (has_priority p) (normalize_for_evaluation policy).rules
            ≡ select (has_priority p) policy.rules)
unfolding normalize_for_evaluation
normalize_for_evaluation_lem policy = (
  stable_sort-IsSorted before before_flip before_chain policy.rules,
  stable_sort-perm before policy.rules,
  λ p. select-stable_sort before (has_priority p) (λ x y h k. ground arith) policy.rules,
)

module _ {ℓ} {A : Type ℓ} (q p : A → Bool) where
  any-select_steps : {xs ys : List A} → Permᴰ xs ys → any q (select p xs) ≡ any q (select p ys)
  any-select_steps Permᴰ.nil = refl
  any-select_steps (Permᴰ.cons e h) = rw e (ground (arith, any-select_steps h))
  any-select_steps (Permᴰ.swap e f) = rw (e, f) (ground arith)
  any-select_steps (Permᴰ.trans h k) = any-select_steps h ∙ any-select_steps k

  any-select-perm : {xs ys : List A} → Perm xs ys → any q (select p xs) ≡ any q (select p ys)
  any-select-perm h = ∥∥₁_elim h (Bool-set _ _) any-select_steps

module _ {ℓ} {A : Type ℓ} where
  pub is_empty-any : (xs : List A) → is_empty xs ≡ not (any (λ x. true) xs)
  is_empty-any [] = refl
  is_empty-any (x ∷ xs) = refl

  select_all : (xs : List A) → select (λ x. true) xs ≡ xs
  select_all [] = refl
  select_all (x ∷ xs) = ap (◌∷◌ x) (select_all xs)

  is_empty-select-perm :
      (p : A → Bool) {xs ys : List A} → Perm xs ys → is_empty (select p xs) ≡ is_empty (select p ys)
  is_empty-select-perm p h =
      is_empty-any _ ∙ ap not (any-select-perm (λ x. true) p h) ∙ sym (is_empty-any _)

  is_empty-perm : {xs ys : List A} → Perm xs ys → is_empty xs ≡ is_empty ys
  is_empty-perm {xs} {ys} h =
      rw (← select_all xs, ← select_all ys) (is_empty-select-perm (λ x. true) h)

pub verdict-decision :
    (rules : List Rule)
    → (verdict rules).decision ≡ (
        if is_empty rules
        then Decision.deny
        else if any is_deny rules
        then Decision.deny
        else if any is_transform rules
        then Decision.transform
        else if any is_redaction rules
        then Decision.allow_with_redaction
        else Decision.allow)
verdict-decision rules = ground arith

module _ ⦃u : Unicode⦄ where
  -- The decision depends on the set of the rules and not on their order in the policy.
  pub decision-perm :
      (a b : Policy) (ctx : DecisionContext)
      → Perm a.rules b.rules
      → (evaluate_sorted a ctx).decision ≡ (evaluate_sorted b ctx).decision
  decision-perm a b ctx h =
      let p = applies ctx.action (found_types ctx.findings) in
      ground (
        arith,
        evaluate_sorted-verdict a ctx,
        evaluate_sorted-verdict b ctx,
        verdict-decision (select p a.rules),
        verdict-decision (select p b.rules),
        is_empty-perm h,
        is_empty-select-perm p h,
        any-select-perm is_deny p h,
        any-select-perm is_transform p h,
        any-select-perm is_redaction p h,
      )
