-- ===== src/Policy/Valid.antt =====
-- `ValidatePolicy` accepts exactly the policies that are valid, as stated here by themselves.
use datafog.Prelude.{
  String, Bool, true, false, not, ◌≡◌, ◌≢◌, ◌↔◌, refl, List, [], ◌∷◌, ◌++◌, arith, ◌==◌, eq_iff,
  is_empty, contains, All, Bool-cases, inl, inr,
}
use datafog.Prelude.Int.{is_negative}
use datafog.Strings.{Unicode, to_lower, trim_space}
use datafog.Models.{TransformStep, Rule, Policy}
use datafog.Policy.Match.{is_required_decision, default_entity_types}
use datafog.Policy.Validate.{
  PolicyError, policy_id_required, policy_version_required, no_rules, is_allowed_mode,
  empty_conditions, requirement_errors, step_errors, rule_errors, rules_errors, validate_policy,
  unless,
}

abbrev pub NotBlank : String → Type 0
NotBlank s = trim_space s ≢ ""

NotBlank-iff : (s : String) → ((trim_space s == "") ≡ false) ↔ NotBlank s
NotBlank-iff s = ground (arith, eq_iff (trim_space s) "")

module _ ⦃u : Unicode⦄ where
  -- A known entity type, up to case and surrounding space.
  abbrev pub IsEntityType : String → Type 0
  IsEntityType s = contains (to_lower (trim_space s)) default_entity_types ≡ true

  pub record IsValidStep (step : TransformStep) : Type 0 where
    pub named : NotBlank step.entity_type
    pub entity_type : IsEntityType step.entity_type
    pub mode : is_allowed_mode step.mode ≡ true

  pub record IsValidRule (rule : Rule) : Type 0 where
    pub id : NotBlank rule.id
    pub priority : is_negative rule.priority ≡ false
    pub effect : is_required_decision rule.effect ≡ true
    pub action_types : All NotBlank rule.match.action_types
    pub tools : All NotBlank rule.match.tools
    pub resource_prefix : All NotBlank rule.match.resource_prefix
    pub commands : All NotBlank rule.match.commands
    pub args : All NotBlank rule.match.args
    pub adapters : All NotBlank rule.match.adapters
    pub requirements : All IsEntityType rule.entity_requirements
    pub transforms : All IsValidStep rule.entity_transforms

abbrev HasFreshId : List String → Rule → Type 0
HasFreshId seen rule = contains (trim_space rule.id) seen ≡ false

-- No rule has the id, up to surrounding space, of a rule before it or one of `seen`.
abbrev pub HasDistinctIds : List String → List Rule → Type 0
HasDistinctIds seen [] = Unit
HasDistinctIds seen (rule ∷ rest) =
    HasFreshId seen rule × HasDistinctIds (trim_space rule.id ∷ seen) rest

module _ ⦃u : Unicode⦄ where
  pub record IsValidPolicy (policy : Policy) : Type 0 where
    pub policy_id : NotBlank policy.policy_id
    pub policy_version : NotBlank policy.policy_version
    pub has_rules : policy.rules ≢ []
    pub rules : All IsValidRule policy.rules
    pub distinct : HasDistinctIds [] policy.rules

append-eq-nil {ℓ} : {A : Type ℓ} (xs ys : List A) → (xs ++ ys ≡ []) ↔ ((xs ≡ []) × (ys ≡ []))
append-eq-nil [] ys = ((λ h. (refl, h)), (λ h. h.1))
append-eq-nil (x ∷ xs) ys = (λ h. cc, λ h. cc)

append-eq-nil_iff {ℓ} :
    {A : Type ℓ} {P Q : Type 0} {xs ys : List A}
    → (xs ≡ []) ↔ P
    → (ys ≡ []) ↔ Q
    → (xs ++ ys ≡ []) ↔ (P × Q)
append-eq-nil_iff {xs} {ys} f g = (
  λ h. let (a, b) = (append-eq-nil xs ys).0 h in (f.0 a, g.0 b),
  λ h. (append-eq-nil xs ys).1 (f.1 h.0, g.1 h.1),
)

empty_conditions-eq-nil :
    (e : PolicyError) (cs : List String) → (empty_conditions e cs ≡ []) ↔ All NotBlank cs
unfolding empty_conditions
empty_conditions-eq-nil e [] = (λ h. tt, λ h. refl)
empty_conditions-eq-nil e (c ∷ cs) =
    let (to, from) = empty_conditions-eq-nil e cs in
    (
      λ h. ground (arith, to, eq_iff (trim_space c) ""),
      λ h. ground (arith, from h.1, eq_iff (trim_space c) ""),
    )

entity_type-ne-blank : (s : String) → contains s default_entity_types ≡ true → s ≢ ""
unfolding contains
entity_type-ne-blank s h e = cc (rw e at h)

unless-eq-nil : (b : Bool) (e : PolicyError) → (unless b e ≡ []) ↔ (b ≡ true)
unless-eq-nil b e = ground arith

unless-not-eq-nil : (b : Bool) (e : PolicyError) → (unless (not b) e ≡ []) ↔ (b ≡ false)
unless-not-eq-nil b e = ground arith

module _ ⦃u : Unicode⦄ (rule_id : String) where
  requirement_errors-eq-nil :
      (reqs : List String) → (requirement_errors rule_id reqs ≡ []) ↔ All IsEntityType reqs
  unfolding requirement_errors
  requirement_errors-eq-nil [] = (λ h. tt, λ h. refl)
  requirement_errors-eq-nil (req ∷ reqs) =
      let (to, from) = requirement_errors-eq-nil reqs in
      let name = to_lower (trim_space req) in
      (
        λ h.
            let (h0, h1) = (append-eq-nil _ (requirement_errors rule_id reqs)).0 h in
            (ground arith, to h1),
        λ h. ground (arith, from h.1, eq_iff name "", entity_type-ne-blank name h.0),
      )

  step_errors-eq-nil :
      (steps : List TransformStep) → (step_errors rule_id steps ≡ []) ↔ All IsValidStep steps
  unfolding step_errors
  step_errors-eq-nil [] = (λ h. tt, λ h. refl)
  step_errors-eq-nil (step ∷ steps) =
      let (to, from) = step_errors-eq-nil steps in
      (
        λ h. ground (arith, to, eq_iff (trim_space step.entity_type) ""),
        λ h. ground (arith, from h.1, eq_iff (trim_space step.entity_type) ""),
      )

  -- the conditions of a rule in the order in which they are tested
  abbrev PassesTests : List String → Rule → Type 0
  PassesTests seen rule =
      (contains rule_id seen ≡ false)
      × ((is_negative rule.priority ≡ false)
          × ((is_required_decision rule.effect ≡ true)
              × (All NotBlank rule.match.action_types
                  × (All NotBlank rule.match.tools
                      × (All NotBlank rule.match.resource_prefix
                          × (All NotBlank rule.match.commands
                              × (All NotBlank rule.match.args
                                  × (All NotBlank rule.match.adapters
                                      × (All IsEntityType rule.entity_requirements
                                          × All IsValidStep rule.entity_transforms)))))))))

  rule_errors-eq-nil :
      (seen : List String) (rule : Rule)
      → (rule_errors rule_id seen rule ≡ []) ↔ PassesTests seen rule
  unfolding rule_errors
  rule_errors-eq-nil seen rule = append-eq-nil_iff (unless-not-eq-nil _ _) (
      append-eq-nil_iff (unless-not-eq-nil _ _) (
        append-eq-nil_iff (unless-eq-nil _ _) (
          append-eq-nil_iff (empty_conditions-eq-nil _ _) (
            append-eq-nil_iff (empty_conditions-eq-nil _ _) (
              append-eq-nil_iff (empty_conditions-eq-nil _ _) (
                append-eq-nil_iff (empty_conditions-eq-nil _ _) (
                  append-eq-nil_iff (empty_conditions-eq-nil _ _) (
                    append-eq-nil_iff (empty_conditions-eq-nil _ _) (
                      append-eq-nil_iff (requirement_errors-eq-nil _)
                        (step_errors-eq-nil _))))))))))

  PassesTests-IsValidRule :
      (seen : List String) (rule : Rule)
      → NotBlank rule.id
      → PassesTests seen rule ↔ ((contains rule_id seen ≡ false) × IsValidRule rule)
  PassesTests-IsValidRule seen rule n = (
    λ h. (
      h.0,
      record {
        id = n;
        priority = h.1.0;
        effect = h.1.1.0;
        action_types = h.1.1.1.0;
        tools = h.1.1.1.1.0;
        resource_prefix = h.1.1.1.1.1.0;
        commands = h.1.1.1.1.1.1.0;
        args = h.1.1.1.1.1.1.1.0;
        adapters = h.1.1.1.1.1.1.1.1.0;
        requirements = h.1.1.1.1.1.1.1.1.1.0;
        transforms = h.1.1.1.1.1.1.1.1.1.1;
      },
    ),
    λ (f, v). (
      f,
      (
        v.priority,
        (
          v.effect,
          (
            v.action_types,
            (
              v.tools,
              (
                v.resource_prefix,
                (v.commands, (v.args, (v.adapters, (v.requirements, v.transforms)))),
              ),
            ),
          ),
        ),
      ),
    ),
  )

module _ ⦃u : Unicode⦄ where
  rules_errors-eq-nil :
      (seen : List String) (rules : List Rule)
      → (rules_errors seen rules ≡ []) ↔ (All IsValidRule rules × HasDistinctIds seen rules)
  unfolding rules_errors
  rules_errors-eq-nil seen [] = (λ h. (tt, tt), λ h. refl)
  rules_errors-eq-nil seen (rule ∷ rest) = elim (Bool-cases (trim_space rule.id == "")) [
    | inl e ↦ rw e (λ h. cc, λ h. absurd (h.0.0.id ((eq_iff _ _).0 e)))
    | inr e ↦
        let n : NotBlank rule.id = (λ b. cc ((eq_iff _ _).1 b, e)) in
        let id = trim_space rule.id in
        let (to, from) =
          append-eq-nil_iff (rule_errors-eq-nil id seen rule)
            (rules_errors-eq-nil (id ∷ seen) rest) in
        let (valid, passes) = PassesTests-IsValidRule id seen rule n in
        rw e (
          λ h. let (a, b) = to h in (((valid a).1, b.0), ((valid a).0, b.1)),
          λ h. from (passes (h.1.0, h.0.0), (h.0.1, h.1.1)),
        )
  ]

  -- `ValidatePolicy` accepts a policy exactly if it has an id, a version and a rule; no two rules
  -- have the same id; and each rule has an id, a priority that is not negative, a known effect, no
  -- blank condition, known entity types, and known modes.
  pub validate_policy-eq-nil :
      (policy : Policy) → (validate_policy policy ≡ []) ↔ IsValidPolicy policy
  unfolding validate_policy
  validate_policy-eq-nil policy =
      let (to, from) =
        append-eq-nil_iff (unless-not-eq-nil (trim_space policy.policy_id == "") policy_id_required)
          (append-eq-nil_iff
            (unless-not-eq-nil (trim_space policy.policy_version == "") policy_version_required)
            (append-eq-nil_iff (unless-not-eq-nil (is_empty policy.rules) no_rules)
              (rules_errors-eq-nil [] policy.rules))) in
      (
        λ h.
            let (a, (b, (c, (d, e)))) = to h in
            record {
              policy_id = (NotBlank-iff _).0 a;
              policy_version = (NotBlank-iff _).0 b;
              has_rules = ground arith;
              rules = d;
              distinct = e;
            },
        λ v. from (
          (NotBlank-iff _).1 v.policy_id,
          (
            (NotBlank-iff _).1 v.policy_version,
            (ground (arith, v.has_rules), (v.rules, v.distinct)),
          ),
        ),
      )
