-- ===== src/Cli/Precedence.antt =====
-- What a resolved configuration is.
use datafog.Prelude.{
  String, Bool, true, false, ◌||◌, List, [], ◌∷◌, ◌≡◌, ◌⊎◌, refl, ap, sym, ◌∙◌, ◌==◌, eq_iff, arith,
  if◌then◌else◌, Bool-cases, inl, inr,
}
use datafog.Strings.{Unicode, trim_space, to_lower}
use datafog.Strings.Trim.{trim_space_idem}
use datafog.Shim.Gate.{EnforcementMode}
use datafog.Cli.Config.{
  ShimRuntimeConfig, Environment, Configured, ok, err, invalid_mode, ConfigError, coalesce, given,
  default_shim_dir, mode_name, parse_mode, resolve_enforce, merged, merge, with_mode, check_mode,
  resolve_runtime_config, run_config, gate_mode,
}

trim_space-coalesce : (values : List String) → trim_space (coalesce values) ≡ coalesce values
unfolding coalesce trim_space
trim_space-coalesce [] = refl
trim_space-coalesce (value ∷ values) = elim (Bool-cases (trim_space value == "")) [
  | inl e ↦ rw e (trim_space-coalesce values)
  | inr e ↦ rw e (trim_space_idem value)
]

coalesce_first :
    (x : String) (rest : List String)
    → coalesce (x ∷ rest) ≡ (if trim_space x == "" then coalesce rest else trim_space x)
unfolding coalesce
coalesce_first x rest = ground arith

-- to coalesce the result again changes nothing
coalesce_again :
    (value : String) (rest : List String)
    → coalesce (coalesce (value ∷ rest) ∷ rest) ≡ coalesce (value ∷ rest)
coalesce_again value rest =
    let x = coalesce (value ∷ rest) in
    ground (
      arith,
      coalesce_first x rest,
      coalesce_first value rest,
      trim_space-coalesce (value ∷ rest),
      eq_iff (trim_space x) "",
      eq_iff (trim_space value) "",
      trim_space_idem value,
    )

coalesce_unflagged : (x : String) → coalesce ("" ∷ x ∷ []) ≡ trim_space x
unfolding coalesce trim_space
coalesce_unflagged x = ground (arith, eq_iff (trim_space x) "")

abbrev pub no_flags : ShimRuntimeConfig
no_flags = record {
  policy_url = "";
  api_token = "";
  mode = "";
  event_sink = "";
  shim_dir = "";
  sensitive = false;
  enforce_policy_errors = false;
  enforce_policy_errors_set = false;
}

Configured-cases :
    {A : Type 0} (x : Configured A) → ((a : A) × (x ≡ ok a)) ⊎ ((e : ConfigError) × (x ≡ err e))
Configured-cases (ok a) = inl (a, refl)
Configured-cases (err e) = inr (e, refl)

same_config : {c d : ShimRuntimeConfig} → ok c ≡ ok d → d ≡ c
same_config h = cc

no_config : {c : ShimRuntimeConfig} {e : ConfigError} → ¬ (ok c ≡ err e)
no_config h = cc

-- a field of a resolved configuration, resolved again
field_again :
    (value : String) (rest : List String)
    → coalesce (coalesce ("" ∷ coalesce (value ∷ rest) ∷ []) ∷ rest) ≡ coalesce (value ∷ rest)
field_again value rest =
    ap (λ x. coalesce (x ∷ rest))
      (coalesce_unflagged (coalesce (value ∷ rest)) ∙ trim_space-coalesce (value ∷ rest))
    ∙ coalesce_again value rest

module _ ⦃u : Unicode⦄ where
  -- the names that the two modes have
  data IsMode : EnforcementMode → Type 0 where
    enforced : IsMode EnforcementMode.enforced
    observe : IsMode EnforcementMode.observe

  same_mode : {m n : EnforcementMode} → ok m ≡ ok n → m ≡ n
  same_mode h = cc

  no_mode : {m : EnforcementMode} {e : ConfigError} → ¬ (ok m ≡ err e)
  no_mode h = cc

  parse_mode-IsMode : (raw : String) (m : EnforcementMode) → parse_mode raw ≡ ok m → IsMode m
  unfolding parse_mode
  parse_mode-IsMode raw m h =
      let name = to_lower (trim_space raw) in
      elim (Bool-cases (name == "" || name == "enforced")) [
        | inl e ↦
            rw (same_mode {m = m} {n = EnforcementMode.enforced} (sym h ∙ (rw e refl))) enforced
        | inr e ↦ elim (Bool-cases (name == "observe")) [
          | inl f ↦
              rw (same_mode {m = m} {n = EnforcementMode.observe} (sym h ∙ (rw (e, f) refl)))
                observe
          | inr f ↦ absurd (no_mode {m = m} {e = invalid_mode raw} (sym h ∙ (rw (e, f) refl)))
        ]
      ]

  abbrev configured :
      ShimRuntimeConfig → Environment → Bool → Bool → EnforcementMode → ShimRuntimeConfig
  configured input env e s m = record (merged input env e s) { mode = mode_name m }

  abbrev mode_of : ShimRuntimeConfig → Environment → Configured EnforcementMode
  mode_of input env = parse_mode (coalesce (input.mode ∷ env.mode ∷ "enforced" ∷ []))

  -- a resolved configuration, and where its mode and its option come from
  abbrev Resolved : ShimRuntimeConfig → Environment → ShimRuntimeConfig → Type 0
  Resolved input env cfg =
      (e : Bool) × (s : Bool) × (m : EnforcementMode) × (resolve_enforce input env ≡ ok (e, s))
      × (mode_of input env ≡ ok m)
      × (cfg ≡ configured input env e s m)

  config_cases :
      (input cfg : ShimRuntimeConfig) (env : Environment) (x : Configured (Bool × Bool))
      → resolve_enforce input env ≡ x
      → check_mode (merge input env x) ≡ ok cfg
      → Resolved input env cfg
  unfolding check_mode merge with_mode
  config_cases input cfg env (err e) p h = cc
  config_cases input cfg env (ok (e, s)) p h = elim (Configured-cases (mode_of input env)) [
    | inl (m, q) ↦ (
      e,
      s,
      m,
      p,
      q,
      sym (same_config {c = cfg} {d = configured input env e s m} (sym h ∙ (rw q refl))),
    )
    | inr (x, q) ↦ absurd (no_config {c = cfg} {e = x} (sym h ∙ (rw q refl)))
  ]

  mode_again :
      (m : EnforcementMode) (rest : List String)
      → IsMode m
      → parse_mode (coalesce (coalesce ("" ∷ mode_name m ∷ []) ∷ rest)) ≡ ok m
  unfolding parse_mode coalesce to_lower trim_space
  mode_again _ rest enforced = refl
  mode_again _ rest observe = refl

  said : {a b : Bool} → ¬ (◌≡◌ {A = Configured (Bool × Bool)} (ok (a, true)) (ok (b, false)))
  said h = cc

  given_said : (x : Configured Bool) (e : Bool) → ¬ (given x ≡ ok (e, false))
  given_said (ok b) e h = said h
  given_said (err x) e h = cc

  resolve_enforce_again :
      (input cfg : ShimRuntimeConfig) (env : Environment) (e s : Bool)
      → resolve_enforce input env ≡ ok (e, s)
      → cfg.enforce_policy_errors ≡ e
      → cfg.enforce_policy_errors_set ≡ s
      → resolve_enforce cfg env ≡ ok (e, s)
  unfolding resolve_enforce
  resolve_enforce_again input cfg env e true h p q = rw q (ap (λ x. ok (x, true)) p)
  resolve_enforce_again input cfg env e false h p q =
      elim (Bool-cases input.enforce_policy_errors_set) [
        | inl f ↦ absurd (said (rw f at h))
        | inr f ↦ elim (Bool-cases (trim_space env.enforce_policy_errors == "")) [
          | inl b ↦ rw (q, b) (rw (f, b) at h)
          | inr b ↦ absurd (given_said _ e (rw (f, b) at h))
        ]
      ]

  mode_cases :
      (cfg : ShimRuntimeConfig) (m : EnforcementMode)
      → IsMode m
      → cfg.mode ≡ mode_name m
      → ((cfg.mode ≡ "enforced") × (gate_mode cfg ≡ EnforcementMode.enforced))
        ⊎ ((cfg.mode ≡ "observe") × (gate_mode cfg ≡ EnforcementMode.observe))
  unfolding gate_mode parse_mode to_lower trim_space
  mode_cases cfg _ enforced e = inl (e, rw e refl)
  mode_cases cfg _ observe e = inr (e, rw e refl)

  -- A resolved configuration has the mode `enforced` or `observe`, by the names that the gate knows,
  -- and the gate gets that mode.
  pub resolved_mode :
      (input cfg : ShimRuntimeConfig) (env : Environment)
      → resolve_runtime_config input env ≡ ok cfg
      → ((cfg.mode ≡ "enforced") × (gate_mode cfg ≡ EnforcementMode.enforced))
        ⊎ ((cfg.mode ≡ "observe") × (gate_mode cfg ≡ EnforcementMode.observe))
  unfolding resolve_runtime_config
  resolved_mode input cfg env h =
      let (e, s, m, p, q, same) = config_cases input cfg env (resolve_enforce input env) refl h in
      mode_cases cfg m (parse_mode-IsMode _ m q) (ap (λ c. c.mode) same)

  configured_again :
      (input : ShimRuntimeConfig) (env : Environment) (e s : Bool) (m : EnforcementMode)
      → resolve_enforce input env ≡ ok (e, s)
      → IsMode m
      → resolve_runtime_config (run_config no_flags (configured input env e s m) (false, false)) env
        ≡ ok (configured input env e s m)
  unfolding resolve_runtime_config run_config check_mode merge with_mode
  configured_again input env e s m p k =
      let again = run_config no_flags (configured input env e s m) (false, false) in
      let enforce_again = resolve_enforce_again input again env e s p refl refl in
      ap (λ x. check_mode (merge again env x)) enforce_again
      ∙ ap (with_mode (merged again env e s)) (mode_again m (env.mode ∷ "enforced" ∷ []) k)
      ∙ (λ i. ok record {
        policy_url = field_again input.policy_url (env.policy_url ∷ "http://localhost:8080" ∷ []) i;
        api_token = field_again input.api_token (env.api_token ∷ []) i;
        mode = mode_name m;
        event_sink = field_again input.event_sink (env.event_sink ∷ []) i;
        shim_dir = coalesce_again input.shim_dir (env.shim_dir ∷ default_shim_dir env ∷ []) i;
        sensitive = input.sensitive;
        enforce_policy_errors = e;
        enforce_policy_errors_set = s;
      })

  -- `run` without flags of its own acts under the configuration that the command line resolved: to
  -- resolve it again, in the same environment, changes nothing.
  run_keeps_config :
      (input cfg : ShimRuntimeConfig) (env : Environment)
      → resolve_runtime_config input env ≡ ok cfg
      → resolve_runtime_config (run_config no_flags cfg (false, false)) env ≡ ok cfg
  unfolding resolve_runtime_config run_config
  run_keeps_config input cfg env h =
      let (e, s, m, p, q, same) = config_cases input cfg env (resolve_enforce input env) refl h in
      rw same (configured_again input env e s m p (parse_mode-IsMode _ m q))
