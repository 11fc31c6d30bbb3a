-- ===== src/Cli/Traces.antt =====
-- Every command of the shim but `hooks` and `adapters` does nothing, or makes one call of the gate of its
-- configuration.
use datafog.Prelude.{
  arith, eq_iff, ℕ, String, Bool, true, false, ◌≡◌, ◌⊎◌, refl, ap, Option, none, some, List, [],
  ◌∷◌, ◌==◌, ◌||◌, if◌then◌else◌, Bool-cases, inl, inr,
}
use datafog.Strings.{Unicode, Bytes, trim_space, join}
use datafog.Models.{Decision}
use datafog.Transform.Replacement.{Digest}
use datafog.Adapters.{resolve}
use datafog.Shim.Gate.{GateError, Outcome}
use datafog.Shim.Actions.{execute_shell, execute_command, read_file, write_file}
use datafog.Shim.Calls.{shell, command, read_path, write_path, Call, perform}
use datafog.Cli.Config.{
  resolve_runtime_config, run_config, ShimRuntimeConfig, Environment, Configured, ok, err,
  parse_bool_option,
}
use datafog.Cli.Commands.{
  with_enforce, Dispatched, by_gate, Machine, Printed, RunFlags, print_outcome, gate_of, run_shell,
  run_read_file, run_write_file, run_target, run_arguments, run_configured, run_given,
  run_command_adapter, dispatch, dispatch_configured, run_flags,
}

print_outcome-trace :
    (o : Outcome) (e : Option GateError) (bytes : Bytes) (report : Option (String × Decision))
    → (print_outcome o e bytes report).trace ≡ o.trace
unfolding print_outcome
print_outcome-trace o none bytes report = refl
print_outcome-trace o (some e) bytes report = refl

-- the configuration that the run command makes of another
unfoldable pub RunsWith :
    ⦃u : Unicode⦄ → Environment → ShimRuntimeConfig → RunFlags → ShimRuntimeConfig → Type 0
RunsWith env base flags cfg =
    (given : Bool × Bool) × (parse_bool_option flags.enforce_policy_errors ≡ ok given)
    × (resolve_runtime_config (run_config flags.config base given) env ≡ ok cfg)

-- the configuration of the command line, or that which the run command makes of it
unfoldable pub IsUsed :
    ⦃u : Unicode⦄
    → Environment
    → (List String → RunFlags)
    → ShimRuntimeConfig
    → String
    → List String
    → ShimRuntimeConfig
    → Type 0
IsUsed env parse flags enforce args cfg =
    (given : Bool × Bool) × (base : ShimRuntimeConfig) × (parse_bool_option enforce ≡ ok given)
    × (resolve_runtime_config (with_enforce flags given) env ≡ ok base)
    × ((cfg ≡ base)
        ⊎ ((rest : List String) × (args ≡ "run" ∷ rest) × RunsWith env base (parse rest) cfg))

-- the commands that have no gate
unfoldable pub is_ungated : List String → Bool
is_ungated [] = false
is_ungated (name ∷ args) = name == "hooks" || name == "adapters"

neither : (a b : Bool) → (a || b) ≡ false → (a ≡ false) × (b ≡ false)
neither a b h = (ground arith, ground arith)

module _ ⦃u : Unicode⦄ ⦃d : Digest⦄ (machine : Machine) (now : ℕ)
    (K : ShimRuntimeConfig → Type 0) where
  -- nothing happened, or one call of the gate of a configuration of the kind
  unfoldable pub IsGateTrace : Printed → Type 0
  IsGateTrace p =
      (p.trace ≡ [])
      ⊎ ((cfg : ShimRuntimeConfig) × (call : Call) × (p.trace
            ≡ (perform machine.scan now (gate_of machine now cfg) call).trace)
          × K cfg)

  run_shell-IsGateTrace :
      (cfg : ShimRuntimeConfig) (args : List String)
      → K cfg
      → IsGateTrace (run_shell machine now cfg args)
  unfolding IsGateTrace run_shell perform
  run_shell-IsGateTrace cfg [] k = inl refl
  run_shell-IsGateTrace cfg (c ∷ args) k = inr (
    cfg,
    record { action = shell c args; text = []; findings = []; sensitive = cfg.sensitive },
    print_outcome-trace (execute_shell now (gate_of machine now cfg) c args [] [] cfg.sensitive) _ _
        _,
    k,
  )

  run_read_file-IsGateTrace :
      (cfg : ShimRuntimeConfig) (args : List String)
      → K cfg
      → IsGateTrace (run_read_file machine now cfg args)
  unfolding IsGateTrace run_read_file perform
  run_read_file-IsGateTrace cfg [] k = inl refl
  run_read_file-IsGateTrace cfg (path ∷ rest) k = inr (
    cfg,
    record { action = read_path path; text = []; findings = []; sensitive = cfg.sensitive },
    print_outcome-trace
        (read_file machine.scan now (gate_of machine now cfg) path [] [] cfg.sensitive) _ _ _,
    k,
  )

  run_write_file-IsGateTrace :
      (cfg : ShimRuntimeConfig) (args : List String)
      → K cfg
      → IsGateTrace (run_write_file machine now cfg args)
  unfolding IsGateTrace run_write_file perform
  run_write_file-IsGateTrace cfg [] k = inl refl
  run_write_file-IsGateTrace cfg (path ∷ []) k = inl refl
  run_write_file-IsGateTrace cfg (path ∷ text ∷ more) k =
      let content = machine.bytes_of (join (text ∷ more) " ") in
      inr (
        cfg,
        record {
          action = write_path path content 384;
          text = [];
          findings = [];
          sensitive = cfg.sensitive;
        },
        print_outcome-trace
            (write_file machine.scan now (gate_of machine now cfg) path content 384 [] []
              cfg.sensitive)
            _ _ _,
        k,
      )

  run_target-IsGateTrace :
      (cfg : ShimRuntimeConfig) (flags : RunFlags) (target : String) (args : List String)
      → K cfg
      → IsGateTrace (run_target machine now cfg flags target args)
  unfolding IsGateTrace run_target perform
  run_target-IsGateTrace cfg flags target args k = elim (Bool-cases (target == "")) [
    | inl t ↦ inl (rw t refl)
    | inr t ↦ elim (Bool-cases (resolve flags.adapter target == "")) [
      | inl a ↦ inl (rw (t, a) refl)
      | inr a ↦ inr (
        cfg,
        record {
          action = command (resolve flags.adapter target) target args;
          text = [];
          findings = [];
          sensitive = cfg.sensitive;
        },
        rw (t, a)
            (print_outcome-trace
              (execute_command now (gate_of machine now cfg) (resolve flags.adapter target) target
                args [] [] cfg.sensitive)
              _ _ _),
        k,
      )
    ]
  ]

  either-IsGateTrace :
      (b : Bool) (x y : Printed) → IsGateTrace x → IsGateTrace y → IsGateTrace (if b then x else y)
  either-IsGateTrace true x y h k = h
  either-IsGateTrace false x y h k = k

  nothing-IsGateTrace : (p : Printed) → p.trace ≡ [] → IsGateTrace p
  unfolding IsGateTrace
  nothing-IsGateTrace p h = inl h

  run_arguments-IsGateTrace :
      (cfg : ShimRuntimeConfig) (flags : RunFlags) (args : List String)
      → K cfg
      → IsGateTrace (run_arguments machine now cfg flags args)
  unfolding run_arguments
  run_arguments-IsGateTrace cfg flags [] k =
      either-IsGateTrace (trim_space flags.target == "") _ _ (nothing-IsGateTrace _ refl)
        (run_target-IsGateTrace cfg flags _ _ k)
  run_arguments-IsGateTrace cfg flags (first ∷ rest) k =
      either-IsGateTrace (trim_space flags.target == "") _ _
        (run_target-IsGateTrace cfg flags _ _ k) (run_target-IsGateTrace cfg flags _ _ k)

  run_configured-IsGateTrace :
      (flags : RunFlags) (x : Configured ShimRuntimeConfig)
      → ((cfg : ShimRuntimeConfig) → x ≡ ok cfg → K cfg)
      → IsGateTrace (run_configured machine now flags x)
  unfolding run_configured
  run_configured-IsGateTrace flags (err e) k = nothing-IsGateTrace _ refl
  run_configured-IsGateTrace flags (ok cfg) k =
      run_arguments-IsGateTrace cfg flags flags.args (k cfg refl)

  run_given-IsGateTrace :
      (env : Environment) (cfg : ShimRuntimeConfig) (flags : RunFlags)
      (x : Configured (Bool × Bool))
      → parse_bool_option flags.enforce_policy_errors ≡ x
      → ((used : ShimRuntimeConfig) → RunsWith env cfg flags used → K used)
      → IsGateTrace (run_given machine now env cfg flags x)
  unfolding run_given RunsWith
  run_given-IsGateTrace env cfg flags (err e) p k = nothing-IsGateTrace _ refl
  run_given-IsGateTrace env cfg flags (ok given) p k =
      run_configured-IsGateTrace flags _ (λ used h. k used (given, p, h))

  -- a result of a call of the gate
  unfoldable pub IsByGate : Dispatched → Type 0
  IsByGate x = (p : Printed) × (x ≡ by_gate p) × IsGateTrace p

  by_gate-IsByGate : (p : Printed) → IsGateTrace p → IsByGate (by_gate p)
  unfolding IsByGate
  by_gate-IsByGate p h = (p, refl, h)

  failed-IsByGate : (p : Printed) → p.trace ≡ [] → IsByGate (by_gate p)
  failed-IsByGate p h = by_gate-IsByGate p (nothing-IsGateTrace p h)

  branch-IsByGate :
      (b : Bool) (x y : Dispatched)
      → (b ≡ true → IsByGate x)
      → (b ≡ false → IsByGate y)
      → IsByGate (if b then x else y)
  branch-IsByGate true x y h k = h refl
  branch-IsByGate false x y h k = k refl

  other_command : (b : Bool) (x : Dispatched) → b ≡ false → b ≡ true → IsByGate x
  other_command b x h k = cc

  dispatch-IsByGate :
      (env : Environment) (parse : List String → RunFlags) (cfg : ShimRuntimeConfig)
      (args : List String)
      → is_ungated args ≡ false
      → K cfg
      → ((rest : List String) (used : ShimRuntimeConfig)
          → args ≡ "run" ∷ rest
          → RunsWith env cfg (parse rest) used
          → K used)
      → IsByGate (dispatch machine now env parse cfg args)
  unfolding dispatch run_command_adapter is_ungated
  dispatch-IsByGate env parse cfg [] gated k runs = failed-IsByGate _ refl
  dispatch-IsByGate env parse cfg (name ∷ args) gated k runs =
      let (no_hooks, no_adapters) = neither (name == "hooks") (name == "adapters") gated in
      branch-IsByGate (name == "shell") _ _
        (λ _. by_gate-IsByGate _ (run_shell-IsGateTrace cfg args k))
        (λ _.
          branch-IsByGate (name == "read-file") _ _
            (λ _. by_gate-IsByGate _ (run_read_file-IsGateTrace cfg args k))
            (λ _.
              branch-IsByGate (name == "write-file") _ _
                (λ _. by_gate-IsByGate _ (run_write_file-IsGateTrace cfg args k))
                (λ _.
                  branch-IsByGate (name == "run") _ _
                    (λ is. by_gate-IsByGate _ (
                      run_given-IsGateTrace env cfg (parse args) _ refl (λ used h.
                        runs args used (ap (λ n. n ∷ args) ((eq_iff name "run").0 is)) h)))
                    (λ _.
                      branch-IsByGate (name == "hooks") _ _
                        (other_command (name == "hooks") _ no_hooks)
                        (λ _.
                          branch-IsByGate (name == "adapters") _ _
                            (other_command (name == "adapters") _ no_adapters)
                            (λ _. failed-IsByGate _ refl))))))

  dispatch_configured-IsByGate :
      (env : Environment) (parse : List String → RunFlags) (flags : ShimRuntimeConfig)
      (enforce : String) (given : Bool × Bool) (args : List String)
      → is_ungated args ≡ false
      → parse_bool_option enforce ≡ ok given
      → (x : Configured ShimRuntimeConfig)
      → resolve_runtime_config (with_enforce flags given) env ≡ x
      → ((cfg : ShimRuntimeConfig) → IsUsed env parse flags enforce args cfg → K cfg)
      → IsByGate (dispatch_configured machine now env parse x args)
  unfolding dispatch_configured IsUsed
  dispatch_configured-IsByGate env parse flags enforce given args gated p (err e) q k =
      failed-IsByGate _ refl
  dispatch_configured-IsByGate env parse flags enforce given args gated p (ok base) q k =
      dispatch-IsByGate env parse base args gated (k base (given, base, p, q, inl refl))
        (λ rest used is h. k used (given, base, p, q, inr (rest, is, h)))

  pub run_flags-IsByGate :
      (env : Environment) (parse : List String → RunFlags) (flags : ShimRuntimeConfig)
      (enforce : String) (x : Configured (Bool × Bool)) (args : List String)
      → is_ungated args ≡ false
      → parse_bool_option enforce ≡ x
      → ((cfg : ShimRuntimeConfig) → IsUsed env parse flags enforce args cfg → K cfg)
      → IsByGate (run_flags machine now env parse flags x args)
  unfolding run_flags
  run_flags-IsByGate env parse flags enforce (err e) args gated p k = failed-IsByGate _ refl
  run_flags-IsByGate env parse flags enforce (ok given) args gated p k =
      dispatch_configured-IsByGate env parse flags enforce given args gated p _ refl k
