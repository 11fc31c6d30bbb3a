-- ===== src/Cli/Gated.antt =====
-- Every command of the shim but `hooks` and `adapters` that does something does it through the gate.
use datafog.Prelude.{
  ℕ, String, true, false, ◌≡◌, ◌⊎◌, refl, ap, sym, ◌∙◌, List, ◌==◌, ◌||◌, Bool-cases, inl, inr,
}
use datafog.Strings.{Unicode, trim_space, to_lower}
use datafog.Models.{DecideRequest, DecideResponse}
use datafog.Transform.Replacement.{Digest}
use datafog.Shim.Gate.{EnforcementMode, new_gate, normalize_mode, check, permit_decision}
use datafog.Shim.Calls.{Call, request_of, perform, acts}
use datafog.Shim.Enforcement.{enforced_needs_permission}
use datafog.Shim.Http.{IsExchange, decide-IsExchange, decide}
use datafog.Cli.Config.{ShimRuntimeConfig, Environment, parse_bool_option, gate_mode, parse_mode}
use datafog.Cli.Traces.{IsGateTrace, IsByGate, is_ungated, IsUsed, run_flags-IsByGate}
use datafog.Cli.Commands.{Printed, by_gate, Machine, RunFlags, client_of, gate_of, run}

module _ ⦃u : Unicode⦄ ⦃d : Digest⦄ (machine : Machine) (now : ℕ) where
  gate_mode_cases :
      (cfg : ShimRuntimeConfig)
      → (gate_mode cfg ≡ EnforcementMode.observe) ⊎ (gate_mode cfg ≡ EnforcementMode.enforced)
  unfolding gate_mode parse_mode
  gate_mode_cases cfg =
      let name = to_lower (trim_space cfg.mode) in
      elim (Bool-cases (name == "" || name == "enforced")) [
        | inl e ↦ inr (rw (gate_mode, parse_mode, e) refl)
        | inr e ↦ elim (Bool-cases (name == "observe")) [
          | inl o ↦ inl (rw (gate_mode, parse_mode, e, o) refl)
          | inr o ↦ inr (rw (gate_mode, parse_mode, e, o) refl)
        ]
      ]

  gate_of-mode :
      (cfg : ShimRuntimeConfig)
      → gate_mode cfg ≡ EnforcementMode.enforced
      → (gate_of machine now cfg).mode ≡ EnforcementMode.enforced
  unfolding gate_of new_gate normalize_mode
  gate_of-mode cfg e = rw e refl

  gate_of-check :
      (cfg : ShimRuntimeConfig) (req : DecideRequest)
      → check (gate_of machine now cfg) req ≡ decide machine.library (client_of machine now cfg) req
  unfolding gate_of new_gate check
  gate_of-check cfg req = refl

  -- On every command line but those of `hooks` and `adapters`, which have no gate, and in any
  -- environment, the program does nothing, or all that it runs, reads or writes is that of one call of one
  -- gate. The gate's configuration is that which the command line and the environment resolve to, or
  -- that which the run command's own flags make of it. Unless its mode is to observe, an action has
  -- needed the service's answer 200 to the call's request, with a decision that permits it.
  pub run_needs_permission :
      (env : Environment) (parse : List String → RunFlags) (flags : ShimRuntimeConfig)
      (enforce : String) (args : List String)
      → is_ungated args ≡ false
      → (p : Printed) × (run machine now env parse flags enforce args ≡ by_gate p)
        × ((acts p.trace ≡ false)
            ⊎ ((cfg : ShimRuntimeConfig) × (call : Call) × (p.trace
                  ≡ (perform machine.scan now (gate_of machine now cfg) call).trace)
                × IsUsed env parse flags enforce args cfg
                × ((gate_mode cfg ≡ EnforcementMode.observe)
                    ⊎ ((r : DecideResponse) × IsExchange machine.library
                          (client_of machine now cfg)
                          (request_of call)
                          r
                        × (permit_decision r.decision ≡ true)))))
  unfolding run IsGateTrace IsByGate acts
  run_needs_permission env parse flags enforce args gated =
      let (p, is, done) =
        run_flags-IsByGate machine now (IsUsed env parse flags enforce args) env parse flags enforce
          (parse_bool_option enforce) args gated refl (λ cfg k. k) in
      (
        p,
        is,
        elim (Bool-cases (acts p.trace)) [
          | inr quiet ↦ inl quiet
          | inl h ↦ elim done [
            | inl nothing ↦ let no : false ≡ true = sym (ap acts nothing) ∙ h in cc
            | inr (cfg, call, same, used) ↦ inr (
              cfg,
              call,
              same,
              used,
              elim (gate_mode_cases cfg) [
                | inl observe ↦ inl observe
                | inr enforced ↦
                    let (r, checked, permitted) =
                      enforced_needs_permission machine.scan now (gate_of machine now cfg) call
                        (gate_of-mode cfg enforced) (sym (ap acts same) ∙ h) in
                    inr (
                      r,
                      decide-IsExchange machine.library (client_of machine now cfg)
                          (request_of call) r (sym (gate_of-check cfg (request_of call)) ∙ checked),
                      permitted,
                    )
              ],
            )
          ]
        ],
      )
