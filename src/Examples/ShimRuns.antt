-- ===== src/Examples/ShimRuns.antt =====
-- internal/shim/enforcer.go, run.
use datafog.Prelude.{String, true, false, ◌≡◌, refl, Option, none, some, List, [], ◌∷◌}
use datafog.Strings.{ascii_tables, Bytes}
use datafog.Models.{Decision, ScanFinding, DecideResponse}
use datafog.Shim.Gate.{
  DecisionEvent, recorded, EnforcementMode, Gate, Client, no_response, permit_decision, check,
  read_request,
}
use datafog.Shim.Actions.{read_file}
use datafog.Shim.Calls.{effect_of, Action, Call, is_ready, read_path, perform, acts, request_of}
use datafog.Shim.Enforcement.{
  IsAnswered, perform-IsAnswered, enforced_needs_permission, observe_never_blocks,
}
use datafog.Examples.{zero_digest, sample_text, sample_findings, sample_plan}

abbrev scanner : Bytes → List ScanFinding
scanner bytes = sample_findings

abbrev redacted_response : DecideResponse
redacted_response = record no_response {
  decision = Decision.allow_with_redaction;
  transform_plan = sample_plan;
}

-- a gate whose client gives this answer
abbrev gate_of : EnforcementMode → DecideResponse → Option String → Gate
gate_of mode response failure = record {
  client = some (λ req. (response, failure));
  runner = none;
  reader = some (λ path. (some sample_text, none));
  writer = some (λ path bytes perm. none);
  mode = mode;
  enforce_policy_errors = false;
}

abbrev pub redacting : Gate
redacting = gate_of EnforcementMode.enforced redacted_response none

abbrev denying : Gate
denying = gate_of EnforcementMode.observe (record no_response { decision = Decision.deny }) none

abbrev notes : Call
notes = record { action = read_path "notes.txt"; text = []; findings = []; sensitive = true }

perform-IsAnswered_example :
    IsAnswered ⦃u = ascii_tables⦄ ⦃d = zero_digest⦄ scanner denying notes
      (perform ⦃u = ascii_tables⦄ ⦃d = zero_digest⦄ scanner 5 denying notes)
perform-IsAnswered_example =
    perform-IsAnswered ⦃u = ascii_tables⦄ ⦃d = zero_digest⦄ scanner 5 denying notes

permitted_read :
    acts (perform ⦃u = ascii_tables⦄ ⦃d = zero_digest⦄ scanner 5 redacting notes).trace ≡ true
unfolding acts perform read_file datafog.Shim.Gate.execute_request check
    datafog.Shim.Gate.should_allow datafog.Shim.Calls.is_action
permitted_read = refl

permission_example :
    (r : DecideResponse) × (check redacting (request_of notes) ≡ (r, none))
    × (permit_decision r.decision ≡ true)
permission_example =
    enforced_needs_permission ⦃u = ascii_tables⦄ ⦃d = zero_digest⦄ scanner 5 redacting notes refl
      permitted_read

ready : is_ready denying notes.action ≡ true
unfolding is_ready
ready = refl

observe_example :
    (e : DecisionEvent) × (e.allowed ≡ true)
    × ((perform ⦃u = ascii_tables⦄ ⦃d = zero_digest⦄ scanner 5 denying notes).trace
        ≡ recorded e
          ∷ effect_of ⦃u = ascii_tables⦄ ⦃d = zero_digest⦄ scanner notes.action []
              (check denying (request_of notes))
          ∷ [])
observe_example =
    observe_never_blocks ⦃u = ascii_tables⦄ ⦃d = zero_digest⦄ scanner 5 denying notes refl refl
      ready
