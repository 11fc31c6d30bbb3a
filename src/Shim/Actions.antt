-- ===== src/Shim/Actions.antt =====
-- internal/shim/enforcer.go: the four actions that pass the gate.
use datafog.Prelude.{
  ℕ, String, Bool, true, false, not, ◌&&◌, Option, none, some, List, [], ◌∷◌, ◌==◌, is_empty,
  if◌then◌else◌,
}
use datafog.Strings.{Unicode, Bytes}
use datafog.Models.{Decision, ActionMeta, ScanFinding, TransformStep, DecideRequest, DecideResponse}
use datafog.Transform.Replacement.{Digest}
use datafog.Transform.Apply.{apply_transforms}
use datafog.Shim.Gate.{
  Gate, Outcome, GateError, Writer, recorded, ran, read, wrote, no_runner, no_reader, no_writer,
  no_adapter, no_target, check_failed, denied, should_allow, should_block_on_policy_error,
  decision_event, check, fallback, wrap_error, execute_request, read_request, refuse,
}

abbrev pub shell_action : String → List String → Bool → ActionMeta
shell_action command args sensitive = record {
  type = "shell.exec";
  tool = "shell";
  resource = command;
  command = command;
  args = args;
  sensitive = sensitive;
}

unfoldable pub execute_shell :
    ℕ → Gate → String → List String → Bytes → List ScanFinding → Bool → Outcome
execute_shell now g command args text findings sensitive = elim (g.runner) [
  | none ↦ refuse no_runner
  | some run ↦
      execute_request now g (read_request (shell_action command args sensitive) text findings)
        (ran command args) (run command args)
]

-- `action.Command = args[0]` if there is one
abbrev first_arg : List String → String
first_arg [] = ""
first_arg (a ∷ rest) = a

abbrev pub command_action : String → String → List String → Bool → ActionMeta
command_action adapter_name target args sensitive = record {
  type = "command.exec";
  tool = adapter_name;
  resource = target;
  command = first_arg args;
  args = args;
  sensitive = sensitive;
}

unfoldable pub execute_command :
    ℕ → Gate → String → String → List String → Bytes → List ScanFinding → Bool → Outcome
execute_command now g adapter_name target args text findings sensitive = elim (g.runner) [
  | none ↦ refuse no_runner
  | some run ↦
      if adapter_name == ""
      then refuse no_adapter
      else if target == ""
      then refuse no_target
      else execute_request now g
          (read_request (command_action adapter_name target args sensitive) text findings)
          (ran target args) (run target args)
]

abbrev pub file_action : String → String → Bool → ActionMeta
file_action type path sensitive = record {
  type = type;
  tool = "fs";
  resource = path;
  command = "";
  args = [];
  sensitive = sensitive;
}

abbrev pub is_redacting : DecideResponse → Bool
is_redacting r =
    elim r.decision [ Decision.allow_with_redaction ↦ true | _ ↦ false ]
    && not (is_empty r.transform_plan)

-- `scan` is `ScanText` without a filter
module _ ⦃u : Unicode⦄ ⦃d : Digest⦄ (scan : Bytes → List ScanFinding) where
  unfoldable pub apply_redaction : Bytes → List TransformStep → List ScanFinding → Bytes
  apply_redaction bytes plan findings =
      let found = if is_empty findings then scan bytes else findings in
      if is_empty found then bytes else (apply_transforms bytes found plan).output

  unfoldable pub redact_output : Outcome → Option Bytes → Outcome
  redact_output o none = o
  redact_output o (some bytes) = record o {
    output = some (apply_redaction bytes o.response.transform_plan []);
  }

  -- what `ReadFile` does with the answer of `executeRequest`
  unfoldable pub redact_read : Outcome → Option GateError → Outcome
  redact_read o (some e) = o
  redact_read o none = if is_redacting o.response then redact_output o o.output else o

  unfoldable pub read_file : ℕ → Gate → String → Bytes → List ScanFinding → Bool → Outcome
  unfolding redact_read redact_output
  read_file now g path text findings sensitive = elim (g.reader) [
    | none ↦ refuse no_reader
    | some reader ↦
        let o =
          execute_request now g
            (read_request (file_action "file.read" path sensitive) text findings) (read path)
            (reader path) in
        redact_read o o.error
  ]

  -- `WriteFile` behind the check
  unfoldable pub write_checked :
      ℕ
      → Gate
      → Writer
      → DecideRequest
      → String
      → Bytes
      → ℕ
      → List ScanFinding
      → DecideResponse × Option String
      → Outcome
  write_checked now g write req path bytes perm findings (result, some e) =
      if should_block_on_policy_error g
      then record {
        response = result;
        output = none;
        error = some (check_failed e);
        trace = recorded (decision_event now g req result false (some e)) ∷ [];
      }
      else record {
        response = fallback req e;
        output = none;
        error = wrap_error (write path bytes perm);
        trace =
            recorded (decision_event now g req (fallback req e) true (some e))
            ∷ wrote path bytes perm
            ∷ [];
      }
  write_checked now g write req path bytes perm findings (result, none) =
      let redacted =
        if is_redacting result
        then apply_redaction bytes result.transform_plan findings
        else bytes in
      if not (should_allow g result.decision)
      then record {
        response = result;
        output = none;
        error = some (denied result);
        trace = recorded (decision_event now g req result false none) ∷ [];
      }
      else record {
        response = result;
        output = none;
        error = wrap_error (write path redacted perm);
        trace =
            recorded (decision_event now g req result true none) ∷ wrote path redacted perm ∷ [];
      }

  unfoldable pub write_file :
      ℕ → Gate → String → Bytes → ℕ → Bytes → List ScanFinding → Bool → Outcome
  unfolding write_checked
  write_file now g path bytes perm text findings sensitive = elim (g.writer) [
    | none ↦ refuse no_writer
    | some write ↦
        let req = read_request (file_action "file.write" path sensitive) text findings in
        write_checked now g write req path bytes perm findings (check g req)
  ]
