-- ===== src/Shim/Calls.antt =====
-- internal/shim/enforcer.go: a call of one of the gate's four actions, for all four as one: its request,
-- whether it goes on, what it then does, and the run of it.
use datafog.Prelude.{
  ℕ, String, Bool, true, false, not, ◌&&◌, Option, none, some, List, ◌==◌, any, if◌then◌else◌,
}
use datafog.Strings.{Unicode, Bytes}
use datafog.Models.{ScanFinding, DecideRequest, DecideResponse}
use datafog.Transform.Replacement.{Digest}
use datafog.Shim.Gate.{
  Gate, Outcome, Effect, recorded, ran, read, wrote, should_allow, should_block_on_policy_error,
  read_request,
}
use datafog.Shim.Actions.{
  shell_action, command_action, file_action, execute_shell, execute_command, read_file, write_file,
  is_redacting, apply_redaction,
}

-- A call of one of the gate's four actions: what it acts on, then the text and the findings that go
-- to the policy and whether it is sensitive.
pub data Action : Type 0 where
  shell : String → List String → Action
  command : String → String → List String → Action
  read_path : String → Action
  write_path : String → Bytes → ℕ → Action

pub record Call : Type 0 where
  pub action : Action
  pub text : Bytes
  pub findings : List ScanFinding
  pub sensitive : Bool

-- the request on which the policy decides
unfoldable pub request_of : Call → DecideRequest
request_of c =
    read_request
      (elim (c.action) [
        | shell name args ↦ shell_action name args c.sensitive
        | command adapter target args ↦ command_action adapter target args c.sensitive
        | read_path path ↦ file_action "file.read" path c.sensitive
        | write_path path _ _ ↦ file_action "file.write" path c.sensitive
      ])
      c.text c.findings

unfoldable pub perform_action :
    ⦃u : Unicode⦄
    → ⦃d : Digest⦄ → (Bytes → List ScanFinding)
    → ℕ
    → Gate
    → Action
    → Bytes
    → List ScanFinding
    → Bool
    → Outcome
perform_action scan now g (shell name args) text findings sensitive =
    execute_shell now g name args text findings sensitive
perform_action scan now g (command adapter target args) text findings sensitive =
    execute_command now g adapter target args text findings sensitive
perform_action scan now g (read_path path) text findings sensitive =
    read_file scan now g path text findings sensitive
perform_action scan now g (write_path path bytes perm) text findings sensitive =
    write_file scan now g path bytes perm text findings sensitive

-- whether the gate has the part that the action needs, and its names
unfoldable pub is_ready : Gate → Action → Bool
is_ready g (shell _ _) = elim (g.runner) [ none ↦ false | some _ ↦ true ]
is_ready g (command adapter target _) =
    elim (g.runner) [ none ↦ false | some _ ↦ true ] && not (adapter == "") && not (target == "")
is_ready g (read_path _) = elim (g.reader) [ none ↦ false | some _ ↦ true ]
is_ready g (write_path _ _ _) = elim (g.writer) [ none ↦ false | some _ ↦ true ]

unfoldable pub is_action : Effect → Bool
is_action (recorded _) = false
is_action _ = true

unfoldable pub acts : List Effect → Bool
acts xs = any is_action xs

-- when an action goes on, as `executeRequest` and `WriteFile` decide it
unfoldable pub goes_on : Gate → DecideResponse × Option String → Bool
goes_on g (result, some e) = not (should_block_on_policy_error g)
goes_on g (result, none) = should_allow g result.decision

module _ ⦃u : Unicode⦄ ⦃d : Digest⦄ (scan : Bytes → List ScanFinding) where
  -- the bytes that a write puts in the file: those that are given, or what is left of them behind the
  -- redaction that the policy asks for
  unfoldable pub bytes_for : Bytes → List ScanFinding → DecideResponse × Option String → Bytes
  bytes_for bytes findings (r, some e) = bytes
  bytes_for bytes findings (r, none) =
      if is_redacting r then apply_redaction scan bytes r.transform_plan findings else bytes

  -- what an action is when it is done: the command with its arguments, or the file at the path
  unfoldable pub effect_of : Action → List ScanFinding → DecideResponse × Option String → Effect
  unfolding bytes_for
  effect_of (shell name args) findings answer = ran name args
  effect_of (command adapter target args) findings answer = ran target args
  effect_of (read_path path) findings answer = read path
  effect_of (write_path path bytes perm) findings answer =
      wrote path (bytes_for bytes findings answer) perm

  unfoldable pub perform : ℕ → Gate → Call → Outcome
  unfolding perform_action
  perform now g c = perform_action scan now g c.action c.text c.findings c.sensitive
