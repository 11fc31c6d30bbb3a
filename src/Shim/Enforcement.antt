-- ===== src/Shim/Enforcement.antt =====
-- internal/shim/enforcer.go: what the gate lets through, for its four actions as one.
use datafog.Prelude.{
  ℕ, String, Bool, true, false, ◌&&◌, ◌≡◌, refl, ap, Option, none, some, List, [], ◌∷◌, arith, ◌==◌,
  if◌then◌else◌, Bool-cases, Option-cases, inl, inr,
}
use mathlib.Core.Path.{subst}
use datafog.Strings.{Unicode, Bytes}
use datafog.Models.{ScanFinding, DecideRequest, DecideResponse}
use datafog.Transform.Replacement.{Digest}
use datafog.Shim.Gate.{
  EnforcementMode, Gate, Outcome, Effect, recorded, wrote, DecisionEvent, Writer, permit_decision,
  should_allow, should_block_on_policy_error, is_observe, is_enforced, check, enforce,
  execute_request, GateError, decision_event,
}
use datafog.Shim.Actions.{
  execute_shell, execute_command, read_file, write_file, write_checked, redact_read, redact_output,
  is_redacting,
}
use datafog.Shim.Calls.{
  Action, shell, command, read_path, write_path, Call, request_of, perform_action, is_ready,
  is_action, acts, goes_on, bytes_for, effect_of, perform,
}

-- One event is recorded, before anything else, and it says whether the action goes on, which is then this
-- effect, once.
unfoldable pub IsGated : Bool → Effect → List Effect → Type 0
IsGated b x trace =
    (e : DecisionEvent) × (e.allowed ≡ b) × (trace ≡ recorded e ∷ (if b then x ∷ [] else []))

enforce-IsGated :
    (now : ℕ) (g : Gate) (req : DecideRequest) (x : Effect) (result : Option Bytes × Option String)
    (answer : DecideResponse × Option String)
    → IsGated (goes_on g answer) x (enforce now g req x result answer).trace
unfolding enforce goes_on IsGated decision_event
enforce-IsGated now g req x (o, err) (r, some e) =
    elim (Bool-cases (should_block_on_policy_error g)) [
      | inl h ↦ rw h (_, refl, refl)
      | inr h ↦ rw h (_, refl, refl)
    ]
enforce-IsGated now g req x (o, err) (r, none) = elim (Bool-cases (should_allow g r.decision)) [
  | inl h ↦ rw h (_, refl, refl)
  | inr h ↦ rw h (_, refl, refl)
]

branch_true : (A B : Type 0) {b : Bool} → b ≡ true → (if b then A else B) → A
branch_true A B e h = subst (λ c. if c then A else B) e h

branch_false : (A B : Type 0) {b : Bool} → b ≡ false → (if b then A else B) → B
branch_false A B e h = subst (λ c. if c then A else B) e h

enforced-goes_on :
    (g : Gate) (answer : DecideResponse × Option String)
    → g.mode ≡ EnforcementMode.enforced
    → goes_on g answer ≡ true
    → (r : DecideResponse) × (answer ≡ (r, none)) × (permit_decision r.decision ≡ true)
unfolding goes_on should_allow should_block_on_policy_error
enforced-goes_on g (r, none) m h = (r, refl, ground (arith, ap is_observe m))
enforced-goes_on g (r, some e) m h = ground (arith, ap is_enforced m)

observed-goes_on :
    (g : Gate) (answer : DecideResponse × Option String)
    → g.mode ≡ EnforcementMode.observe
    → g.enforce_policy_errors ≡ false
    → goes_on g answer ≡ true
unfolding goes_on should_allow should_block_on_policy_error
observed-goes_on g (r, none) m p = ground (arith, ap is_observe m)
observed-goes_on g (r, some e) m p = ground (arith, ap is_enforced m)

module _ ⦃u : Unicode⦄ ⦃d : Digest⦄ (scan : Bytes → List ScanFinding) where
  is_action-effect_of :
      (a : Action) (findings : List ScanFinding) (answer : DecideResponse × Option String)
      → is_action (effect_of scan a findings answer) ≡ true
  unfolding is_action effect_of
  is_action-effect_of (shell name args) findings answer = refl
  is_action-effect_of (command adapter target args) findings answer = refl
  is_action-effect_of (read_path path) findings answer = refl
  is_action-effect_of (write_path path bytes perm) findings answer = refl

  write_checked-IsGated :
      (now : ℕ) (g : Gate) (write : Writer) (req : DecideRequest) (path : String) (bytes : Bytes)
      (perm : ℕ) (findings : List ScanFinding) (answer : DecideResponse × Option String)
      → IsGated
          (goes_on g answer)
          (wrote path (bytes_for scan bytes findings answer) perm)
          (write_checked scan now g write req path bytes perm findings answer).trace
  unfolding write_checked goes_on IsGated decision_event bytes_for
  write_checked-IsGated now g write req path bytes perm findings (r, some e) =
      elim (Bool-cases (should_block_on_policy_error g)) [
        | inl h ↦ rw h (_, refl, refl)
        | inr h ↦ rw h (_, refl, refl)
      ]
  write_checked-IsGated now g write req path bytes perm findings (r, none) =
      elim (Bool-cases (should_allow g r.decision)) [
        | inl h ↦ rw h (_, refl, refl)
        | inr h ↦ rw h (_, refl, refl)
      ]

  redact_output_trace :
      (o : Outcome) (out : Option Bytes) → (redact_output scan o out).trace ≡ o.trace
  unfolding redact_output
  redact_output_trace o none = refl
  redact_output_trace o (some b) = refl

  pub redact_read_trace :
      (o : Outcome) (err : Option GateError) → (redact_read scan o err).trace ≡ o.trace
  unfolding redact_read
  redact_read_trace o (some e) = refl
  redact_read_trace o none = elim (Bool-cases (is_redacting o.response)) [
    | inl h ↦ rw h (redact_output_trace o o.output)
    | inr h ↦ rw h refl
  ]

  -- what the gate owes a call: a trace of one event, or of nothing when a part is missing
  unfoldable pub IsAnswered : Gate → Call → Outcome → Type 0
  IsAnswered g c o =
      if is_ready g c.action
      then IsGated (goes_on g (check g (request_of c)))
          (effect_of scan c.action c.findings (check g (request_of c))) o.trace
      else (o.trace ≡ [])

  shell-IsAnswered :
      (now : ℕ) (g : Gate) (name : String) (args : List String) (text : Bytes)
      (findings : List ScanFinding) (sensitive : Bool)
      → IsAnswered g
          record {
            action = shell name args;
            text = text;
            findings = findings;
            sensitive = sensitive;
          }
          (execute_shell now g name args text findings sensitive)
  unfolding IsAnswered is_ready execute_shell execute_request request_of effect_of
  shell-IsAnswered now g name args text findings sensitive = elim (Option-cases (g.runner)) [
    | inl e ↦ rw e refl
    | inr (run, e) ↦ rw e (enforce-IsGated now _ _ _ _ _)
  ]

  command-IsAnswered :
      (now : ℕ) (g : Gate) (adapter target : String) (args : List String) (text : Bytes)
      (findings : List ScanFinding) (sensitive : Bool)
      → IsAnswered g
          record {
            action = command adapter target args;
            text = text;
            findings = findings;
            sensitive = sensitive;
          }
          (execute_command now g adapter target args text findings sensitive)
  unfolding IsAnswered is_ready execute_command execute_request request_of effect_of
  command-IsAnswered now g adapter target args text findings sensitive =
      elim (Option-cases (g.runner)) [
        | inl e ↦ rw e refl
        | inr (run, e) ↦ elim (Bool-cases (adapter == "")) [
          | inl a ↦ rw (e, a) refl
          | inr a ↦ elim (Bool-cases (target == "")) [
            | inl t ↦ rw (e, a, t) refl
            | inr t ↦ rw (e, a, t) (enforce-IsGated now _ _ _ _ _)
          ]
        ]
      ]

  read-IsAnswered :
      (now : ℕ) (g : Gate) (path : String) (text : Bytes) (findings : List ScanFinding)
      (sensitive : Bool)
      → IsAnswered g
          record {
            action = read_path path;
            text = text;
            findings = findings;
            sensitive = sensitive;
          }
          (read_file scan now g path text findings sensitive)
  unfolding IsAnswered is_ready read_file execute_request request_of effect_of
  read-IsAnswered now g path text findings sensitive = elim (Option-cases (g.reader)) [
    | inl e ↦ rw e refl
    | inr (reader, e) ↦ rw (e, redact_read_trace _ _) (enforce-IsGated now _ _ _ _ _)
  ]

  write-IsAnswered :
      (now : ℕ) (g : Gate) (path : String) (bytes : Bytes) (perm : ℕ) (text : Bytes)
      (findings : List ScanFinding) (sensitive : Bool)
      → IsAnswered g
          record {
            action = write_path path bytes perm;
            text = text;
            findings = findings;
            sensitive = sensitive;
          }
          (write_file scan now g path bytes perm text findings sensitive)
  unfolding IsAnswered is_ready write_file request_of effect_of
  write-IsAnswered now g path bytes perm text findings sensitive = elim (Option-cases (g.writer)) [
    | inl e ↦ rw e refl
    | inr (write, e) ↦ rw e (write_checked-IsGated now _ write _ path bytes perm findings _)
  ]

  action-IsAnswered :
      (now : ℕ) (g : Gate) (a : Action) (text : Bytes) (findings : List ScanFinding)
      (sensitive : Bool)
      → IsAnswered g
          record { action = a; text = text; findings = findings; sensitive = sensitive }
          (perform_action scan now g a text findings sensitive)
  unfolding perform_action
  action-IsAnswered now g (shell name args) = shell-IsAnswered now g name args
  action-IsAnswered now g (command adapter target args) =
      command-IsAnswered now g adapter target args
  action-IsAnswered now g (read_path path) = read-IsAnswered now g path
  action-IsAnswered now g (write_path path bytes perm) = write-IsAnswered now g path bytes perm

  answered-acts :
      (g : Gate) (c : Call) (o : Outcome)
      → IsAnswered g c o
      → acts o.trace ≡ is_ready g c.action && goes_on g (check g (request_of c))
  unfolding IsAnswered acts is_action IsGated
  answered-acts g c o h = elim (Bool-cases (is_ready g c.action)) [
    | inr missing ↦
        let empty : o.trace ≡ [] = branch_false _ _ missing h in (rw (missing, empty) refl)
    | inl there ↦
        let answer = check g (request_of c) in
        let x = effect_of scan c.action c.findings answer in
        let is = is_action-effect_of c.action c.findings answer in
        let (e, allowed, eq) : IsGated (goes_on g answer) x o.trace = branch_true _ _ there h in
        elim (Bool-cases (goes_on g (check g (request_of c)))) [
          | inl on ↦ rw (there, eq, on) (rw is refl)
          | inr off ↦ rw (there, eq, off) refl
        ]
  ]

  -- An action whose parts are missing leaves no trace. Any other consults the client and records one
  -- event, before anything else. The event says whether the action goes on, and the action is then
  -- done once, or not at all: the command that the call names is run with the call's arguments, or the
  -- file at its path is read, or the bytes are written there with its mode, redacted if the answer asks
  -- for it.
  pub perform-IsAnswered : (now : ℕ) (g : Gate) (c : Call) → IsAnswered g c (perform scan now g c)
  unfolding perform
  perform-IsAnswered now g c = action-IsAnswered now g c.action c.text c.findings c.sensitive

  -- In the enforced mode nothing is done unless the client answered, without an error, to allow it.
  pub enforced_needs_permission :
      (now : ℕ) (g : Gate) (c : Call)
      → g.mode ≡ EnforcementMode.enforced
      → acts (perform scan now g c).trace ≡ true
      → (r : DecideResponse) × (check g (request_of c) ≡ (r, none))
        × (permit_decision r.decision ≡ true)
  enforced_needs_permission now g c m h =
      enforced-goes_on g (check g (request_of c)) m
        (ground (arith, answered-acts g c (perform scan now g c) (perform-IsAnswered now g c)))

  -- In the observe mode, without the option that makes policy errors fatal, every action whose parts
  -- are there is done, whatever the client answers: an event that allows it is recorded, then it is
  -- done as the call asks.
  pub observe_never_blocks :
      (now : ℕ) (g : Gate) (c : Call)
      → g.mode ≡ EnforcementMode.observe
      → g.enforce_policy_errors ≡ false
      → is_ready g c.action ≡ true
      → (e : DecisionEvent) × (e.allowed ≡ true)
        × ((perform scan now g c).trace
            ≡ recorded e ∷ effect_of scan c.action c.findings (check g (request_of c)) ∷ [])
  unfolding IsGated IsAnswered
  observe_never_blocks now g c m p ready =
      let answer = check g (request_of c) in
      let x = effect_of scan c.action c.findings answer in
      let gated : IsGated (goes_on g answer) x (perform scan now g c).trace =
        branch_true _ _ ready (perform-IsAnswered now g c) in
      subst (λ b. IsGated b x (perform scan now g c).trace) (observed-goes_on g answer m p) gated
