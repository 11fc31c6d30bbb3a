-- ===== src/Shim/Gate.antt =====
-- internal/shim/enforcer.go: the gate, its mode, and one enforced action. What a call does to its
-- surroundings is its trace: the events handed to the sink and the commands and file accesses made.
use datafog.Prelude.{
  ℕ, String, Bool, true, false, not, ◌||◌, Option, none, some, List, [], ◌∷◌, if◌then◌else◌,
}
use datafog.Strings.{Bytes}
use datafog.Models.{Decision, ActionMeta, ScanFinding, DecideRequest, DecideResponse}

pub data EnforcementMode : Type 0 where
  unset enforced observe : EnforcementMode
  other : String → EnforcementMode

-- `DecisionClient`, `CommandRunner`, `FileReader` and `FileWriter`: what they answer, an error being
-- its text. A nil slice is `none`.
abbrev pub Client : Type 0
Client = DecideRequest → DecideResponse × Option String

abbrev pub Runner : Type 0
Runner = String → List String → Option Bytes × Option String

abbrev pub Reader : Type 0
Reader = String → Option Bytes × Option String

abbrev pub Writer : Type 0
Writer = String → Bytes → ℕ → Option String

pub record Gate : Type 0 where
  pub client : Option Client
  pub runner : Option Runner
  pub reader : Option Reader
  pub writer : Option Writer
  pub mode : EnforcementMode
  pub enforce_policy_errors : Bool

pub record DecisionEvent : Type 0 where
  pub timestamp : ℕ
  pub mode : EnforcementMode
  pub action_type : String
  pub tool : String
  pub resource : String
  pub command : String
  pub args : List String
  pub sensitive : Bool
  pub decision : Decision
  pub allowed : Bool
  pub receipt_id : String
  pub matched : List String
  pub reason : String
  pub check_error : String
  pub request_id : String
  pub trace_id : String

pub data Effect : Type 0 where
  recorded : DecisionEvent → Effect
  ran : String → List String → Effect
  read : String → Effect
  wrote : String → Bytes → ℕ → Effect

pub data GateError : Type 0 where
  no_client no_runner no_reader no_writer no_adapter no_target : GateError
  check_failed : String → GateError
  denied : DecideResponse → GateError
  action_failed : String → GateError

pub record Outcome : Type 0 where
  pub response : DecideResponse
  pub output : Option Bytes
  pub error : Option GateError
  pub trace : List Effect

-- the zero value of `models.DecideResponse`
abbrev pub no_response : DecideResponse
no_response = record {
  request_id = "";
  trace_id = "";
  decision = Decision.other "";
  receipt_id = "";
  policy_version = "";
  policy_id = "";
  matched_rules = [];
  transform_plan = [];
  findings = [];
  reason = "";
}

unfoldable pub normalize_mode : EnforcementMode → EnforcementMode
normalize_mode EnforcementMode.unset = EnforcementMode.unset
normalize_mode EnforcementMode.enforced = EnforcementMode.enforced
normalize_mode EnforcementMode.observe = EnforcementMode.observe
normalize_mode (EnforcementMode.other _) = EnforcementMode.enforced

-- `NewGate` with the system's runner, reader and writer, behind its options
unfoldable pub new_gate : Client → Runner → Reader → Writer → EnforcementMode → Bool → Gate
unfolding normalize_mode
new_gate client runner reader writer mode enforce = record {
  client = some client;
  runner = some runner;
  reader = some reader;
  writer = some writer;
  mode = normalize_mode mode;
  enforce_policy_errors = enforce;
}

unfoldable pub permit_decision : Decision → Bool
permit_decision Decision.allow = true
permit_decision Decision.allow_with_redaction = true
permit_decision _ = false

abbrev pub is_observe : EnforcementMode → Bool
is_observe m = elim m [ EnforcementMode.observe ↦ true | _ ↦ false ]

abbrev pub is_enforced : EnforcementMode → Bool
is_enforced m = elim m [ EnforcementMode.enforced ↦ true | _ ↦ false ]

-- the mode is unset at most before `normalizeMode`, which leaves it so
unfoldable pub should_allow : Gate → Decision → Bool
unfolding permit_decision
should_allow g decision = if permit_decision decision then true else is_observe g.mode

unfoldable pub should_block_on_policy_error : Gate → Bool
should_block_on_policy_error g = is_enforced g.mode || g.enforce_policy_errors

abbrev pub error_string : Option String → String
error_string none = ""
error_string (some e) = e

-- the event that `recordDecisionEvent` hands to the sink
unfoldable pub decision_event :
    ℕ → Gate → DecideRequest → DecideResponse → Bool → Option String → DecisionEvent
decision_event now g req decision allowed check_err = record {
  timestamp = now;
  mode = g.mode;
  action_type = req.action.type;
  tool = req.action.tool;
  resource = req.action.resource;
  command = req.action.command;
  args = req.action.args;
  sensitive = req.action.sensitive;
  decision = decision.decision;
  allowed = allowed;
  receipt_id = decision.receipt_id;
  matched = decision.matched_rules;
  reason = decision.reason;
  check_error = error_string check_err;
  request_id = req.request_id;
  trace_id = req.trace_id;
}

abbrev pub client_missing : String
client_missing = "policy decision client is not configured"

-- `Check`
unfoldable pub check : Gate → DecideRequest → DecideResponse × Option String
check g req = elim (g.client) [ none ↦ (no_response, some client_missing) | some c ↦ c req ]

-- the answer with which an action goes on although the check failed
abbrev pub fallback : DecideRequest → String → DecideResponse
fallback req e = record no_response {
  decision = Decision.allow;
  reason = e;
  request_id = req.request_id;
  trace_id = req.trace_id;
}

abbrev pub wrap_error : Option String → Option GateError
wrap_error none = none
wrap_error (some e) = some (action_failed e)

-- `executeRequest` behind the check; `effect` is what `run` does and `result` what it returns
unfoldable pub enforce :
    ℕ
    → Gate
    → DecideRequest
    → Effect
    → Option Bytes × Option String
    → DecideResponse × Option String
    → Outcome
enforce now g req effect (output, run_err) (result, some e) =
    if should_block_on_policy_error g
    then record {
      response = result;
      output = none;
      error = some (check_failed e);
      trace = recorded (decision_event now g req result false (some e)) ∷ [];
    }
    else record {
      response = fallback req e;
      output = output;
      error = wrap_error run_err;
      trace = recorded (decision_event now g req (fallback req e) true (some e)) ∷ effect ∷ [];
    }
enforce now g req effect (output, run_err) (result, none) =
    if not (should_allow g result.decision)
    then record {
      response = result;
      output = none;
      error = some (denied result);
      trace = recorded (decision_event now g req result false none) ∷ [];
    }
    else record {
      response = result;
      output = output;
      error = wrap_error run_err;
      trace = recorded (decision_event now g req result true none) ∷ effect ∷ [];
    }

unfoldable pub execute_request :
    ℕ → Gate → DecideRequest → Effect → Option Bytes × Option String → Outcome
unfolding enforce
execute_request now g req effect result = enforce now g req effect result (check g req)

unfoldable pub read_request : ActionMeta → Bytes → List ScanFinding → DecideRequest
read_request action text findings = record {
  request_id = "";
  trace_id = "";
  tenant_id = "";
  actor_id = "";
  session_id = "";
  action = action;
  text = text;
  findings = findings;
  idempotency_key = "";
}

-- a call that ends before the check
abbrev pub refuse : GateError → Outcome
refuse e = record { response = no_response; output = none; error = some e; trace = [] }
