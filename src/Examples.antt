-- ===== src/Examples.antt =====
-- Data on which the code is run, and below it the runs, one file for each part.
pub mod PolicyRuns
pub mod TransformRuns
pub mod ReceiptRuns
pub mod AdapterRuns
pub mod ScanRuns
pub mod ShimRuns
pub mod ServerRuns
pub mod CliRuns
pub mod NerRuns
pub mod EventRuns
pub mod FrontRuns
pub mod HandlerRuns
pub mod SystemRuns
pub mod TrafficRuns
pub mod HookRuns
pub mod CommandRuns
pub mod DemoRuns
pub mod StartRuns
use datafog.Prelude.{
  ℕ, String, Bool, true, false, Option, none, some, List, [], ◌∷◌, replicate, length-replicate,
}
use datafog.Prelude.Int.{ℤ, pos}
use datafog.Strings.{Bytes}
use datafog.Models.{
  Decision, TransformMode, ScanFinding, ActionMeta, TransformStep, DecideRequest, MatchCriteria,
  Rule, Policy, Receipt,
}
use datafog.Policy.Evaluate.{DecisionContext}
use datafog.Transform.Replacement.{Digest}
use datafog.Receipts.{Codec, World}

-- a digest of the right length
abbrev pub zero_digest : Digest
zero_digest = record {
  hex = λ value. replicate 64 b'0';
  length-hex = λ value. length-replicate {A = ℕ} 64 b'0';
}

abbrev pub any_action : MatchCriteria
any_action = record {
  action_types = [];
  tools = [];
  resource_prefix = [];
  commands = [];
  args = [];
  adapters = [];
}

abbrev pub rule_of : String → ℕ → Decision → MatchCriteria → List String → Rule
rule_of id priority effect match requirements = record {
  id = id;
  description = "";
  priority = pos priority;
  effect = effect;
  match = match;
  entity_requirements = requirements;
  entity_transforms = [];
  require_sensitive_only = false;
}

abbrev pub allow_all : Rule
allow_all = rule_of "allow-all" 1 Decision.allow any_action []

abbrev pub deny_keys : Rule
deny_keys = rule_of "deny-keys" 10 Decision.deny any_action ("api_key" ∷ [])

abbrev pub redact_reads : Rule
redact_reads =
    rule_of "redact-reads" 5 Decision.allow_with_redaction
      (record any_action { action_types = "file.read" ∷ [] }) []

abbrev pub sample_policy : Policy
sample_policy = record {
  policy_id = "p1";
  policy_version = "v1";
  description = "";
  updated_at = 0;
  rules = allow_all ∷ deny_keys ∷ redact_reads ∷ [];
}

abbrev pub read_action : ActionMeta
read_action = record {
  type = "file.read";
  tool = "fs";
  resource = "notes.txt";
  command = "";
  args = [];
  sensitive = false;
}

abbrev pub finding_of : String → Bytes → ℕ → ℕ → ScanFinding
finding_of entity_type value start end = record {
  entity_type = entity_type;
  value = value;
  start = pos start;
  end = pos end;
  confidence = 900;
}

-- `me@x.io or 12345`
abbrev pub sample_text : Bytes
sample_text =
    b'm' ∷ b'e' ∷ b'@' ∷ b'x' ∷ b'.' ∷ b'i' ∷ b'o' ∷ b' ' ∷ b'o' ∷ b'r' ∷ b' ' ∷ b'1' ∷ b'2' ∷ b'3'
    ∷ b'4' ∷ b'5' ∷ []

abbrev pub email_finding : ScanFinding
email_finding = finding_of "email" (b'm' ∷ b'e' ∷ b'@' ∷ b'x' ∷ b'.' ∷ b'i' ∷ b'o' ∷ []) 0 7

abbrev pub zip_finding : ScanFinding
zip_finding = finding_of "zip_code" (b'1' ∷ b'2' ∷ b'3' ∷ b'4' ∷ b'5' ∷ []) 11 16

abbrev pub sample_findings : List ScanFinding
sample_findings = zip_finding ∷ email_finding ∷ []

abbrev pub mask_step : String → TransformStep
mask_step entity_type = record { entity_type = entity_type; mode = TransformMode.mask }

abbrev pub sample_plan : List TransformStep
sample_plan =
    mask_step "email" ∷ record { entity_type = "zip_code"; mode = TransformMode.redact } ∷ []

abbrev pub key_finding : ScanFinding
key_finding = finding_of "api_key" [] 0 1

abbrev pub key_read : DecisionContext
key_read = record { action = read_action; findings = key_finding ∷ [] }

abbrev pub plain_read : DecisionContext
plain_read = record { action = read_action; findings = [] }

abbrev pub sample_receipt : Receipt
sample_receipt = record {
  receipt_id = "r1";
  timestamp = 7;
  request_id = "";
  trace_id = "";
  tenant_id = "";
  actor_id = "";
  session_id = "";
  policy_version = "v1";
  policy_id = "p1";
  action_hash = "";
  input_hash = "";
  sanitized_summary = "";
  decision = Decision.allow;
  action = read_action;
  matched_rules = [];
  findings = [];
  transform_plan = [];
  reason = "";
}

abbrev pub sample_world : World
sample_world = record {
  store = record { file_path = "receipts.jsonl"; receipts = []; max_entries = 2; entry_count = 0 };
  files = record { current = none; fragment = ""; archives = [] };
}

abbrev pub sample_request : DecideRequest
sample_request = record {
  request_id = "q1";
  trace_id = "";
  tenant_id = "";
  actor_id = "";
  session_id = "";
  action = read_action;
  text = [];
  findings = sample_findings;
  idempotency_key = "k1";
}
