-- ===== src/Models.antt =====
-- internal/models/models.go: the data that the parts exchange. A Go string type with named constants
-- has a constructor for each of them and `other` for any other text. A confidence is in thousandths,
-- a time in nanoseconds. JSON tags are left out.
use datafog.Prelude.{ℕ, String, Bool, List, Dict}
use datafog.Prelude.Int.{ℤ}
use datafog.Strings.{Bytes}

pub data Decision : Type 0 where
  allow deny transform allow_with_redaction : Decision
  other : String → Decision

pub data TransformMode : Type 0 where
  mask tokenize anonymize redact replace hash : TransformMode
  other : String → TransformMode

pub record ScanFinding : Type 0 where
  pub entity_type : String
  pub value : Bytes
  pub start : ℤ
  pub end : ℤ
  pub confidence : ℕ

pub record ActionMeta : Type 0 where
  pub type : String
  pub tool : String
  pub resource : String
  pub command : String
  pub args : List String
  pub sensitive : Bool

pub record TransformStep : Type 0 where
  pub entity_type : String
  pub mode : TransformMode

pub record TransformStats : Type 0 where
  pub entities_transformed : ℕ
  pub modes_applied : String

pub record ScanRequest : Type 0 where
  pub text : Bytes
  pub entity_types : List String
  pub request_id : String
  pub trace_id : String
  pub idempotency_key : String

pub record ScanResponse : Type 0 where
  pub request_id : String
  pub trace_id : String
  pub findings : List ScanFinding
  pub policy_version : String
  pub policy_id : String

-- entity_modes has the entries of Go's map in the order in which it yields them
pub record TransformRequest : Type 0 where
  pub text : Bytes
  pub findings : List ScanFinding
  pub mode : TransformMode
  pub entity_modes : Dict TransformMode
  pub request_id : String
  pub trace_id : String
  pub idempotency_key : String

pub record TransformResponse : Type 0 where
  pub request_id : String
  pub trace_id : String
  pub output : Bytes
  pub policy_id : String
  pub policy_version : String
  pub stats : TransformStats

pub record AnonymizeRequest : Type 0 where
  pub text : Bytes
  pub findings : List ScanFinding
  pub request_id : String
  pub trace_id : String
  pub idempotency_key : String

pub record DecideRequest : Type 0 where
  pub request_id : String
  pub trace_id : String
  pub tenant_id : String
  pub actor_id : String
  pub session_id : String
  pub action : ActionMeta
  pub text : Bytes
  pub findings : List ScanFinding
  pub idempotency_key : String

pub record DecideResponse : Type 0 where
  pub request_id : String
  pub trace_id : String
  pub decision : Decision
  pub receipt_id : String
  pub policy_version : String
  pub policy_id : String
  pub matched_rules : List String
  pub transform_plan : List TransformStep
  pub findings : List ScanFinding
  pub reason : String

pub record Receipt : Type 0 where
  pub receipt_id : String
  pub timestamp : ℕ
  pub request_id : String
  pub trace_id : String
  pub tenant_id : String
  pub actor_id : String
  pub session_id : String
  pub policy_version : String
  pub policy_id : String
  pub action_hash : String
  pub input_hash : String
  pub sanitized_summary : String
  pub decision : Decision
  pub action : ActionMeta
  pub matched_rules : List String
  pub findings : List ScanFinding
  pub transform_plan : List TransformStep
  pub reason : String

pub record MatchCriteria : Type 0 where
  pub action_types : List String
  pub tools : List String
  pub resource_prefix : List String
  pub commands : List String
  pub args : List String
  pub adapters : List String

pub record Rule : Type 0 where
  pub id : String
  pub description : String
  pub priority : ℤ
  pub effect : Decision
  pub match : MatchCriteria
  pub entity_requirements : List String
  pub entity_transforms : List TransformStep
  pub require_sensitive_only : Bool

pub record Policy : Type 0 where
  pub policy_id : String
  pub policy_version : String
  pub description : String
  pub updated_at : ℕ
  pub rules : List Rule
