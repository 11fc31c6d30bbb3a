-- ===== src/Server/Decide.antt =====
-- internal/server/server.go: `handleDecide` with its idempotency cache, as its two critical stages: the
-- look into the cache, and the decision with its receipt and the entry in the cache. A request
-- arrives decoded, and an answer is its status with the error's code, or the decision.
use datafog.Prelude.{
  ℕ, String, Bool, false, not, ◌&&◌, Option, none, some, List, [], ◌==◌, is_empty, Dict, lookup,
  insert, if◌then◌else◌,
}
use datafog.Strings.{Unicode, Bytes, trim_space, equal_fold}
use datafog.Models.{
  ActionMeta, ScanFinding, TransformStep, DecideRequest, DecideResponse, Receipt, Policy,
}
use datafog.Policy.Evaluate.{DecisionResult, normalize_for_evaluation, evaluate_sorted}
use datafog.Receipts.{Codec, Disk, Result, ok, err, World, new_receipt, save}

-- What the handler takes from Go's libraries: `mime.ParseMediaType`, `json.Marshal` and the
-- hexadecimal SHA-256.
pub record Wire : Type 0 where
  pub parse_media_type : String → Option String
  pub marshal_request : DecideRequest → Option Bytes
  pub marshal_action : ActionMeta → Option Bytes
  pub marshal_plan : List TransformStep → Option String
  pub hex_digest : Bytes → String

-- the body behind `http.MaxBytesReader` and the decoder
pub data Body : Type 0 where
  decoded : DecideRequest → Body
  too_large malformed : Body

pub record HttpRequest : Type 0 where
  pub method : String
  pub content_type : String
  pub body : Body

pub data Response : Type 0 where
  error : ℕ → String → Response
  decided : DecideResponse → Response

pub record IdempotentDecision : Type 0 where
  pub request_hash : String
  pub response : DecideResponse

pub record Server : Type 0 where
  pub policy : Policy
  pub world : World
  pub decisions : Dict IdempotentDecision

-- the random identifier, the clock, the archive's time and the file system, as one call finds them
pub record Moment : Type 0 where
  pub id : String
  pub now : ℕ
  pub stamp : String
  pub disk : Disk

-- an early return, or what the handler goes on with
pub data Stage (A : Type 0) : Type 0 where
  stop : Response → Stage A
  go : A → Stage A

-- the request without what does not bear on the decision
unfoldable pub anonymous : DecideRequest → DecideRequest
anonymous req = record req {
  idempotency_key = "";
  request_id = "";
  trace_id = "";
  session_id = "";
  actor_id = "";
  tenant_id = "";
}

unfoldable pub hash_payload : Wire → Option Bytes → Option String
hash_payload wire none = none
hash_payload wire (some body) = some (wire.hex_digest body)

unfoldable pub hash_decide_request : Wire → DecideRequest → Option String
hash_decide_request wire req = hash_payload wire (wire.marshal_request (anonymous req))

unfoldable pub hash_decide_action : Wire → ActionMeta → Option String
hash_decide_action wire action = hash_payload wire (wire.marshal_action action)

unfoldable pub hash_decide_input : Wire → DecideRequest → Option String
hash_decide_input wire req = hash_payload wire (wire.marshal_request (anonymous req))

unfoldable pub decode_body : Body → Stage DecideRequest
decode_body (decoded req) = go req
decode_body too_large = stop (error 413 "request_too_large")
decode_body malformed = stop (error 400 "invalid_request")

unfoldable pub require_action : Stage DecideRequest → Stage DecideRequest
require_action (stop r) = stop r
require_action (go req) =
    if req.action.type == "" then stop (error 400 "invalid_request") else go req

-- a cached decision for the key, or none
unfoldable pub replay :
    Option String → Option IdempotentDecision → DecideRequest → Stage DecideRequest
replay none cached req = stop (error 400 "invalid_request")
replay (some hash) none req = go req
replay (some hash) (some cached) req =
    if cached.request_hash == hash
    then stop (decided cached.response)
    else stop (error 409 "idempotency_conflict")

module _ ⦃u : Unicode⦄ (wire : Wire) where
  unfoldable pub new_server : Policy → World → Server
  new_server policy world = record {
    policy = normalize_for_evaluation policy;
    world = world;
    decisions = [];
  }

  unfoldable pub is_json_content_type : String → Bool
  is_json_content_type value = elim (wire.parse_media_type value) [
    | none ↦ false
    | some m ↦ equal_fold (trim_space m) "application/json"
  ]

  unfoldable pub admit : HttpRequest → Stage DecideRequest
  unfolding require_action decode_body
  admit http =
      if not (http.method == "POST")
      then stop (error 405 "method_not_allowed")
      else if not (is_json_content_type http.content_type)
      then stop (error 415 "unsupported_media_type")
      else require_action (decode_body http.body)

  unfoldable pub look_up : Server → Stage DecideRequest → Stage DecideRequest
  unfolding replay
  look_up s (stop r) = stop r
  look_up s (go req) =
      if req.idempotency_key == ""
      then go req
      else replay (hash_decide_request wire req) (lookup req.idempotency_key s.decisions) req

  unfoldable pub summary_of : List TransformStep → String
  summary_of plan =
      if is_empty plan
      then ""
      else elim (wire.marshal_plan plan) [ none ↦ "transform plan unavailable" | some s ↦ s ]

  unfoldable pub receipt_of :
      Moment
      → Policy
      → DecideRequest
      → List ScanFinding
      → DecisionResult
      → String
      → String
      → Receipt
  receipt_of m policy req findings result action_hash input_hash =
      record (new_receipt m.id m.now req result.decision result policy) {
        findings = findings;
        action_hash = action_hash;
        input_hash = input_hash;
        sanitized_summary = summary_of result.transform_plan;
      }

  unfoldable pub response_of :
      Policy → DecideRequest → List ScanFinding → DecisionResult → Receipt → DecideResponse
  response_of policy req findings result saved = record {
    request_id = req.request_id;
    trace_id = req.trace_id;
    decision = result.decision;
    receipt_id = saved.receipt_id;
    policy_version = policy.policy_version;
    policy_id = policy.policy_id;
    matched_rules = result.matched_rules;
    transform_plan = result.transform_plan;
    findings = findings;
    reason = result.reason;
  }

  -- the entry in the cache; the first hash of the request did not fail
  unfoldable pub remember : DecideRequest → DecideResponse → Server → Server
  remember req res s = if req.idempotency_key == "" then s else record s {
    decisions =
        insert req.idempotency_key
          record {
            request_hash = elim (hash_decide_request wire req) [ none ↦ "" | some h ↦ h ];
            response = res;
          }
          s.decisions;
  }

  unfoldable pub answer :
      Server
      → DecideRequest
      → List ScanFinding
      → DecisionResult
      → Result Receipt × World
      → Response × Server
  answer s req findings result (err e, w) = (error 500 "receipt_error", record s { world = w })
  answer s req findings result (ok saved, w) =
      let res = response_of s.policy req findings result saved in
      (decided res, remember req res (record s { world = w }))

  unfoldable pub store_decision :
      Codec
      → Moment
      → Server
      → DecideRequest
      → List ScanFinding
      → DecisionResult
      → Option String
      → Option String
      → Response × Server
  unfolding answer
  store_decision codec m s req findings result none h = (error 500 "hash_error", s)
  store_decision codec m s req findings result (some a) none = (error 500 "hash_error", s)
  store_decision codec m s req findings result (some a) (some i) =
      answer s req findings result
        (save codec m.disk m.id m.stamp (receipt_of m s.policy req findings result a i) s.world)

  -- `scan` is `ScanText` without a filter
  unfoldable pub findings_of : (Bytes → List ScanFinding) → DecideRequest → List ScanFinding
  findings_of scan req =
      if is_empty req.findings && not (is_empty req.text) then scan req.text else req.findings

  unfoldable pub decide :
      (Bytes → List ScanFinding) → Codec → Moment → Server → Stage DecideRequest → Response × Server
  unfolding store_decision
  decide scan codec m s (stop r) = (r, s)
  decide scan codec m s (go req) =
      let findings = findings_of scan req in
      store_decision codec m s req findings
        (evaluate_sorted s.policy record { action = req.action; findings = findings })
        (hash_decide_action wire req.action) (hash_decide_input wire req)

  unfoldable pub handle_decide :
      (Bytes → List ScanFinding) → Codec → Moment → Server → HttpRequest → Response × Server
  unfolding decide look_up
  handle_decide scan codec m s http = decide scan codec m s (look_up s (admit http))
