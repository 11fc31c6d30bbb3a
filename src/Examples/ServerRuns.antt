-- ===== src/Examples/ServerRuns.antt =====
-- internal/server/server.go, run.
use datafog.Prelude.{
  String, ◌≡◌, ◌≢◌, refl, Option, none, some, List, [], ◌∷◌, lookup, insert, eq_iff, Dict,
}
use datafog.Strings.{ascii_tables, Bytes, equal_fold, trim_space}
use datafog.Models.{Decision, ScanFinding, DecideRequest, DecideResponse, Receipt}
use datafog.Policy.Evaluate.{DecisionResult, default_entity_transforms, evaluate_sorted}
use datafog.Receipts.{Codec, get}
use datafog.Receipts.Recovery.{working}
use datafog.Server.Decide.{
  Wire, Body, decoded, HttpRequest, Response, decided, IdempotentDecision, Server, Moment, Stage,
  go, anonymous, new_server, admit, look_up, handle_decide,
}
use datafog.Server.Idempotency.{handle_decide_again}
use datafog.Server.Audit.{IsReceiptOf, handle_decide_saves}
use datafog.Examples.{sample_policy, sample_world, sample_request, sample_receipt, sample_findings}

abbrev pub json : Wire
json = record {
  parse_media_type = λ value. some value;
  marshal_request = λ req. some [];
  marshal_action = λ action. some [];
  marshal_plan = λ plan. some "[]";
  hex_digest = λ body. "00";
}

abbrev pub any_codec : Codec
any_codec = record { encode = λ r. some "r1"; decode = λ line. some sample_receipt }

abbrev pub scanner : Bytes → List ScanFinding
scanner bytes = []

abbrev pub moment : String → Moment
moment id = record { id = id; now = 5; stamp = "20240101"; disk = working }

abbrev pub fresh : Server
fresh = record { policy = sample_policy; world = sample_world; decisions = [] }

abbrev pub post : DecideRequest → HttpRequest
post req = record { method = "POST"; content_type = "application/json"; body = decoded req }

abbrev pub retried : DecideRequest
retried = record sample_request { request_id = "q2"; actor_id = "me" }

admitted : admit ⦃u = ascii_tables⦄ json (post sample_request) ≡ go sample_request
unfolding admit datafog.Server.Decide.is_json_content_type equal_fold trim_space
admitted = refl

retry_admitted : admit ⦃u = ascii_tables⦄ json (post retried) ≡ go retried
unfolding admit datafog.Server.Decide.is_json_content_type equal_fold trim_space
retry_admitted = refl

pub not_cached :
    look_up ⦃u = ascii_tables⦄ json fresh (admit ⦃u = ascii_tables⦄ json (post sample_request))
    ≡ go sample_request
unfolding look_up admit datafog.Server.Decide.is_json_content_type equal_fold trim_space
    datafog.Server.Decide.hash_decide_request datafog.Server.Decide.hash_payload lookup
not_cached = refl

abbrev pub permission : DecideResponse
permission = record {
  request_id = "q1";
  trace_id = "";
  decision = Decision.allow_with_redaction;
  receipt_id = "r7";
  policy_version = "v1";
  policy_id = "p1";
  matched_rules = "allow-all" ∷ "redact-reads" ∷ [];
  transform_plan = default_entity_transforms;
  findings = sample_findings;
  reason = "";
}

abbrev pub redact_read : DecisionResult
redact_read = record {
  decision = Decision.allow_with_redaction;
  matched_rules = "allow-all" ∷ "redact-reads" ∷ [];
  transform_plan = default_entity_transforms;
  reason = "";
}

pub evaluated :
    evaluate_sorted ⦃u = ascii_tables⦄ sample_policy
      record { action = sample_request.action; findings = sample_findings }
    ≡ redact_read
unfolding evaluate_sorted datafog.Policy.Evaluate.tally_rules datafog.Policy.Evaluate.tally_rule
    datafog.Policy.Match.match_action datafog.Policy.Match.matches_field
    datafog.Policy.Match.found_types datafog.Policy.Match.has_required_entities
    datafog.Policy.Match.is_required_decision equal_fold datafog.Strings.to_lower trim_space
    datafog.Policy.Match.matches_args datafog.Adapters.matches_adapter datafog.Prelude.contains
evaluated = refl

pub first_decided :
    (handle_decide ⦃u = ascii_tables⦄ json scanner any_codec
      (moment "r7")
      fresh
      (post sample_request)).0
    ≡ decided permission
unfolding handle_decide admit datafog.Server.Decide.is_json_content_type equal_fold trim_space
    datafog.Server.Decide.hash_decide_request datafog.Server.Decide.hash_payload lookup
    datafog.Server.Decide.hash_decide_action datafog.Server.Decide.hash_decide_input
    datafog.Receipts.save datafog.Server.Decide.response_of datafog.Server.Decide.receipt_of
    datafog.Server.Decide.findings_of datafog.Receipts.new_receipt
first_decided = rw evaluated refl

same_request : anonymous retried ≡ anonymous sample_request
unfolding anonymous
same_request = refl

keyed : sample_request.idempotency_key ≢ ""
keyed e = cc ((eq_iff sample_request.idempotency_key "").1 e)

abbrev after : Server
after =
    (handle_decide ⦃u = ascii_tables⦄ json scanner any_codec (moment "r7") fresh
      (post sample_request)).1

again_example :
    handle_decide ⦃u = ascii_tables⦄ json scanner any_codec (moment "r8") after (post retried)
    ≡ (decided permission, after)
again_example =
    handle_decide_again ⦃u = ascii_tables⦄ json scanner any_codec (moment "r7") (moment "r8") fresh
      (post sample_request) (post retried) sample_request retried permission admitted retry_admitted
      keyed refl same_request first_decided

saves_example :
    (r : Receipt) × (get permission.receipt_id after.world.store ≡ some r)
    × IsReceiptOf r sample_request permission
saves_example =
    handle_decide_saves ⦃u = ascii_tables⦄ json any_codec scanner (moment "r7") fresh
      (post sample_request) sample_request permission not_cached first_decided
