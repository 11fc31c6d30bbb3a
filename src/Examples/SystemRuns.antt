-- ===== src/Examples/SystemRuns.antt =====
-- A gate, its HTTP client and the service, run.
use datafog.Prelude.{
  String, true, false, ◌≡◌, refl, ap, sym, ◌∙◌, Option, none, some, List, [], ◌∷◌,
}
use datafog.Strings.{ascii_tables, equal_fold, trim_space}
use datafog.Models.{Decision, DecideRequest, DecideResponse, Receipt}
use datafog.Policy.Evaluate.{default_entity_transforms, evaluate_sorted}
use datafog.Receipts.{get}
use datafog.Shim.Gate.{EnforcementMode, Gate, no_response, permit_decision, check}
use datafog.Shim.Calls.{Call, read_path, request_of, perform, acts}
use datafog.Shim.Http.{Library, ok, HttpDecisionClient, Outgoing, Answer, decide}
use datafog.Server.Decide.{Response, Body, decoded, decided, handle_decide, admit}
use datafog.Server.Middleware.{authorized}
use datafog.Server.Audit.{IsReceiptOf}
use datafog.System.{ServiceJson, incoming, posted, service, acts_audited}
use datafog.Examples.{zero_digest, sample_text, sample_policy}
use datafog.Examples.ServerRuns.{json, any_codec, moment, fresh, redact_read, scanner}

abbrev notes : Call
notes = record { action = read_path "notes.txt"; text = []; findings = []; sensitive = false }

abbrev asked : DecideRequest
asked = record {
  request_id = "";
  trace_id = "";
  tenant_id = "";
  actor_id = "";
  session_id = "";
  action = record {
    type = "file.read";
    tool = "fs";
    resource = "notes.txt";
    command = "";
    args = [];
    sensitive = false;
  };
  text = [];
  findings = [];
  idempotency_key = "";
}

abbrev permission : DecideResponse
permission = record {
  request_id = "";
  trace_id = "";
  decision = Decision.allow_with_redaction;
  receipt_id = "r7";
  policy_version = "v1";
  policy_id = "p1";
  matched_rules = "allow-all" ∷ "redact-reads" ∷ [];
  transform_plan = default_entity_transforms;
  findings = [];
  reason = "";
}

abbrev codecs : ServiceJson
codecs = record {
  decode_request = λ body. decoded asked;
  encode_response = λ res. "{}";
  encode_error = λ code. code;
}

abbrev library : Library
library = record {
  marshal_request = λ req. ok "{}";
  new_request = λ endpoint. none;
  unmarshal_response = λ body. (permission, none);
  unmarshal_error = λ body. none;
}

abbrev exchange : Outgoing → Answer
exchange = service ⦃u = ascii_tables⦄ json scanner any_codec codecs "t1" (moment "r7") fresh

abbrev client : HttpDecisionClient
client = record {
  decision_endpoint = "http://localhost:8080/v1/decide";
  api_key = "t1";
  http_client = some exchange;
}

abbrev gate : Gate
gate = record {
  client = some (decide library client);
  runner = none;
  reader = some (λ path. (some sample_text, none));
  writer = none;
  mode = EnforcementMode.enforced;
  enforce_policy_errors = false;
}

is_asked : request_of notes ≡ asked
unfolding request_of datafog.Shim.Gate.read_request
is_asked = refl

evaluated :
    evaluate_sorted ⦃u = ascii_tables⦄ sample_policy record { action = asked.action; findings = [] }
    ≡ redact_read
unfolding evaluate_sorted datafog.Policy.Evaluate.tally_rules datafog.Policy.Evaluate.tally_rule
    datafog.Policy.Match.match_action datafog.Policy.Match.matches_field
    datafog.Policy.Match.found_types datafog.Policy.Match.has_required_entities
    datafog.Policy.Match.is_required_decision equal_fold datafog.Strings.to_lower trim_space
    datafog.Policy.Match.matches_args datafog.Adapters.matches_adapter datafog.Prelude.contains
evaluated = refl

service_decides :
    (handle_decide ⦃u = ascii_tables⦄ json scanner any_codec
      (moment "r7")
      fresh
      (posted (decoded asked))).0
    ≡ decided permission
unfolding handle_decide posted admit datafog.Server.Decide.is_json_content_type equal_fold
    trim_space datafog.Server.Decide.hash_decide_action datafog.Server.Decide.hash_payload
    datafog.Server.Decide.hash_decide_input datafog.Receipts.save datafog.Server.Decide.response_of
    datafog.Server.Decide.receipt_of datafog.Server.Decide.findings_of datafog.Receipts.new_receipt
service_decides = rw evaluated refl

key_known : authorized ⦃u = ascii_tables⦄ "t1" (incoming "t1") ≡ true
unfolding authorized incoming trim_space datafog.Server.Middleware.authorization_token
key_known = refl

client_permitted : decide library client asked ≡ (permission, none)
unfolding decide service trim_space
client_permitted = rw (key_known, service_decides) refl

acted : acts (perform ⦃u = ascii_tables⦄ ⦃d = zero_digest⦄ scanner 5 gate notes).trace ≡ true
unfolding acts perform datafog.Shim.Actions.read_file datafog.Shim.Gate.execute_request check
    datafog.Shim.Gate.should_allow datafog.Shim.Calls.is_action decide
acted = rw client_permitted refl

abbrev DecidedByService : DecideResponse → Type 0
DecidedByService res =
    (handle_decide ⦃u = ascii_tables⦄ json scanner any_codec (moment "r7") fresh
      (posted (decoded (request_of notes)))).0
    ≡ decided res

abbrev response_in : Response → DecideResponse
response_in (decided res) = res
response_in _ = no_response

reads_back :
    (res : DecideResponse)
    → DecidedByService res
    → library.unmarshal_response (codecs.encode_response res) ≡ (res, none)
unfolding request_of datafog.Shim.Gate.read_request
reads_back res h = ap (λ r. (response_in r, none)) (sym service_decides ∙ h)

audited_example :
    (res : DecideResponse) × (r : Receipt) × (authorized ⦃u = ascii_tables⦄ "t1" (incoming "t1")
      ≡ true)
    × DecidedByService res
    × (permit_decision res.decision ≡ true)
    × (get res.receipt_id
          (handle_decide ⦃u = ascii_tables⦄ json scanner any_codec
            (moment "r7")
            fresh
            (posted (decoded (request_of notes)))).1.world.store
        ≡ some r)
    × IsReceiptOf r (request_of notes) res
audited_example =
    acts_audited ⦃u = ascii_tables⦄ json scanner any_codec codecs "t1" ⦃d = zero_digest⦄ library
      client (moment "r7") fresh 5 gate notes refl refl refl (λ body e. ap decoded (sym is_asked))
      reads_back acted
