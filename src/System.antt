-- ===== src/System.antt =====
-- The parts together: a gate (internal/shim/enforcer.go) whose client (internal/shim/http.go) reaches the
-- decisions of the service (internal/server/server.go). The request goes to the path /v1/decide of the
-- mux. The rate limit, which answers 429, and other requests meanwhile are left out: `s` is the server's
-- state when the request arrives.
use datafog.Prelude.{
  ℕ, String, Bool, true, false, not, ◌≡◌, refl, ap, sym, ◌∙◌, none, some, List, ◌==◌, eq_iff, eqb,
  ◌⊎◌, if◌then◌else◌, Bool-cases, inl, inr,
}
use datafog.Strings.{Unicode, Bytes}
use datafog.Models.{ScanFinding, DecideRequest, DecideResponse, Receipt}
use datafog.Transform.Replacement.{Digest}
use datafog.Receipts.{Codec, get}
use datafog.Server.Decide.{
  Wire, Body, decoded, HttpRequest, Response, error, decided, Server, Moment, Stage, stop, go,
  admit, decode_body, require_action, look_up, handle_decide, is_json_content_type,
}
use datafog.Server.Decide
use datafog.Server.Statuses.{is_told, handle_decide_told}
use datafog.Server.Middleware.{Incoming, authorized}
use datafog.Server.Audit.{IsReceiptOf, handle_decide_saves}
use datafog.Shim.Gate.{EnforcementMode, Gate, check, permit_decision, read_request}
use datafog.Shim.Calls.{Call, request_of, perform, acts}
use datafog.Shim.Enforcement.{enforced_needs_permission}
use datafog.Shim.Http.{
  Outgoing, Answer, answered, Library, HttpDecisionClient, IsExchange, decide-IsExchange,
}
use datafog.Shim.Http

-- the service's side of encoding/json
pub record ServiceJson : Type 0 where
  pub decode_request : String → Body
  pub encode_response : DecideResponse → String
  pub encode_error : String → String

-- what the server receives from the client
unfoldable pub incoming : String → Incoming
incoming api_key = record {
  method = "POST";
  path = "/v1/decide";
  pattern = "/v1/decide";
  authorization = "";
  api_key = api_key;
}

unfoldable pub posted : Body → HttpRequest
posted body = record { method = "POST"; content_type = "application/json"; body = body }

unfoldable pub reply : ServiceJson → Response → Answer
reply json (error status code) = answered status (json.encode_error code)
reply json (decided res) = answered 200 (json.encode_response res)

request_of_key : (c : Call) → (request_of c).idempotency_key ≡ ""
unfolding request_of read_request
request_of_key c = refl

abbrev is_decided : Response → Bool
is_decided (error status code) = false
is_decided (decided res) = true

abbrev status_of : Answer → ℕ
status_of (answered status body) = status
status_of _ = 0

abbrev body_of : Answer → String
body_of (answered status body) = body
body_of _ = ""

module _ ⦃u : Unicode⦄ (wire : Wire) (scan : Bytes → List ScanFinding) (codec : Codec)
    (json : ServiceJson) (token : String) where
  -- the service as the client finds it
  unfoldable pub service : Moment → Server → Outgoing → Answer
  unfolding reply
  service m s out =
      if not (authorized token (incoming out.api_key))
      then answered 401 (json.encode_error "unauthorized")
      else reply json (handle_decide wire scan codec m s (posted (json.decode_request out.body))).0

  reply_200 :
      (r : Response) (body : String)
      → is_told r ≡ true
      → reply json r ≡ answered 200 body
      → (res : DecideResponse) × (r ≡ decided res) × (json.encode_response res ≡ body)
  unfolding reply
  reply_200 (error status code) body h e = let is : status ≡ 200 = ap status_of e in cc (rw is at h)
  reply_200 (decided res) body h e = (res, refl, ap body_of e)

  service_200 :
      (m : Moment) (s : Server) (out : Outgoing) (body : String)
      → service m s out ≡ answered 200 body
      → (res : DecideResponse) × (authorized token (incoming out.api_key) ≡ true)
        × ((handle_decide wire scan codec m s (posted (json.decode_request out.body))).0
            ≡ decided res)
        × (json.encode_response res ≡ body)
  unfolding service
  service_200 m s out body h = elim (Bool-cases (authorized token (incoming out.api_key))) [
    | inr a ↦ let not_ok : false ≡ true = ap (λ x. eqb (status_of x) 200) (rw a at h) in cc
    | inl a ↦
        let (res, is, same) =
          reply_200 _ body (handle_decide_told wire scan codec m s _) (rw a at h) in
        (res, a, is, same)
  ]

  -- a request without a key for the cache that was decided
  admitted :
      (req : DecideRequest)
      → (admit wire (posted (decoded req)) ≡ go req)
        ⊎ ((status : ℕ) × (code : String) × (admit wire (posted (decoded req))
              ≡ stop (error status code)))
  unfolding admit posted decode_body require_action
  admitted req = elim (Bool-cases (is_json_content_type wire "application/json")) [
    | inr t ↦ inr (415, "unsupported_media_type", rw t refl)
    | inl t ↦ elim (Bool-cases (req.action.type == "")) [
      | inl a ↦ inr (400, "invalid_request", rw (t, a) refl)
      | inr a ↦ inl (rw (t, a) refl)
    ]
  ]

  look_up_plain :
      (s : Server) (req : DecideRequest)
      → req.idempotency_key ≡ ""
      → look_up wire s (go req) ≡ go req
  unfolding look_up
  look_up_plain s req k = rw ((eq_iff req.idempotency_key "").1 k) refl

  decided_go :
      (m : Moment) (s : Server) (req : DecideRequest) (res : DecideResponse)
      → req.idempotency_key ≡ ""
      → (handle_decide wire scan codec m s (posted (decoded req))).0 ≡ decided res
      → look_up wire s (admit wire (posted (decoded req))) ≡ go req
  unfolding handle_decide datafog.Server.Decide.decide look_up
  decided_go m s req res k h = elim (admitted req) [
    | inl e ↦ ap (look_up wire s) e ∙ look_up_plain s req k
    | inr (status, code, e) ↦ let no : false ≡ true = ap is_decided (rw e at h) in cc
  ]

  -- the client answers with what the service decided, and the service keeps the receipt
  exchange_audited :
      (library : Library) (c : HttpDecisionClient) (m : Moment) (s : Server) (req : DecideRequest)
      (answer : DecideResponse)
      → c.http_client ≡ some (service m s)
      → req.idempotency_key ≡ ""
      → ((body : String)
          → library.marshal_request req ≡ datafog.Shim.Http.ok body
          → json.decode_request body ≡ decoded req)
      → ((res : DecideResponse)
          → (handle_decide wire scan codec m s (posted (decoded req))).0 ≡ decided res
          → library.unmarshal_response (json.encode_response res) ≡ (res, none))
      → IsExchange library c req answer
      → (r : Receipt) × (authorized token (incoming c.api_key) ≡ true)
        × ((handle_decide wire scan codec m s (posted (decoded req))).0 ≡ decided answer)
        × (get answer.receipt_id
              (handle_decide wire scan codec m s (posted (decoded req))).1.world.store
            ≡ some r)
        × IsReceiptOf r req answer
  unfolding IsExchange
  exchange_audited library c m s req answer http key requests responses
        (exchange, sent, body, there, is_sent, came, reads) =
      let out : Outgoing = record {
        endpoint = c.decision_endpoint;
        api_key = c.api_key;
        body = sent;
      } in
      let reached : exchange ≡ service m s = cc (there, http) in
      let (res, known, is, encoded) =
        service_200 m s out body (ap (λ f. f out) (sym reached) ∙ came) in
      let was_decided : (handle_decide wire scan codec m s (posted (decoded req))).0 ≡ decided res =
        (rw (requests sent is_sent) at is) in
      let same : res ≡ answer =
        ap (λ y. y.0)
          (sym (responses res was_decided) ∙ ap library.unmarshal_response encoded ∙ reads) in
      let sure : (handle_decide wire scan codec m s (posted (decoded req))).0 ≡ decided answer =
        was_decided ∙ ap decided same in
      let (r, stored, receipt) =
        handle_decide_saves wire codec scan m s (posted (decoded req)) req answer
          (decided_go m s req answer key sure) sure in
      (r, known, sure, stored, receipt)

  -- No enforced action without an audited decision. When a gate in the enforced mode, whose client
  -- reaches the service, does something, the client's key is the service's token (or the service has
  -- none), the service decided the gate's request with a permission, and its store then holds, under
  -- the id in the response, a receipt of that decision on the gate's action. The JSON of the request
  -- and of the response is taken to read back.
  pub acts_audited :
      ⦃d : Digest⦄ (library : Library) (c : HttpDecisionClient) (m : Moment) (s : Server) (now : ℕ)
      (g : Gate) (call : Call)
      → g.mode ≡ EnforcementMode.enforced
      → g.client ≡ some (datafog.Shim.Http.decide library c)
      → c.http_client ≡ some (service m s)
      → ((body : String)
          → library.marshal_request (request_of call) ≡ datafog.Shim.Http.ok body
          → json.decode_request body ≡ decoded (request_of call))
      → ((res : DecideResponse)
          → (handle_decide wire scan codec m s (posted (decoded (request_of call)))).0 ≡ decided res
          → library.unmarshal_response (json.encode_response res) ≡ (res, none))
      → acts (perform scan now g call).trace ≡ true
      → (res : DecideResponse) × (r : Receipt) × (authorized token (incoming c.api_key) ≡ true)
        × ((handle_decide wire scan codec m s (posted (decoded (request_of call)))).0 ≡ decided res)
        × (permit_decision res.decision ≡ true)
        × (get res.receipt_id
              (handle_decide wire scan codec m s (posted (decoded (request_of call)))).1.world.store
            ≡ some r)
        × IsReceiptOf r (request_of call) res
  unfolding check
  acts_audited library c m s now g call mode client http requests responses h =
      let (answer, checked, permitted) = enforced_needs_permission scan now g call mode h in
      let (r, known, is, stored, receipt) =
        exchange_audited library c m s (request_of call) answer http (request_of_key call) requests
          responses (decide-IsExchange library c (request_of call) answer (rw client at checked)) in
      (answer, r, known, is, permitted, stored, receipt)
