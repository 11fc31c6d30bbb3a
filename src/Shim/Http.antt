-- ===== src/Shim/Http.antt =====
-- internal/shim/http.go: the client that asks the policy service over HTTP. encoding/json and net/http
-- are the parameter `Library`; a body is the text that it is read as.
use datafog.Prelude.{
  ℕ, String, true, not, ◌≡◌, refl, ap, Option, none, some, ◌==◌, eqb, arith, if◌then◌else◌,
  Bool-cases, Option-cases, inl, inr,
}
use datafog.Strings.{trim_space}
use datafog.Strings.Append.{◌<>◌}
use datafog.Strings.Suffix.{
  has_suffix, trim_right_rune, decimal, has_suffix-append, has_suffix_extended,
}
use datafog.Models.{DecideRequest, DecideResponse}
use datafog.Shim.Gate.{Client, no_response}

pub record ApiError : Type 0 where
  pub status_code : ℕ
  pub code : String
  pub message : String
  pub details : String

-- the request that goes out: a POST of JSON, with the key in `X-API-Key` unless it is empty
pub record Outgoing : Type 0 where
  pub endpoint : String
  pub api_key : String
  pub body : String

-- what `Do` and `io.ReadAll` give: no answer, an answer whose body breaks off, or all of it
pub data Answer : Type 0 where
  unreached : String → Answer
  unread : String → Answer
  answered : ℕ → String → Answer

-- what an error is to `json.Marshal`, `http.NewRequestWithContext` and `json.Unmarshal`
pub data Result (A : Type 0) : Type 0 where
  ok : A → Result A
  err : String → Result A

-- `unmarshal_response` also tells what the decoder has filled in when it fails; `unmarshal_error`
-- gives the error's code, message and details.
pub record Library : Type 0 where
  pub marshal_request : DecideRequest → Result String
  pub new_request : String → Option String
  pub unmarshal_response : String → DecideResponse × Option String
  pub unmarshal_error : String → Option (String × String × String)

-- `HTTPClient` is the exchange itself, if there is one
pub record HttpDecisionClient : Type 0 where
  pub decision_endpoint : String
  pub api_key : String
  pub http_client : Option (Outgoing → Answer)

unfoldable pub api_error_text : ApiError → String
api_error_text e =
    "datafog policy API error: status="
    <> (decimal e.status_code <> (" code=" <> (e.code <> (" message=" <> e.message))))

abbrev pub or_default : String → String
or_default base_url = if base_url == "" then "http://localhost:8080" else base_url

abbrev pub with_path : String → String
with_path base_url =
    if has_suffix base_url "/v1/decide"
    then base_url
    else if has_suffix base_url "/v1"
    then base_url <> "/decide"
    else trim_right_rune 47 base_url <> "/v1/decide"

unfoldable pub build_decide_endpoint : String → String
build_decide_endpoint base_url = with_path (or_default (trim_space base_url))

unfoldable pub new_http_decision_client : String → String → (Outgoing → Answer) → HttpDecisionClient
new_http_decision_client base_url api_key exchange = record {
  decision_endpoint = build_decide_endpoint base_url;
  api_key = trim_space api_key;
  http_client = some exchange;
}

module _ (library : Library) where
  -- the error of an answer whose status is not 200
  unfoldable pub api_error : ℕ → String → ApiError
  api_error status body = elim (library.unmarshal_error body) [
    | some (code, message, details) ↦ record {
      status_code = status;
      code = code;
      message = message;
      details = details;
    }
    | none ↦ record {
      status_code = status;
      code = "";
      message = if trim_space body == "" then "policy service error" else trim_space body;
      details = "";
    }
  ]

  unfoldable pub decoded_answer : DecideResponse × Option String → DecideResponse × Option String
  decoded_answer (out, none) = (out, none)
  decoded_answer (out, some e) = (out, some ("unmarshal decide response: " <> e))

  unfoldable pub read_answer : Answer → DecideResponse × Option String
  unfolding decoded_answer
  read_answer (unreached e) = (no_response, some ("call decide API: " <> e))
  read_answer (unread e) = (no_response, some ("read decide response: " <> e))
  read_answer (answered status body) =
      if not (eqb status 200)
      then (no_response, some (api_error_text (api_error status body)))
      else decoded_answer (library.unmarshal_response body)

  -- behind `json.Marshal` and `http.NewRequestWithContext`
  unfoldable pub send :
      HttpDecisionClient
      → (Outgoing → Answer)
      → Result String
      → Option String
      → DecideResponse × Option String
  unfolding read_answer
  send c exchange (err e) bad = (no_response, some ("marshal decide request: " <> e))
  send c exchange (ok body) (some e) = (no_response, some ("create decide request: " <> e))
  send c exchange (ok body) none =
      read_answer
        (exchange record { endpoint = c.decision_endpoint; api_key = c.api_key; body = body })

  -- `Decide`
  unfoldable pub decide : HttpDecisionClient → Client
  unfolding send
  decide c req = elim (c.http_client) [
    | none ↦ (no_response, some "http client is not configured")
    | some exchange ↦
        if trim_space c.decision_endpoint == ""
        then (no_response, some "decision endpoint is required")
        else send c exchange (library.marshal_request req) (library.new_request c.decision_endpoint)
  ]

  -- an exchange that ended well: what was sent, and the body that came back with the status 200
  unfoldable pub IsExchange : HttpDecisionClient → DecideRequest → DecideResponse → Type 0
  IsExchange c req r =
      (exchange : Outgoing → Answer) × (sent body : String) × (c.http_client ≡ some exchange)
      × (library.marshal_request req ≡ ok sent)
      × (exchange record { endpoint = c.decision_endpoint; api_key = c.api_key; body = sent }
          ≡ answered 200 body)
      × (library.unmarshal_response body ≡ (r, none))

  decoded_answer-none :
      (x : DecideResponse × Option String) (r : DecideResponse)
      → decoded_answer x ≡ (r, none)
      → x ≡ (r, none)
  unfolding decoded_answer
  decoded_answer-none (out, none) r h = h
  decoded_answer-none (out, some e) r h = cc (ap (λ y. y.1) h)

  read_answer-none :
      (a : Answer) (r : DecideResponse)
      → read_answer a ≡ (r, none)
      → (body : String) × (a ≡ answered 200 body) × (library.unmarshal_response body ≡ (r, none))
  unfolding read_answer
  read_answer-none (unreached e) r h = cc (ap (λ y. y.1) h)
  read_answer-none (unread e) r h = cc (ap (λ y. y.1) h)
  read_answer-none (answered status body) r h = elim (Bool-cases (eqb status 200)) [
    | inl e ↦
        (body, ap (λ n. answered n body) (ground (arith, e)), decoded_answer-none _ r (rw e at h))
    | inr e ↦ cc (ap (λ y. y.1) (rw e at h))
  ]

  send-none :
      (c : HttpDecisionClient) (exchange : Outgoing → Answer) (body : Result String)
      (bad : Option String) (r : DecideResponse)
      → send c exchange body bad ≡ (r, none)
      → (sent answer : String) × (body ≡ ok sent)
        × (exchange record { endpoint = c.decision_endpoint; api_key = c.api_key; body = sent }
            ≡ answered 200 answer)
        × (library.unmarshal_response answer ≡ (r, none))
  unfolding send
  send-none c exchange (err e) bad r h = cc (ap (λ y. y.1) h)
  send-none c exchange (ok body) (some e) r h = cc (ap (λ y. y.1) h)
  send-none c exchange (ok body) none r h =
      let (answer, a, d) = read_answer-none _ r h in (body, answer, refl, a, d)

  -- The client answers without an error only if it reached the service, which answered 200 with a body
  -- that decodes to the answer.
  pub decide-IsExchange :
      (c : HttpDecisionClient) (req : DecideRequest) (r : DecideResponse)
      → decide c req ≡ (r, none)
      → IsExchange c req r
  unfolding decide IsExchange
  decide-IsExchange c req r h = elim (Option-cases (c.http_client)) [
    | inl none_there ↦ cc (ap (λ y. y.1) (rw none_there at h))
    | inr (exchange, there) ↦ elim (Bool-cases (trim_space c.decision_endpoint == "")) [
      | inl e ↦ cc (ap (λ y. y.1) (rw (there, e) at h))
      | inr e ↦
          let (sent, body, s, a, d) = send-none c exchange _ _ r (rw (there, e) at h) in
          (exchange, sent, body, there, s, a, d)
    ]
  ]

with_path-has_suffix : (base_url : String) → has_suffix (with_path base_url) "/v1/decide" ≡ true
with_path-has_suffix base_url = elim (Bool-cases (has_suffix base_url "/v1/decide")) [
  | inl e ↦ rw e e
  | inr e ↦ elim (Bool-cases (has_suffix base_url "/v1")) [
    | inl v ↦ rw (e, v) (has_suffix_extended base_url "/v1" "/decide" v)
    | inr v ↦ rw (e, v) (has_suffix-append (trim_right_rune 47 base_url) "/v1/decide")
  ]
]

-- Every endpoint ends with the path of the decisions.
pub build_decide_endpoint-has_suffix :
    (base_url : String) → has_suffix (build_decide_endpoint base_url) "/v1/decide" ≡ true
unfolding build_decide_endpoint
build_decide_endpoint-has_suffix base_url = with_path-has_suffix (or_default (trim_space base_url))
