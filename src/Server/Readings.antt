-- ===== src/Server/Readings.antt =====
-- internal/server/server.go: the handlers that only read: handleEvents, handleReceipt, handleHealth and
-- handlePolicyVersion. `time.Parse` and `strconv.Atoi` are the parameter `Parsers`, and a reader of
-- events is what a query returns.
use Prim.Native.Char.{code}
use datafog.Prelude.{
  ℕ, String, Bool, false, not, ◌&&◌, ◌||◌, Option, none, some, List, [], ◌==◌, eqb, length,
  if◌then◌else◌,
}
use datafog.Prelude.Int.{ℤ, pos, ltb_ℤ}
use datafog.Strings.{Unicode, to_lower, trim_space, has_prefix}
use datafog.Models.{Receipt, Policy}
use datafog.Adapters.{canonical}
use datafog.Receipts.{ReceiptStore, get}
use datafog.Shim.Gate.{DecisionEvent}
use datafog.Shim.Events.{EventQuery, QueryError}
use datafog.Server.Cached.{Reply, failed, sent}

pub record Parsers : Type 0 where
  pub rfc3339 : String → Option ℕ
  pub atoi : String → Option ℤ

-- the parameters of the URL
pub record EventParams : Type 0 where
  pub after : String
  pub before : String
  pub decision : String
  pub adapter : String
  pub limit : String

abbrev parsed_time : Parsers → String → Option ℕ
parsed_time parsers value = if value == "" then none else parsers.rfc3339 value

abbrev pub limit_within : Option ℤ → ℤ
limit_within none = pos 100
limit_within (some n) = if ltb_ℤ (pos 0) n && not (ltb_ℤ (pos 1000) n) then n else pos 100

abbrev name_or : String → Option String → String
name_or other none = other
name_or other (some name) = name

abbrev pub send_events : List DecisionEvent × Option QueryError → Reply (List DecisionEvent × ℕ)
send_events (events, none) = sent (events, length events)
send_events (events, some e) = failed 500 "events_read_error"

module _ ⦃u : Unicode⦄ (parsers : Parsers) where
  unfoldable pub event_query : EventParams → EventQuery
  event_query p = record {
    after = parsed_time parsers p.after;
    before = parsed_time parsers p.before;
    decision = p.decision;
    adapter =
        let adapter = trim_space p.adapter in
        if adapter == "" then "" else name_or (to_lower adapter) (canonical (to_lower adapter));
    limit = if p.limit == "" then pos 100 else limit_within (parsers.atoi p.limit);
  }

  abbrev pub ask :
      Option (EventQuery → List DecisionEvent × Option QueryError)
      → EventParams
      → Reply (List DecisionEvent × ℕ)
  ask none p = sent ([], 0)
  ask (some reader) p = send_events (reader (event_query p))

  -- the events and their number
  unfoldable pub handle_events :
      Option (EventQuery → List DecisionEvent × Option QueryError)
      → String
      → EventParams
      → Reply (List DecisionEvent × ℕ)
  unfolding event_query
  handle_events reader method p =
      if not (method == "GET") then failed 405 "method_not_allowed" else ask reader p

-- strings.TrimPrefix
unfoldable pub trim_prefix : String → String → String
trim_prefix String.[] s = s
trim_prefix (String.◌∷◌ d p) String.[] = String.[]
trim_prefix (String.◌∷◌ d p) (String.◌∷◌ c s) = trim_prefix p s

abbrev has_slash : String → Bool
has_slash String.[] = false
has_slash (String.◌∷◌ c s) = eqb (code c) 47 || has_slash s

abbrev found_receipt : Option Receipt → Reply Receipt
found_receipt none = failed 404 "not_found"
found_receipt (some r) = sent r

unfoldable pub receipt_id_of : String → String
unfolding trim_prefix has_prefix
receipt_id_of path =
    if has_prefix path "/v1/receipts/" then trim_prefix "/v1/receipts/" path else path

unfoldable pub handle_receipt : ReceiptStore → String → String → Reply Receipt
unfolding receipt_id_of
handle_receipt store method path =
    let id = receipt_id_of path in
    if not (method == "GET")
    then failed 405 "method_not_allowed"
    else if id == "" || has_slash id
    then failed 404 "not_found"
    else found_receipt (get id store)

-- the status, the policy and the start, as a time that is already written out
unfoldable pub handle_health :
    Policy → String → String → Reply (String × (String × (String × String)))
handle_health policy started_at method =
    if not (method == "GET")
    then failed 405 "method_not_allowed"
    else sent ("ok", (policy.policy_id, (policy.policy_version, started_at)))

unfoldable pub handle_policy_version : Policy → String → Reply (String × String)
handle_policy_version policy method =
    if not (method == "GET")
    then failed 405 "method_not_allowed"
    else sent (policy.policy_id, policy.policy_version)
