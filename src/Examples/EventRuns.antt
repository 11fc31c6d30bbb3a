-- ===== src/Examples/EventRuns.antt =====
-- The log of events and its queries, run.
use datafog.Prelude.{String, false, some, List, [], ◌∷◌}
use datafog.Prelude.Int.{pos}
use datafog.Models.{Decision}
use datafog.Shim.Gate.{DecisionEvent, EnforcementMode}
use datafog.Shim.Events.{EventJson}
use datafog.Server.Readings.{Parsers, EventParams}

abbrev git_event : DecisionEvent
git_event = record {
  timestamp = 5;
  mode = EnforcementMode.enforced;
  action_type = "command.exec";
  tool = "git";
  resource = "";
  command = "git";
  args = [];
  sensitive = false;
  decision = Decision.deny;
  allowed = false;
  receipt_id = "r1";
  matched = [];
  reason = "";
  check_error = "";
  request_id = "";
  trace_id = "";
}

abbrev json_events : EventJson
json_events = record { marshal = λ event. some "git"; unmarshal = λ line. some git_event }

abbrev log : List String
log = "git" ∷ "" ∷ "git" ∷ " git" ∷ []

abbrev log_path : String
log_path = "events.ndjson"

abbrev parsers : Parsers
parsers = record { rfc3339 = λ value. some 9; atoi = λ value. some (pos 2) }

-- `?before=...&decision=DENY&adapter=git&limit=2`
abbrev git_denials : EventParams
git_denials = record {
  after = "";
  before = "2026-01-01T00:00:00Z";
  decision = "DENY";
  adapter = "git";
  limit = "2";
}
