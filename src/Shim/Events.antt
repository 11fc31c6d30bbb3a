-- ===== src/Shim/Events.antt =====
-- internal/shim/events.go: the log of decision events, and its queries. The file is the list of its
-- lines; JSON is the parameter `EventJson`.

use Prim.Native.String.{len}
use datafog.Prelude.{
  ℕ, suc, ◌*◌, String, Bool, true, false, not, ◌&&◌, Option, none, some, List, [], ◌∷◌, ◌++◌, ◌==◌,
  ltb, leb, if◌then◌else◌,
}
use datafog.Prelude.Int.{ℤ, pos, ltb_ℤ}
use datafog.Strings.{Unicode, trim_space, equal_fold}
use datafog.Models.{Decision}
use datafog.Shim.Gate.{DecisionEvent}

pub record EventJson : Type 0 where
  pub marshal : DecisionEvent → Option String
  pub unmarshal : String → Option DecisionEvent

-- the text of a decision
abbrev pub decision_text : Decision → String
decision_text Decision.allow = "allow"
decision_text Decision.deny = "deny"
decision_text Decision.transform = "transform"
decision_text Decision.allow_with_redaction = "allow_with_redaction"
decision_text (Decision.other s) = s

pub record EventQuery : Type 0 where
  pub after : Option ℕ
  pub before : Option ℕ
  pub decision : String
  pub adapter : String
  pub limit : ℤ

-- the file at the path of the sink
pub data LogFile : Type 0 where
  missing unreadable : LogFile
  lines : List String → LogFile

-- whether the directory can be made and the file be opened and written
pub record LogDisk : Type 0 where
  pub makes_dir : Bool
  pub opens : Bool
  pub writes : Bool

abbrev append_event_line : String → LogFile → LogFile
append_event_line line missing = lines (line ∷ [])
append_event_line line unreadable = unreadable
append_event_line line (lines ls) = lines (ls ++ (line ∷ []))

abbrev pub append_payload : LogDisk → Option String → LogFile → LogFile
append_payload disk none file = file
append_payload disk (some line) file =
    if disk.opens && disk.writes then append_event_line line file else file

-- a failure is not told to the caller
unfoldable pub record_event : EventJson → LogDisk → String → DecisionEvent → LogFile → LogFile
record_event json disk path event file =
    if path == ""
    then file
    else if not disk.makes_dir
    then file
    else append_payload disk (json.marshal event) file

pub data QueryError : Type 0 where
  open_failed line_too_long : QueryError

abbrev pub is_before : Option ℕ → ℕ → Bool
is_before none t = false
is_before (some bound) t = ltb t bound

abbrev pub is_after : Option ℕ → ℕ → Bool
is_after none t = false
is_after (some bound) t = ltb bound t

-- the buffer of the scanner
abbrev pub max_event_line : ℕ
max_event_line = 1024 * 1024

module _ ⦃u : Unicode⦄ (json : EventJson) where
  -- the filters of the loop
  unfoldable pub passes : EventQuery → DecisionEvent → Bool
  passes q event =
      if is_before q.after event.timestamp
      then false
      else if is_after q.before event.timestamp
      then false
      else if not (q.decision == "") && not (equal_fold (decision_text event.decision) q.decision)
      then false
      else if not (q.adapter == "") && not (equal_fold event.tool q.adapter)
      then false
      else true

  abbrev pub filtered : EventQuery → Option DecisionEvent → Option DecisionEvent
  filtered q none = none
  filtered q (some event) = if passes q event then some event else none

  -- the event of a line, if the query asks for it
  unfoldable pub accept : EventQuery → String → Option DecisionEvent
  unfolding passes
  accept q line =
      if trim_space line == "" then none else filtered q (json.unmarshal (trim_space line))

  abbrev pub is_full : EventQuery → ℕ → Bool
  is_full q found = ltb_ℤ (pos 0) q.limit && not (ltb_ℤ (pos found) q.limit)

  abbrev pub add_event :
      EventQuery
      → ℕ
      → Option DecisionEvent
      → (ℕ → List DecisionEvent × Option QueryError)
      → List DecisionEvent × Option QueryError
  add_event q found none later = later found
  add_event q found (some event) later =
      let rest = later (suc found) in
      if is_full q (suc found) then (event ∷ [], none) else (event ∷ rest.0, rest.1)

  -- the loop, with the number of events found so far
  unfoldable pub query_lines : EventQuery → List String → ℕ → List DecisionEvent × Option QueryError
  unfolding accept
  query_lines q [] found = ([], none)
  query_lines q (line ∷ rest) found =
      let later : ℕ → List DecisionEvent × Option QueryError = λ n. query_lines q rest n in
      if leb max_event_line (len line)
      then ([], some line_too_long)
      else add_event q found (accept q line) later

  -- `Query`
  unfoldable pub query : String → LogFile → EventQuery → List DecisionEvent × Option QueryError
  unfolding query_lines
  query path missing q = ([], none)
  query path unreadable q = if path == "" then ([], none) else ([], some open_failed)
  query path (lines ls) q = if path == "" then ([], none) else query_lines q ls 0
