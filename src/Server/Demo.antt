-- ===== src/Server/Demo.antt =====
-- internal/server/demo.go: the demo endpoints, on a system that is not Windows. A body arrives decoded, or
-- as none when it does not decode; `bytes_of` are the bytes of a Go string and `scan` is `ScanText`
-- without a filter. The times that the answers hold, and the limit of ten seconds, are left out.
use datafog.Prelude.{
  ℕ, String, Bool, true, false, not, ◌||◌, Option, none, some, List, [], ◌∷◌, ◌++◌, ◌==◌, is_empty,
  if◌then◌else◌,
}
use datafog.Strings.{Unicode, Bytes, join}
use datafog.Strings.Append.{◌<>◌}
use datafog.Strings.Path.{base, join_path}
use datafog.Models.{ScanFinding, DecideResponse}
use datafog.Transform.Replacement.{Digest}
use datafog.Shim.Gate.{Gate, GateError, Outcome, Effect, read, wrote, Reader, Writer}
use datafog.Shim.Actions.{execute_shell, read_file, write_file}

pub record DemoHandler : Type 0 where
  pub gate : Gate
  pub sandbox_dir : String
  pub demo_html : Bytes

pub record DemoExecRequest : Type 0 where
  pub command : String
  pub args : List String
  pub stdin : String

pub record DemoWriteRequest : Type 0 where
  pub filename : String
  pub content : String

-- the filename of `demoReadRequest` is its only field
abbrev pub DemoReadRequest : Type 0
DemoReadRequest = String

pub record DemoExecResponse : Type 0 where
  pub decision : DecideResponse
  pub stdout : Bytes
  pub error : Option GateError
  pub blocked : Bool
  pub findings : List ScanFinding

pub record DemoWriteResponse : Type 0 where
  pub decision : DecideResponse
  pub written : Bool
  pub path : String
  pub content : Bytes
  pub error : Option GateError
  pub blocked : Bool
  pub findings : List ScanFinding

pub record DemoReadResponse : Type 0 where
  pub decision : DecideResponse
  pub content : Bytes
  pub error : Option GateError
  pub blocked : Bool
  pub findings : List ScanFinding

pub data DemoReply (A : Type 0) : Type 0 where
  failed : ℕ → String → DemoReply A
  sent : A → DemoReply A

-- an answer, and what the call did
pub record Handled (A : Type 0) : Type 0 where
  pub answer : DemoReply A
  pub trace : List Effect

abbrev pub give_up : {A : Type 0} → ℕ → String → Handled A
give_up status code = record { answer = failed status code; trace = [] }

abbrev pub bytes_or_nil : Option Bytes → Bytes
bytes_or_nil none = []
bytes_or_nil (some bytes) = bytes

abbrev pub is_error : Option GateError → Bool
is_error none = false
is_error (some e) = true

-- `filepath.Join(d.sandboxDir, filepath.Base(filename))`
unfoldable pub full_path : DemoHandler → String → String
full_path h filename = join_path h.sandbox_dir (base filename)

-- what the scan is of
unfoldable pub text_to_scan : DemoExecRequest → String
text_to_scan req = if req.stdin == "" then req.command <> (" " <> join req.args " ") else req.stdin

-- `NewDemoHandler`: the sandbox that `os.MkdirTemp` made, and the reading of the page, if it has a path
unfoldable pub new_demo_handler :
    Gate → Option String → String → (String → Option Bytes) → Option DemoHandler
new_demo_handler gate none path read_page = none
new_demo_handler gate (some dir) path read_page =
    if path == ""
    then some record { gate = gate; sandbox_dir = dir; demo_html = [] }
    else elim (read_page path) [
      | none ↦ none
      | some page ↦ some record { gate = gate; sandbox_dir = dir; demo_html = page }
    ]

module _ ⦃u : Unicode⦄ ⦃d : Digest⦄ (scan : Bytes → List ScanFinding) (bytes_of : String → Bytes)
    (now : ℕ) (h : DemoHandler) where
  unfoldable pub exec_response : Outcome → List ScanFinding → DemoExecResponse
  exec_response o findings = record {
    decision = o.response;
    stdout = if is_error o.error then [] else bytes_or_nil o.output;
    error = o.error;
    blocked = is_error o.error;
    findings = findings;
  }

  unfoldable pub exec_request : Option DemoExecRequest → Handled DemoExecResponse
  unfolding exec_response text_to_scan
  exec_request none = give_up 400 "invalid_request"
  exec_request (some req) =
      let text = bytes_of (text_to_scan req) in
      let findings = scan text in
      let o =
        execute_shell now h.gate req.command req.args text findings (not (is_empty findings)) in
      if req.command == ""
      then give_up 400 "invalid_request"
      else record { answer = sent (exec_response o findings); trace = o.trace }

  unfoldable pub handle_exec : String → Option DemoExecRequest → Handled DemoExecResponse
  unfolding exec_request
  handle_exec method body =
      if not (method == "POST") then give_up 405 "method_not_allowed" else exec_request body

  -- `read_back` is `os.ReadFile` after the write
  unfoldable pub write_response : Reader → String → Outcome → List ScanFinding → DemoWriteResponse
  write_response read_back filename o findings = record {
    decision = o.response;
    written = not (is_error o.error);
    path = base filename;
    content = if is_error o.error then [] else elim ((read_back (full_path h filename)).1) [
      | none ↦ bytes_or_nil (read_back (full_path h filename)).0
      | some e ↦ []
    ];
    error = o.error;
    blocked = is_error o.error;
    findings = findings;
  }

  unfoldable pub write_request : Reader → Option DemoWriteRequest → Handled DemoWriteResponse
  unfolding write_response full_path
  write_request read_back none = give_up 400 "invalid_request"
  write_request read_back (some req) =
      let content = bytes_of req.content in
      let findings = scan content in
      let o =
        write_file scan now h.gate (full_path h req.filename) content 384 content findings
          (not (is_empty findings)) in
      if req.filename == "" then give_up 400 "invalid_request" else record {
        answer = sent (write_response read_back req.filename o findings);
        trace = o.trace ++ (if is_error o.error then [] else read (full_path h req.filename) ∷ []);
      }

  unfoldable pub handle_write_file :
      Reader → String → Option DemoWriteRequest → Handled DemoWriteResponse
  unfolding write_request
  handle_write_file read_back method body =
      if not (method == "POST")
      then give_up 405 "method_not_allowed"
      else write_request read_back body

  unfoldable pub read_response : Outcome → DemoReadResponse
  read_response o = record {
    decision = o.response;
    content = if is_error o.error then [] else bytes_or_nil o.output;
    error = o.error;
    blocked = is_error o.error;
    findings = if is_error o.error then [] else scan (bytes_or_nil o.output);
  }

  unfoldable pub read_request : Option DemoReadRequest → Handled DemoReadResponse
  unfolding read_response full_path
  read_request none = give_up 400 "invalid_request"
  read_request (some filename) =
      let o = read_file scan now h.gate (full_path h filename) [] [] false in
      if filename == ""
      then give_up 400 "invalid_request"
      else record { answer = sent (read_response o); trace = o.trace }

  unfoldable pub handle_read_file : String → Option DemoReadRequest → Handled DemoReadResponse
  unfolding read_request
  handle_read_file method body =
      if not (method == "POST") then give_up 405 "method_not_allowed" else read_request body

  unfoldable pub seeded : String → Bytes → Option String → Handled String
  unfolding full_path
  seeded filename content (some e) = record {
    answer = failed 500 "seed_error";
    trace = wrote (full_path h filename) content 384 ∷ [];
  }
  seeded filename content none = record {
    answer = sent (base filename);
    trace = wrote (full_path h filename) content 384 ∷ [];
  }

  unfoldable pub seed_request : Writer → Option DemoWriteRequest → Handled String
  unfolding seeded
  seed_request write none = give_up 400 "invalid_request"
  seed_request write (some req) =
      if req.filename == "" || req.content == ""
      then give_up 400 "invalid_request"
      else seeded req.filename (bytes_of req.content)
          (write (full_path h req.filename) (bytes_of req.content) 384)

  -- `write` is `os.WriteFile`: the seed does not ask the gate
  unfoldable pub handle_seed : Writer → String → Option DemoWriteRequest → Handled String
  unfolding seed_request
  handle_seed write method body =
      if not (method == "POST") then give_up 405 "method_not_allowed" else seed_request write body

  abbrev pub file_names : List (String × Bool) → List String
  file_names [] = []
  file_names ((name, is_dir) ∷ entries) =
      let rest = file_names entries in if is_dir then rest else name ∷ rest

  -- `entries` is what `os.ReadDir` gives: the names, and whether each is a directory
  unfoldable pub handle_sandbox_info :
      List (String × Bool) → String → DemoReply (String × List String)
  handle_sandbox_info entries method =
      if not (method == "GET")
      then failed 405 "method_not_allowed"
      else sent (h.sandbox_dir, file_names entries)
