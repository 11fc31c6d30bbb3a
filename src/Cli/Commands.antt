-- ===== src/Cli/Commands.antt =====
-- cmd/datafog-shim/main.go: `run` and its commands: those that pass the gate, and `hooks` and `adapters`,
-- which have none. Flags arrive parsed; writing to the standard streams succeeds; the exchange with the
-- service, the runner, the reader and the writer of files are the machine's.
use datafog.Prelude.{
  ℕ, String, Bool, false, Option, none, some, List, [], ◌∷◌, ◌++◌, ◌==◌, eqb, if◌then◌else◌, Dict,
}
use datafog.Strings.{Unicode, Bytes, trim_space, join}
use datafog.Models.{Decision, ScanFinding, DecideResponse}
use datafog.Transform.Replacement.{Digest}
use datafog.Adapters.{Spec, default_adapters, resolve}
use datafog.Shim.Gate.{Gate, GateError, Runner, Reader, Writer, Outcome, Effect, new_gate}
use datafog.Shim.Actions.{execute_shell, execute_command, read_file, write_file}
use datafog.Shim.Http.{
  Outgoing, Answer, Library, HttpDecisionClient, new_http_decision_client, decide,
}
use datafog.Cli.Config.{
  ShimRuntimeConfig, Environment, ConfigError, Configured, ok, err, parse_bool_option,
  resolve_runtime_config, run_config, gate_mode,
}
use datafog.Prelude.Sort.{stable_sort}
use datafog.Strings.Path.{clean}
use datafog.Cli.Script.{ManagedShimMetadata}
use datafog.Cli.Hooks.{
  Node, Faults, Host, HookResult, InstallFlags, UninstallFlags, run_hooks_install,
  run_hooks_uninstall,
}
use datafog.Cli.Listing.{less_string, Listing, run_hooks_list}

pub data CommandError : Type 0 where
  config : ConfigError → CommandError
  no_command unknown_command no_shell_command no_path no_text no_target no_adapter : CommandError
  gate : GateError → CommandError

-- what the commands of `hooks` find: the flags of each, parsed, the host, the system calls that succeed,
-- the files, and the listing of a directory
pub record Shims : Type 0 where
  pub install_flags : List String → InstallFlags
  pub uninstall_flags : List String → UninstallFlags
  pub list_dir : List String → String
  pub host : Host
  pub faults : Faults
  pub files : Dict Node
  pub listing : String → Listing

-- `bytes_of` are the bytes of a Go string and `scan` is `ScanText` without a filter
pub record Machine : Type 0 where
  pub library : Library
  pub exchange : Outgoing → Answer
  pub runner : Runner
  pub reader : Reader
  pub writer : Writer
  pub bytes_of : String → Bytes
  pub scan : Bytes → List ScanFinding
  pub shims : Shims

-- what a command does through the gate, what it prints, the receipt and decision that it reports, and
-- its error
pub record Printed : Type 0 where
  pub trace : List Effect
  pub stdout : Bytes
  pub report : Option (String × Decision)
  pub error : Option CommandError

-- what a command comes to: through the gate; or what `hooks` does to the files, or lists; or the adapters
-- that are listed, if the arguments ask for that
pub data Dispatched : Type 0 where
  by_gate : Printed → Dispatched
  no_hooks_command unknown_hooks_command : Dispatched
  installed : HookResult String × Dict Node → Dispatched
  uninstalled : HookResult Unit × Dict Node → Dispatched
  listed : HookResult (List ManagedShimMetadata) → Dispatched
  adapters_listed : Option (List Spec) → Dispatched

-- `adapters.KnownAdapters`; no two have one canonical name
unfoldable pub known_adapters : List Spec
unfolding stable_sort less_string
known_adapters = stable_sort (λ a b. less_string a.canonical b.canonical) default_adapters

-- `runAdapters`
unfoldable pub run_adapters : List String → Option (List Spec)
unfolding known_adapters
run_adapters [] = none
run_adapters (name ∷ []) = if name == "list" then some known_adapters else none
run_adapters (a ∷ b ∷ rest) = none

abbrev pub fail : CommandError → Printed
fail e = record { trace = []; stdout = []; report = none; error = some e }

pub record RunFlags : Type 0 where
  pub adapter : String
  pub target : String
  pub config : ShimRuntimeConfig
  pub enforce_policy_errors : String
  pub args : List String

abbrev pub report_of : DecideResponse → Option (String × Decision)
report_of r = if r.receipt_id == "" then none else some (r.receipt_id, r.decision)

abbrev pub bytes_or_nil : Option Bytes → Bytes
bytes_or_nil none = []
bytes_or_nil (some bytes) = bytes

-- strings.HasSuffix(string(data), "\n")
unfoldable pub ends_with_newline : Bytes → Bool
ends_with_newline [] = false
ends_with_newline (b ∷ []) = eqb b 10
ends_with_newline (b ∷ c ∷ rest) = ends_with_newline (c ∷ rest)

unfoldable pub with_newline : Bytes → Bytes
unfolding ends_with_newline
with_newline data_ = if ends_with_newline data_ then data_ else data_ ++ (10 ∷ [])

-- what a command makes of the gate's outcome: an error ends it, otherwise it prints and reports
unfoldable pub print_outcome :
    Outcome → Option GateError → Bytes → Option (String × Decision) → Printed
print_outcome o (some e) bytes report = record {
  trace = o.trace;
  stdout = [];
  report = none;
  error = some (gate e);
}
print_outcome o none bytes report = record {
  trace = o.trace;
  stdout = bytes;
  report = report;
  error = none;
}

abbrev pub with_enforce : ShimRuntimeConfig → Bool × Bool → ShimRuntimeConfig
with_enforce flags (enforce, set) = record flags {
  enforce_policy_errors = enforce;
  enforce_policy_errors_set = set;
}

module _ ⦃u : Unicode⦄ ⦃d : Digest⦄ (machine : Machine) (now : ℕ) where
  unfoldable pub client_of : ShimRuntimeConfig → HttpDecisionClient
  client_of cfg = new_http_decision_client cfg.policy_url cfg.api_token machine.exchange

  -- `newGate`
  unfoldable pub gate_of : ShimRuntimeConfig → Gate
  unfolding client_of
  gate_of cfg =
      new_gate (decide machine.library (client_of cfg)) machine.runner machine.reader machine.writer
        (gate_mode cfg) cfg.enforce_policy_errors

  unfoldable pub run_shell : ShimRuntimeConfig → List String → Printed
  unfolding print_outcome
  run_shell cfg [] = fail no_shell_command
  run_shell cfg (command ∷ args) =
      let o = execute_shell now (gate_of cfg) command args [] [] cfg.sensitive in
      print_outcome o o.error (bytes_or_nil o.output) (report_of o.response)

  unfoldable pub run_read_file : ShimRuntimeConfig → List String → Printed
  unfolding print_outcome with_newline
  run_read_file cfg [] = fail no_path
  run_read_file cfg (path ∷ rest) =
      let o = read_file machine.scan now (gate_of cfg) path [] [] cfg.sensitive in
      print_outcome o o.error (with_newline (bytes_or_nil o.output)) (report_of o.response)

  unfoldable pub run_write_file : ShimRuntimeConfig → List String → Printed
  unfolding print_outcome
  run_write_file cfg [] = fail no_text
  run_write_file cfg (path ∷ []) = fail no_text
  run_write_file cfg (path ∷ text ∷ more) =
      let content = machine.bytes_of (join (text ∷ more) " ") in
      let o = write_file machine.scan now (gate_of cfg) path content 384 [] [] cfg.sensitive in
      print_outcome o o.error [] (some (o.response.receipt_id, o.response.decision))

  -- `runCommandAdapter` behind its configuration, with the target and the arguments
  unfoldable pub run_target : ShimRuntimeConfig → RunFlags → String → List String → Printed
  unfolding print_outcome
  run_target cfg flags target args =
      let o =
        execute_command now (gate_of cfg) (resolve flags.adapter target) target args [] []
          cfg.sensitive in
      if target == ""
      then fail no_target
      else if resolve flags.adapter target == ""
      then fail no_adapter
      else print_outcome o o.error (bytes_or_nil o.output) (report_of o.response)

  unfoldable pub run_arguments : ShimRuntimeConfig → RunFlags → List String → Printed
  unfolding run_target
  run_arguments cfg flags [] =
      if trim_space flags.target == ""
      then fail no_target
      else run_target cfg flags (trim_space flags.target) []
  run_arguments cfg flags (first ∷ rest) =
      if trim_space flags.target == ""
      then run_target cfg flags first rest
      else run_target cfg flags (trim_space flags.target) (first ∷ rest)

  unfoldable pub run_configured : RunFlags → Configured ShimRuntimeConfig → Printed
  unfolding run_arguments
  run_configured flags (err e) = fail (config e)
  run_configured flags (ok cfg) = run_arguments cfg flags flags.args

  unfoldable pub run_given :
      Environment → ShimRuntimeConfig → RunFlags → Configured (Bool × Bool) → Printed
  unfolding run_configured
  run_given env cfg flags (err e) = fail (config e)
  run_given env cfg flags (ok given) =
      run_configured flags (resolve_runtime_config (run_config flags.config cfg given) env)

  unfoldable pub run_command_adapter : Environment → ShimRuntimeConfig → RunFlags → Printed
  unfolding run_given
  run_command_adapter env cfg flags =
      run_given env cfg flags (parse_bool_option flags.enforce_policy_errors)

  unfoldable pub run_hooks : Environment → ShimRuntimeConfig → List String → Dispatched
  unfolding run_hooks_install run_hooks_list run_hooks_uninstall
  run_hooks env cfg [] = no_hooks_command
  run_hooks env cfg (command ∷ args) =
      let shims = machine.shims in
      let dir = shims.list_dir args in
      if command == "install"
      then installed
          (run_hooks_install shims.faults env shims.host cfg (shims.install_flags args) shims.files)
      else if command == "list"
      then listed (
          run_hooks_list cfg dir shims.files
            (shims.listing (clean (if dir == "" then cfg.shim_dir else dir))))
      else if command == "uninstall"
      then uninstalled
          (run_hooks_uninstall shims.faults cfg (shims.uninstall_flags args) shims.files)
      else unknown_hooks_command

  -- the commands of `run`; `parse` are the flags of the command run
  unfoldable pub dispatch :
      Environment → (List String → RunFlags) → ShimRuntimeConfig → List String → Dispatched
  unfolding run_shell run_read_file run_write_file run_command_adapter run_hooks run_adapters
  dispatch env parse cfg [] = by_gate (fail no_command)
  dispatch env parse cfg (command ∷ args) =
      if command == "shell"
      then by_gate (run_shell cfg args)
      else if command == "read-file"
      then by_gate (run_read_file cfg args)
      else if command == "write-file"
      then by_gate (run_write_file cfg args)
      else if command == "run"
      then by_gate (run_command_adapter env cfg (parse args))
      else if command == "hooks"
      then run_hooks env cfg args
      else if command == "adapters"
      then adapters_listed (run_adapters args)
      else by_gate (fail unknown_command)

  unfoldable pub dispatch_configured :
      Environment
      → (List String → RunFlags)
      → Configured ShimRuntimeConfig
      → List String
      → Dispatched
  unfolding dispatch
  dispatch_configured env parse (err e) args = by_gate (fail (config e))
  dispatch_configured env parse (ok cfg) args = dispatch env parse cfg args

  unfoldable pub run_flags :
      Environment
      → (List String → RunFlags)
      → ShimRuntimeConfig
      → Configured (Bool × Bool)
      → List String
      → Dispatched
  unfolding dispatch_configured
  run_flags env parse flags (err e) args = by_gate (fail (config e))
  run_flags env parse flags (ok given) args =
      dispatch_configured env parse (resolve_runtime_config (with_enforce flags given) env) args

  -- `run`: the flags in front of the command, with the text of --enforce-policy-errors
  unfoldable pub run :
      Environment → (List String → RunFlags) → ShimRuntimeConfig → String → List String → Dispatched
  unfolding run_flags
  run env parse flags enforce args = run_flags env parse flags (parse_bool_option enforce) args
