-- ===== src/Examples/CommandRuns.antt =====
-- cmd/datafog-shim/main.go, the commands that pass the gate, run.
use datafog.Prelude.{String, true, false, ◌≡◌, ◌⊎◌, refl, none, some, List, [], ◌∷◌}
use datafog.Strings.{ascii_tables, trim_space}
use datafog.Models.{Decision, DecideResponse}
use datafog.Shim.Gate.{EnforcementMode, no_response, permit_decision}
use datafog.Shim.Calls.{Call, request_of, perform, acts}
use datafog.Shim.Http.{Library, ok, answered, IsExchange}
use datafog.Cli.Config
use datafog.Cli.Config.{
  ShimRuntimeConfig, Environment, gate_mode, parse_bool_option, resolve_runtime_config,
}
use datafog.Cli.Precedence.{no_flags}
use datafog.Cli.Commands.{
  Printed, by_gate, Shims, run_read_file, Machine, RunFlags, client_of, gate_of, with_enforce, run,
}
use datafog.Cli.Traces.{is_ungated, IsUsed}
use datafog.Cli.Hooks.{Written}
use datafog.Cli.Listing.{Listing}
use datafog.Cli.Gated.{run_needs_permission}
use datafog.Examples.{zero_digest, sample_text}

abbrev environment : Environment
environment = record {
  policy_url = "";
  api_token = "";
  mode = "";
  event_sink = "";
  shim_dir = "";
  enforce_policy_errors = "";
  default_dir = "/tmp/datafog-shims";
}

abbrev resolved : ShimRuntimeConfig
resolved = record {
  policy_url = "http://localhost:8080";
  api_token = "";
  mode = "enforced";
  event_sink = "";
  shim_dir = "/tmp/datafog-shims";
  sensitive = false;
  enforce_policy_errors = false;
  enforce_policy_errors_set = false;
}

abbrev permission : DecideResponse
permission = record no_response { decision = Decision.allow; receipt_id = "r1" }

-- a system without shims
abbrev shims : Shims
shims = record {
  install_flags = λ args. record {
    adapter = "";
    target = "";
    force = false;
    mode = "";
    policy_url = "";
    event_sink = "";
    enforce_policy_errors = "";
    shim_dir = "";
    args = args;
  };
  uninstall_flags = λ args. record { shim_dir = ""; force = false; args = args };
  list_dir = λ args. "";
  host = record {
    abs = λ path. some path;
    stat = λ path. none;
    look_path = λ name. none;
    executable = none;
  };
  faults = record { mkdirs = true; write = Written.whole; removes = true };
  files = [];
  listing = λ dir. Listing.entries [];
}

abbrev pub machine : Machine
machine = record {
  library = record {
    marshal_request = λ req. ok "{}";
    new_request = λ endpoint. none;
    unmarshal_response = λ body. (permission, none);
    unmarshal_error = λ body. none;
  };
  exchange = λ out. answered 200 "{}";
  runner = λ command args. (none, none);
  reader = λ path. (some sample_text, none);
  writer = λ path bytes perm. none;
  bytes_of = λ text. [];
  scan = λ bytes. [];
  shims = shims;
}

abbrev parse : List String → RunFlags
parse args = record {
  adapter = "";
  target = "";
  config = no_flags;
  enforce_policy_errors = "";
  args = args;
}

is_resolved :
    resolve_runtime_config ⦃u = ascii_tables⦄ (with_enforce no_flags (false, false)) environment
    ≡ datafog.Cli.Config.ok resolved
unfolding resolve_runtime_config datafog.Cli.Config.resolve_enforce trim_space
    datafog.Cli.Config.parse_mode datafog.Strings.to_lower datafog.Cli.Config.coalesce
    datafog.Cli.Config.default_shim_dir
is_resolved = refl

gated : is_ungated ("read-file" ∷ "notes.txt" ∷ []) ≡ false
unfolding is_ungated
gated = refl

-- the command reads its file
reads :
    (p : Printed) × (run ⦃u = ascii_tables⦄ ⦃d = zero_digest⦄ machine 5 environment parse no_flags
        ""
        ("read-file" ∷ "notes.txt" ∷ [])
      ≡ by_gate p)
    × (acts p.trace ≡ true)
unfolding run parse_bool_option trim_space acts datafog.Cli.Commands.dispatch_configured
    datafog.Cli.Commands.gate_of datafog.Shim.Actions.read_file datafog.Shim.Gate.execute_request
    datafog.Shim.Gate.check datafog.Shim.Gate.should_allow datafog.Shim.Calls.is_action
    datafog.Shim.Http.decide datafog.Shim.Gate.new_gate datafog.Shim.Http.new_http_decision_client
    datafog.Shim.Http.build_decide_endpoint datafog.Strings.Suffix.has_suffix
    datafog.Strings.Suffix.trim_right_rune datafog.Cli.Config.parse_mode datafog.Strings.to_lower
    datafog.Cli.Config.gate_mode datafog.Cli.Commands.print_outcome
    datafog.Cli.Commands.with_newline
reads = (
  run_read_file ⦃u = ascii_tables⦄ ⦃d = zero_digest⦄ machine 5 resolved ("notes.txt" ∷ []),
  rw is_resolved refl,
  refl,
)

run_example :
    (p : Printed) × (run ⦃u = ascii_tables⦄ ⦃d = zero_digest⦄ machine 5 environment parse no_flags
        ""
        ("read-file" ∷ "notes.txt" ∷ [])
      ≡ by_gate p)
    × ((acts p.trace ≡ false)
        ⊎ ((cfg : ShimRuntimeConfig) × (call : Call) × (p.trace
              ≡ (perform ⦃u = ascii_tables⦄ ⦃d = zero_digest⦄ machine.scan 5
                  (gate_of ⦃u = ascii_tables⦄ ⦃d = zero_digest⦄ machine 5 cfg)
                  call).trace)
            × IsUsed ⦃u = ascii_tables⦄ environment parse no_flags ""
                ("read-file" ∷ "notes.txt" ∷ [])
                cfg
            × ((gate_mode ⦃u = ascii_tables⦄ cfg ≡ EnforcementMode.observe)
                ⊎ ((r : DecideResponse) × IsExchange machine.library
                      (client_of ⦃u = ascii_tables⦄ ⦃d = zero_digest⦄ machine 5 cfg)
                      (request_of call)
                      r
                    × (permit_decision r.decision ≡ true)))))
run_example =
    run_needs_permission ⦃u = ascii_tables⦄ ⦃d = zero_digest⦄ machine 5 environment parse no_flags
      "" ("read-file" ∷ "notes.txt" ∷ []) gated
