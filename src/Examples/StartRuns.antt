-- ===== src/Examples/StartRuns.antt =====
-- cmd/datafog-api/main.go, run.
use datafog.Prelude.{String, true, false, ◌≡◌, refl, Option, none, some, List, []}
use datafog.Strings.{ascii_tables, trim_space}
use datafog.Models.{Policy}
use datafog.Policy.Valid.{IsValidPolicy}
use datafog.Policy.Evaluate.{normalize_for_evaluation}
use datafog.Policy.Load.{loaded, load_policy_from_file}
use datafog.Receipts.{World, ok, new_receipt_store}
use datafog.Receipts.Recovery.{working}
use datafog.Api.{Process, settings}
use datafog.Api.Start.{Surroundings, Service, started, start, started_server}
use datafog.Examples.{sample_policy, sample_world}
use datafog.Examples.ServerRuns.{json, any_codec}
use datafog.Examples.CommandRuns.{machine}

abbrev process : Process
process = record {
  variable = λ key. "";
  args = [];
  atoi = λ text. none;
  parse_duration = λ text. none;
}

abbrev around : Surroundings
around = record {
  read_file = λ path. some "{}";
  decode_policy = λ text. some sample_policy;
  codec = any_codec;
  disk = working;
  files = sample_world.files;
  library = machine.library;
  exchange = machine.exchange;
  runner = machine.runner;
  reader = machine.reader;
  writer = machine.writer;
  sandbox = none;
  read_page = λ path. none;
}

abbrev opened : World
opened = record {
  store = record {
    file_path = "datafog_receipts.jsonl";
    receipts = [];
    max_entries = 0;
    entry_count = 0;
  };
  files = record { current = some []; fragment = ""; archives = [] };
}

abbrev service : Service
service = record {
  server = record {
    policy = normalize_for_evaluation sample_policy;
    world = opened;
    decisions = [];
  };
  api_token = "";
  rate_limit_rps = (settings process).rate_limit_rps;
  events = none;
  demo = none;
}

starts : start ⦃u = ascii_tables⦄ json around (settings process) ≡ started service
unfolding start settings load_policy_from_file new_receipt_store trim_space
    datafog.Strings.Path.clean datafog.Policy.Validate.validate_policy
    datafog.Policy.Validate.rules_errors datafog.Policy.Validate.rule_errors
    datafog.Prelude.contains datafog.Policy.Match.is_required_decision
    datafog.Policy.Validate.empty_conditions datafog.Policy.Validate.requirement_errors
    datafog.Policy.Validate.step_errors datafog.Strings.to_lower datafog.Receipts.load_existing
    datafog.Receipts.load_lines datafog.Server.Decide.new_server
starts = refl

started_example :
    (policy : Policy) × (world : World) × (load_policy_from_file ⦃u = ascii_tables⦄ around.read_file
        around.decode_policy
        (settings process).policy_path
      ≡ loaded policy)
    × IsValidPolicy ⦃u = ascii_tables⦄ policy
    × (new_receipt_store around.codec around.disk (settings process).receipt_path 0 around.files
        ≡ ok world)
    × (service.server.policy ≡ normalize_for_evaluation policy)
    × (service.server.world ≡ world)
    × (service.server.decisions ≡ [])
started_example = started_server ⦃u = ascii_tables⦄ json around (settings process) service starts
