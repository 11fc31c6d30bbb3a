-- ===== src/Examples/HandlerRuns.antt =====
-- The handlers of internal/server/server.go that scan and transform, run.
use datafog.Prelude.{String, ◌≡◌, some, List, [], length, All}
use datafog.Prelude.Sort.{stable_sort}
use datafog.Strings.{ascii_tables, Bytes}
use datafog.Models.{ScanFinding, TransformMode, AnonymizeRequest}
use datafog.Transform.Apply.{mode_map, mode_of, later}
use datafog.Transform.Render.{render}
use datafog.Server.Handlers.{Payloads, anonymize_plan, anonymize_response}
use datafog.Server.Anonymized.{anonymize_response-render}
use datafog.Examples.{zero_digest, sample_policy, sample_text, sample_findings}
use datafog.Examples.ServerRuns.{json}
use datafog.Examples.TransformRuns.{sample_findings-IsWithin, sample_findings-IsDisjoint}

abbrev payloads : Payloads
payloads = record {
  scan_request = λ req. some [];
  transform_request = λ req. some req.text;
  anonymize_request = λ req. some req.text;
  scan_response = λ res. some [];
  transform_response = λ res. some res.output;
}

abbrev something_found : Bytes → List String → List ScanFinding
something_found text filter = sample_findings

abbrev anonymize_sample : AnonymizeRequest
anonymize_sample = record {
  text = sample_text;
  findings = [];
  request_id = "q1";
  trace_id = "";
  idempotency_key = "";
}

anonymize_example :
    ((anonymize_response ⦃u = ascii_tables⦄ ⦃d = zero_digest⦄ json payloads something_found
        sample_policy anonymize_sample).output
      ≡ render ⦃u = ascii_tables⦄ ⦃d = zero_digest⦄
          (mode_map (anonymize_plan [] sample_findings))
          (stable_sort later sample_findings)
          sample_text)
    × ((anonymize_response ⦃u = ascii_tables⦄ ⦃d = zero_digest⦄ json payloads something_found
          sample_policy anonymize_sample).stats.entities_transformed
        ≡ length sample_findings)
    × All
        (λ f. mode_of (mode_map (anonymize_plan [] sample_findings)) f ≡ TransformMode.anonymize)
        sample_findings
anonymize_example =
    anonymize_response-render ⦃u = ascii_tables⦄ ⦃d = zero_digest⦄ json payloads something_found
      sample_policy anonymize_sample sample_findings-IsWithin sample_findings-IsDisjoint
