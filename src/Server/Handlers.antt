-- ===== src/Server/Handlers.antt =====
-- internal/server/server.go: handleScan, handleTransform and handleAnonymize, and the readings of the
-- policy and of a receipt. `scan` is `ScanText`; JSON is the parameter `Payloads`.
use datafog.Prelude.{
  String, Bool, true, false, not, Option, List, [], ◌∷◌, ◌==◌, Dict, insert, is_empty, contains,
  if◌then◌else◌,
}
use datafog.Strings.{Unicode, Bytes, to_lower, trim_space}
use datafog.Models.{
  ScanFinding, TransformMode, TransformStep, ScanRequest, ScanResponse, TransformRequest,
  TransformResponse, AnonymizeRequest, Policy,
}
use datafog.Transform.Replacement.{Digest}
use datafog.Transform.Apply.{mode_text, apply_transforms}
use datafog.Server.Decide.{Wire, hash_payload}
use datafog.Server.Cached.{
  PostRequest, Reply, failed, Step, stop, go, CachedResponse, and_then, admit_post, serve,
}

pub record Payloads : Type 0 where
  pub scan_request : ScanRequest → Option Bytes
  pub transform_request : TransformRequest → Option Bytes
  pub anonymize_request : AnonymizeRequest → Option Bytes
  pub scan_response : ScanResponse → Option Bytes
  pub transform_response : TransformResponse → Option Bytes

-- the caches of the server that these handlers share with none other
pub record Caches : Type 0 where
  pub scans : Dict CachedResponse
  pub transforms : Dict CachedResponse
  pub anonymizes : Dict CachedResponse

unfoldable pub require_text : {R A : Type 0} → (A → Bytes) → A → Step R A
require_text text req = if is_empty (text req) then stop (failed 400 "invalid_request") else go req

unfoldable pub is_allowed_transform_mode : TransformMode → Bool
is_allowed_transform_mode TransformMode.mask = true
is_allowed_transform_mode TransformMode.tokenize = true
is_allowed_transform_mode TransformMode.anonymize = true
is_allowed_transform_mode TransformMode.redact = true
is_allowed_transform_mode TransformMode.replace = true
is_allowed_transform_mode TransformMode.hash = true
is_allowed_transform_mode (TransformMode.other s) = false

-- the conversion of a string to `models.TransformMode`
unfoldable pub mode_of_text : String → TransformMode
mode_of_text s =
    if s == "mask"
    then TransformMode.mask
    else if s == "tokenize"
    then TransformMode.tokenize
    else if s == "anonymize"
    then TransformMode.anonymize
    else if s == "redact"
    then TransformMode.redact
    else if s == "replace"
    then TransformMode.replace
    else if s == "hash"
    then TransformMode.hash
    else TransformMode.other s

-- the mode for every finding, in the order of the findings
unfoldable pub modes_of_findings :
    TransformMode → List ScanFinding → Dict TransformMode → Dict TransformMode
modes_of_findings mode [] modes = modes
modes_of_findings mode (f ∷ fs) modes = modes_of_findings mode fs (insert f.entity_type mode modes)

abbrev pub plan_of : Dict TransformMode → List TransformStep
plan_of [] = []
plan_of ((entity_type, mode) ∷ modes) =
    record { entity_type = entity_type; mode = mode } ∷ plan_of modes

-- one step for each entity type, at its first finding; `seen` has the types so far
unfoldable pub anonymize_plan : List String → List ScanFinding → List TransformStep
anonymize_plan seen [] = []
anonymize_plan seen (f ∷ fs) =
    let later = anonymize_plan seen fs in
    let more = anonymize_plan (f.entity_type ∷ seen) fs in
    if contains f.entity_type seen
    then later
    else record { entity_type = f.entity_type; mode = TransformMode.anonymize } ∷ more

abbrev pub findings_or_scan :
    (Bytes → List String → List ScanFinding) → Bytes → List ScanFinding → List ScanFinding
findings_or_scan scan text findings = if is_empty findings then scan text [] else findings

unfoldable pub entity_modes_of : TransformRequest → List ScanFinding → Dict TransformMode
unfolding modes_of_findings
entity_modes_of req findings =
    if not (is_empty req.entity_modes)
    then req.entity_modes
    else if mode_text req.mode == ""
    then []
    else modes_of_findings req.mode findings []

module _ ⦃u : Unicode⦄ where
  unfoldable pub canonical_mode : TransformMode → TransformMode
  unfolding mode_of_text
  canonical_mode mode = mode_of_text (to_lower (trim_space (mode_text mode)))

  -- req.Mode in its canonical form, if there is one
  unfoldable pub check_request_mode : {R : Type 0} → TransformRequest → Step R TransformRequest
  unfolding canonical_mode
  check_request_mode req =
      if mode_text req.mode == ""
      then go req
      else if is_allowed_transform_mode (canonical_mode req.mode)
      then go (record req { mode = canonical_mode req.mode })
      else stop (failed 400 "invalid_request")

  -- the entries of req.EntityModes in their canonical form, added to `modes`
  unfoldable pub canonical_modes :
      {R : Type 0} → Dict TransformMode → Dict TransformMode → Step R (Dict TransformMode)
  unfolding canonical_mode
  canonical_modes [] modes = go modes
  canonical_modes ((entity_type, mode) ∷ rest) modes =
      let later =
        canonical_modes rest (insert (trim_space entity_type) (canonical_mode mode) modes) in
      if trim_space entity_type == ""
      then stop (failed 400 "invalid_request")
      else if not (is_allowed_transform_mode (canonical_mode mode))
      then stop (failed 400 "invalid_request")
      else later

  unfoldable pub check_entity_modes : {R : Type 0} → TransformRequest → Step R TransformRequest
  unfolding canonical_modes
  check_entity_modes req =
      and_then (canonical_modes req.entity_modes [])
        (λ modes. go (record req { entity_modes = modes }))

module _ ⦃u : Unicode⦄ (wire : Wire) (payloads : Payloads) where
  unfoldable pub hash_scan_request : ScanRequest → Option String
  hash_scan_request req =
      hash_payload wire (
        payloads.scan_request (record req { idempotency_key = ""; request_id = ""; trace_id = "" }))

  unfoldable pub hash_transform_request : TransformRequest → Option String
  hash_transform_request req = hash_payload wire (
      payloads.transform_request
        (record req { idempotency_key = ""; request_id = ""; trace_id = "" }))

  unfoldable pub hash_anonymize_request : AnonymizeRequest → Option String
  hash_anonymize_request req = hash_payload wire (
      payloads.anonymize_request
        (record req { idempotency_key = ""; request_id = ""; trace_id = "" }))

  unfoldable pub admit_transform :
      PostRequest TransformRequest → Step TransformResponse TransformRequest
  unfolding require_text check_request_mode check_entity_modes
  admit_transform http =
      and_then
        (and_then (and_then (admit_post wire http) (require_text (λ req. req.text)))
          check_request_mode)
        check_entity_modes

module _ ⦃u : Unicode⦄ ⦃d : Digest⦄ (wire : Wire) (payloads : Payloads)
    (scan : Bytes → List String → List ScanFinding) where
  unfoldable pub scan_response : Policy → ScanRequest → ScanResponse
  scan_response policy req = record {
    request_id = req.request_id;
    trace_id = req.trace_id;
    findings = scan req.text req.entity_types;
    policy_version = policy.policy_version;
    policy_id = policy.policy_id;
  }

  unfoldable pub handle_scan :
      Policy → Caches → PostRequest ScanRequest → Reply ScanResponse × Caches
  unfolding require_text
  handle_scan policy s http =
      let (r, cache) =
        serve (λ req. req.idempotency_key) (hash_scan_request wire payloads) payloads.scan_response
          (scan_response policy) s.scans
          (and_then (admit_post wire http) (require_text (λ req. req.text))) in
      (r, record s { scans = cache })

  unfoldable pub transform_response : Policy → TransformRequest → TransformResponse
  unfolding entity_modes_of
  transform_response policy req =
      let findings = findings_or_scan scan req.text req.findings in
      let result = apply_transforms req.text findings (plan_of (entity_modes_of req findings)) in
      record {
        request_id = req.request_id;
        trace_id = req.trace_id;
        output = result.output;
        policy_id = policy.policy_id;
        policy_version = policy.policy_version;
        stats = result.stats;
      }

  unfoldable pub handle_transform :
      Policy → Caches → PostRequest TransformRequest → Reply TransformResponse × Caches
  handle_transform policy s http =
      let (r, cache) =
        serve (λ req. req.idempotency_key) (hash_transform_request wire payloads)
          payloads.transform_response (transform_response policy) s.transforms
          (admit_transform wire payloads http) in
      (r, record s { transforms = cache })

  unfoldable pub anonymize_response : Policy → AnonymizeRequest → TransformResponse
  unfolding anonymize_plan
  anonymize_response policy req =
      let findings = findings_or_scan scan req.text req.findings in
      let result = apply_transforms req.text findings (anonymize_plan [] findings) in
      record {
        request_id = req.request_id;
        trace_id = req.trace_id;
        output = result.output;
        policy_id = policy.policy_id;
        policy_version = policy.policy_version;
        stats = result.stats;
      }

  unfoldable pub handle_anonymize :
      Policy → Caches → PostRequest AnonymizeRequest → Reply TransformResponse × Caches
  unfolding require_text
  handle_anonymize policy s http =
      let (r, cache) =
        serve (λ req. req.idempotency_key) (hash_anonymize_request wire payloads)
          payloads.transform_response (anonymize_response policy) s.anonymizes
          (and_then (admit_post wire http) (require_text (λ req. req.text))) in
      (r, record s { anonymizes = cache })
