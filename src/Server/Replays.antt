-- ===== src/Server/Replays.antt =====
-- A repeated request to handleScan, handleTransform or handleAnonymize.
use datafog.Prelude.{ℕ, String, List, ◌≡◌, ◌≢◌, ap}
use datafog.Strings.{Unicode, Bytes}
use datafog.Models.{ScanFinding, TransformRequest, Policy}
use datafog.Transform.Replacement.{Digest}
use datafog.Server.Decide.{Wire}
use datafog.Server.Cached.{PostRequest, raw, go, serve_again}
use datafog.Server.Handlers.{
  Payloads, Caches, admit_transform, hash_transform_request, transform_response, handle_transform,
}

module _ ⦃u : Unicode⦄ ⦃d : Digest⦄ (wire : Wire) (payloads : Payloads)
    (scan later_scan : Bytes → List String → List ScanFinding) (policy : Policy) (s : Caches)
    (status : ℕ) (body : Bytes) where
  -- After a transform request with a key was answered with bytes, a well-formed request with the same
  -- key and the same hash gets the same bytes and leaves the caches as they are, even if the scanner
  -- finds something else by then.
  handle_transform_again :
      (first second : PostRequest TransformRequest) (req later : TransformRequest)
      → admit_transform wire payloads first ≡ go req
      → admit_transform wire payloads second ≡ go later
      → req.idempotency_key ≢ ""
      → later.idempotency_key ≡ req.idempotency_key
      → hash_transform_request wire payloads later ≡ hash_transform_request wire payloads req
      → (handle_transform wire payloads scan policy s first).0 ≡ raw status body
      → handle_transform wire payloads later_scan policy
          (handle_transform wire payloads scan policy s first).1
          second
        ≡ (raw status body, (handle_transform wire payloads scan policy s first).1)
  unfolding handle_transform
  handle_transform_again first second req later f g k e h d =
      let key : TransformRequest → String = λ r. r.idempotency_key in
      let hash = hash_transform_request wire payloads in
      let marshal = payloads.transform_response in
      let now = transform_response wire payloads scan policy in
      let next = transform_response wire payloads later_scan policy in
      let same =
        serve_again key hash marshal now next s.transforms req later status body k e h
          (rw f at d) in
      rw (f, g) (ap (λ r. (r.0, record s { transforms = r.1 })) same)
