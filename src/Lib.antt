-- ===== src/Lib.antt =====
-- DataFog's Go program, in antt: a policy server that decides on agents' actions, scans and redacts
-- text, and keeps receipts of its decisions; and a shim that asks the server before it acts.
--
-- How the parts interact. The shim's gate builds a request for an action and asks a client for the
-- decision (internal/shim). The server's handler finds what the text holds (internal/scan), evaluates
-- the policy on the action and the findings (internal/policy, internal/adapters), saves a receipt
-- (internal/receipts) and answers. Under a redacting decision the gate transforms the bytes that it
-- reads or writes by the plan of the answer (internal/transform).
--
-- Which file models which part:
-- - Models: internal/models/models.go. A Go string type with named constants is a data type with
--   `other` for any other text, a confidence is in thousandths, a time is in nanoseconds.
-- - Strings: what the code uses of Go's `strings` and `unicode`. A string that is compared or
--   normalised is a `String`, one that is cut at byte offsets is a list of bytes. The case tables
--   above ASCII are the parameter `Unicode`. Strings/Path is what it uses of `path/filepath` on systems
--   other than Windows.
-- - Policy: internal/policy/policy.go. Policy/Load is LoadPolicyFromFile, Policy/Match is matchAction and what it calls, Policy/Validate
--   ValidatePolicy with its errors as values, Policy/Evaluate NormalizeForEvaluation, EvaluateSorted
--   (its loop is tally_rules over the variables in Tally) and Evaluate. Policy/Spec, Policy/Order,
--   Policy/Safety and Policy/Valid state and prove what these mean.
-- - Adapters: internal/adapters/registry.go, with its table in Adapters/Table; Normalize is that of
--   systems other than Windows. Adapters/Matching has the proofs.
-- - Transform: internal/transform/transform.go. Transform/Replacement is what a finding is replaced
--   by, with SHA-256 as the parameter `Digest`, and Transform/Apply is ApplyTransforms; `bytes` and
--   `count` of the loop are the record Progress. Transform/Render, Transform/Keeps and Transform/Mask
--   have the proofs.
-- - Receipts: internal/receipts/store.go. The store and its files are the record World; each call
--   takes what the file system answers (Disk), the JSON of a receipt is a parameter (Codec), and a
--   method is one step since it holds the mutex. A write that fails may leave a part of its line, which
--   stays behind the last ended line (Files). Receipts/Keeps is about the memory, Receipts/Recovery about
--   what the file reads as, Receipts/Restart about opening it again, and Receipts/Torn about a write
--   that breaks off.
-- - Scan: internal/scan/filters.go in Scan/Filters, luhnValid and ipv4Valid of
--   internal/scan/detector.go in Scan/Validators, with proofs in Scan/Luhn and Scan/Address. The
--   recogniser of internal/scan/ner.go is Scan/Dictionaries, Scan/Tokens (tokenize, byteOffset) and
--   Scan/Ner (spans and classification), with proofs in Scan/Layout and Scan/Extents; Go's conversions
--   between a string and its runes are the parameter `Encoding`. ScanText is Scan/Detector, where the
--   matches of an entity type's expression are the parameter `find_all`, with proofs in Scan/Sound.
-- - Shim: internal/shim/enforcer.go. Shim/Gate is the gate, its mode and executeRequest, Shim/Actions
--   the four actions. What a call does to its surroundings is its trace of effects. The scanner that
--   the redaction calls is an argument, and the theorems hold for every scanner. Shim/Calls is a
--   call of any of them, and Shim/Enforcement has the proofs. internal/shim/events.go is Shim/Events,
--   with proofs in Shim/Queries. internal/shim/http.go is Shim/Http, over the exchange of one request for
--   an answer.
-- - Server: internal/server/server.go. handleDecide is Server/Decide, from the method test to the
--   answer, with its cache, its hashes and the receipt; Server/Idempotency and Server/Audit have the
--   proofs. JSON, the media type and SHA-256 are the parameter `Wire`; the random identifier, the clock
--   and the file system come with the call (Moment). handleScan, handleTransform and handleAnonymize
--   are Server/Handlers; the look into a cache and the answer that goes into it, which the source
--   writes out in each of the three, are Server/Cached; Server/Replays and Server/Anonymized have the
--   proofs. handleEvents, handleReceipt and the other handlers that only read are Server/Readings, with
--   a proof in Server/Answers. The middleware is Server/Middleware, over any handler, with the token
--   bucket in Server/Limiter and the counters in Server/Metrics; Server/Guard has its proofs. There each
--   request runs on its own. Server/Concurrent is handleDecide for requests in flight at once: three
--   steps, between which the steps of other requests may come, since the code takes its locks for each
--   of them; Server/Steps, Server/Interleaving and Server/Race have the proofs, and Server/Statuses
--   says which statuses the handler answers. internal/server/demo.go is Server/Demo, with proofs in
--   Server/Sandbox.
-- - Cli: cmd/datafog-shim/main.go. Cli/Config is the resolution of the configuration from flags and
--   environment, Cli/Quote the quoting of a text for the shell, next to the part of the shell's own
--   quoting rules that reads it back, and Cli/Script the script of an installed shim and the reading of
--   its metadata. Cli/Precedence, Cli/Words and Cli/Metadata have the proofs. Cli/Hooks
--   installs and removes shims over a map of files, with proofs in Cli/Ownership and Cli/Installed;
--   Cli/Listing is the listing of shims. Cli/Commands is run with its commands: those that pass the
--   gate, with proofs in Cli/Traces and Cli/Gated, and hooks and adapters, which have none.
-- - Api: cmd/datafog-api/main.go. Api is the settings, Api/Start the start up to the handler;
--   the event sink and reader are told by their path.
-- - System: a gate whose client reaches the service, with both sides of the JSON as parameters.
-- - Prelude: what the files share: tests on numbers, lists, association lists, integers, and the
--   stable sort with its laws. Examples: data, and runs of the code and of the theorems on it.
--
-- Every loop is structural recursion over the list or the text that the code ranges over, but for the
-- outer loop of tokenize, whose fuel is the number of runes: each round takes at least one. Numbers are
-- unbounded: a Go int is an ℕ or, where it may be negative, a ℤ, and the code compares and adds them
-- far from its bounds. The float64 of the token bucket is the parameter `Float64`, its operations in the
-- order of the source, with the laws of IEEE arithmetic that the theorem names.
--
-- Not modelled: the regular expressions of internal/scan themselves, the snapshot of the server's
-- metrics, the CORS headers and request identifiers, the parsing of flags, what the programs print and
-- log, listening and shutting down, and JSON itself.
pub mod Prelude
pub mod Strings
pub mod Models
pub mod Adapters
pub mod Policy
pub mod Transform
pub mod Receipts
pub mod Scan
pub mod Shim
pub mod Server
pub mod Cli
pub mod System
pub mod Api
pub mod Examples
