-- ===== src/Api/Start.antt =====
-- cmd/datafog-api/main.go: the start of the process up to its handler: the policy, the store of receipts,
-- the server, and the demo if it is enabled. Each failure ends the process.
use datafog.Prelude.{
  String, false, ◌==◌, ◌≡◌, refl, ap, sym, Option, none, some, [], if◌then◌else◌, Bool-cases, inl,
  inr,
}
use datafog.Prelude.Int.{ℤ}
use datafog.Strings.{Unicode, Bytes}
use datafog.Models.{Policy}
use datafog.Policy.Valid.{IsValidPolicy}
use datafog.Policy.Evaluate.{normalize_for_evaluation}
use datafog.Policy.Load.{Loading, loaded, refused, load_policy_from_file, load-IsValidPolicy}
use datafog.Receipts.{Codec, Disk, Files, Result, ok, err, World, new_receipt_store}
use datafog.Shim.Gate.{EnforcementMode, Gate, Runner, Reader, Writer, new_gate}
use datafog.Shim.Http.{Library, Outgoing, Answer, decide}
use datafog.Server.Decide.{Server, Wire, new_server}
use datafog.Server.Demo.{DemoHandler, new_demo_handler}
use datafog.Api.{Settings, demo_client}

-- what the process finds: files, JSON, the receipts' files, the service's own address, the system's
-- runner, reader and writer, and the sandbox that `os.MkdirTemp` makes
pub record Surroundings : Type 0 where
  pub read_file : String → Option String
  pub decode_policy : String → Option Policy
  pub codec : Codec
  pub disk : Disk
  pub files : Files
  pub library : Library
  pub exchange : Outgoing → Answer
  pub runner : Runner
  pub reader : Reader
  pub writer : Writer
  pub sandbox : Option String
  pub read_page : String → Option Bytes

-- the server with its options; the sink and the reader of events stand at the path `events`, if there is
-- one. The demo's gate writes to the same sink, which a `Gate` has no field for: what the gate records is
-- the trace of its outcome.
pub record Service : Type 0 where
  pub server : Server
  pub api_token : String
  pub rate_limit_rps : ℤ
  pub events : Option String
  pub demo : Option DemoHandler

pub data Startup : Type 0 where
  no_policy no_receipts no_demo : Startup
  started : Service → Startup

served : Server → Startup → Server
served other (started x) = x.server
served other _ = other

-- the sink and the reader, made where a path is set
abbrev pub event_path : Settings → Option String
event_path s = if s.events_path == "" then none else some s.events_path

module _ ⦃u : Unicode⦄ (wire : Wire) (around : Surroundings) (s : Settings) where
  unfoldable pub demo_gate : Gate
  demo_gate =
      new_gate (decide around.library (demo_client s around.exchange)) around.runner around.reader
        around.writer EnforcementMode.enforced false

  unfoldable pub start_demo : Server → Option DemoHandler → Startup
  start_demo server none = no_demo
  start_demo server (some demo) = started record {
    server = server;
    api_token = s.api_token;
    rate_limit_rps = s.rate_limit_rps;
    events = event_path s;
    demo = some demo;
  }

  unfoldable pub start_handler : Server → Startup
  unfolding start_demo demo_gate
  start_handler server =
      if s.enable_demo
      then start_demo server
          (new_demo_handler demo_gate around.sandbox s.demo_html around.read_page)
      else started record {
        server = server;
        api_token = s.api_token;
        rate_limit_rps = s.rate_limit_rps;
        events = event_path s;
        demo = none;
      }

  unfoldable pub start_server : Policy → Result World → Startup
  unfolding start_handler
  start_server policy (err e) = no_receipts
  start_server policy (ok world) = start_handler (new_server wire policy world)

  unfoldable pub start_with : Loading → Startup
  unfolding start_server
  start_with (refused e) = no_policy
  start_with (loaded policy) =
      start_server policy (new_receipt_store around.codec around.disk s.receipt_path 0 around.files)

  unfoldable pub start : Startup
  unfolding start_with
  start = start_with (load_policy_from_file around.read_file around.decode_policy s.policy_path)

  demo-server :
      (server : Server) (o : Option DemoHandler) (x : Service)
      → start_demo server o ≡ started x
      → server ≡ x.server
  unfolding start_demo served
  demo-server server none x h = cc
  demo-server server (some demo) x h = ap (served server) h

  handler-server :
      (server : Server) (x : Service) → start_handler server ≡ started x → server ≡ x.server
  unfolding start_handler served
  handler-server server x h = elim (Bool-cases s.enable_demo) [
    | inl e ↦ demo-server server _ x (rw e at h)
    | inr e ↦ ap (served server) (rw e at h)
  ]

  store_opened :
      (policy : Policy) (r : Result World) (x : Service)
      → start_server policy r ≡ started x
      → (world : World) × (r ≡ ok world) × (new_server wire policy world ≡ x.server)
  unfolding start_server
  store_opened policy (err e) x h = cc
  store_opened policy (ok world) x h =
      (world, refl, handler-server (new_server wire policy world) x h)

  policy_loaded :
      (l : Loading) (x : Service)
      → start_with l ≡ started x
      → (policy : Policy) × (world : World) × (l ≡ loaded policy)
        × (new_receipt_store around.codec around.disk s.receipt_path 0 around.files ≡ ok world)
        × (new_server wire policy world ≡ x.server)
  unfolding start_with
  policy_loaded (refused e) x h = cc
  policy_loaded (loaded policy) x h =
      let (world, opened, is) = store_opened policy _ x h in (policy, world, refl, opened, is)

  -- The process serves only with a valid policy, sorted for evaluation, with the receipts that its file
  -- holds, and with an empty cache of decisions.
  pub started_server :
      (x : Service)
      → start ≡ started x
      → (policy : Policy) × (world : World) × (load_policy_from_file around.read_file
            around.decode_policy s.policy_path
          ≡ loaded policy)
        × IsValidPolicy policy
        × (new_receipt_store around.codec around.disk s.receipt_path 0 around.files ≡ ok world)
        × (x.server.policy ≡ normalize_for_evaluation policy)
        × (x.server.world ≡ world)
        × (x.server.decisions ≡ [])
  unfolding start new_server
  started_server x h =
      let (policy, world, is, opened, same) = policy_loaded _ x h in
      (
        policy,
        world,
        is,
        load-IsValidPolicy around.read_file around.decode_policy s.policy_path policy is,
        opened,
        ap (λ y. y.policy) (sym same),
        ap (λ y. y.world) (sym same),
        ap (λ y. y.decisions) (sym same),
      )
