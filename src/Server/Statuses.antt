-- ===== src/Server/Statuses.antt =====
-- What `handleDecide` says with its status: 200 is a decision.
use datafog.Prelude.{
  Bool, true, false, not, ◌≡◌, refl, Option, none, some, List, ◌==◌, String, eqb, lookup,
  if◌then◌else◌, Bool-cases, inl, inr,
}
use datafog.Strings.{Unicode, Bytes}
use datafog.Models.{ScanFinding, DecideRequest}
use datafog.Policy.Evaluate.{DecisionResult}
use datafog.Receipts.{Codec, Result, ok, err, World}
use datafog.Models.{Receipt}
use datafog.Server.Decide.{
  Wire, Body, decoded, HttpRequest, Response, error, decided, Server, Moment, Stage, stop, go,
  IdempotentDecision, admit, decode_body, require_action, replay, look_up, answer, store_decision,
  decide, handle_decide, is_json_content_type, hash_decide_request,
}

-- an error has another status than 200
abbrev pub is_told : Response → Bool
is_told (error status code) = not (eqb status 200)
is_told (decided res) = true

abbrev stage_told : Stage DecideRequest → Bool
stage_told (stop r) = is_told r
stage_told (go req) = true

if_told : (P : Bool → Bool) → P true ≡ true → P false ≡ true → (b : Bool) → P b ≡ true
if_told P t f true = t
if_told P t f false = f

replay_told :
    (h : Option String) (cached : Option IdempotentDecision) (req : DecideRequest)
    → stage_told (replay h cached req) ≡ true
unfolding replay
replay_told none cached req = refl
replay_told (some h) none req = refl
replay_told (some h) (some c) req =
    if_told
      (λ b.
        stage_told
          (if b then stop (decided c.response) else stop (error 409 "idempotency_conflict")))
      refl refl (c.request_hash == h)

require_told :
    (x : Stage DecideRequest) → stage_told x ≡ true → stage_told (require_action x) ≡ true
unfolding require_action
require_told (stop r) h = h
require_told (go req) h =
    if_told (λ b. stage_told (if b then stop (error 400 "invalid_request") else go req)) refl refl
      (req.action.type == "")

decode_told : (b : Body) → stage_told (decode_body b) ≡ true
unfolding decode_body
decode_told (decoded req) = refl
decode_told Body.too_large = refl
decode_told Body.malformed = refl

module _ ⦃u : Unicode⦄ (wire : Wire) where
  admit_told : (http : HttpRequest) → stage_told (admit wire http) ≡ true
  unfolding admit
  admit_told http = elim (Bool-cases (http.method == "POST")) [
    | inr e ↦ rw e refl
    | inl e ↦ elim (Bool-cases (is_json_content_type wire http.content_type)) [
      | inr t ↦ rw (e, t) refl
      | inl t ↦ rw (e, t) (require_told (decode_body http.body) (decode_told http.body))
    ]
  ]

  look_up_told :
      (s : Server) (x : Stage DecideRequest)
      → stage_told x ≡ true
      → stage_told (look_up wire s x) ≡ true
  unfolding look_up
  look_up_told s (stop r) h = h
  look_up_told s (go req) h = elim (Bool-cases (req.idempotency_key == "")) [
    | inl e ↦ rw e refl
    | inr e ↦
        rw e
          (replay_told (hash_decide_request wire req) (lookup req.idempotency_key s.decisions) req)
  ]

  answer_told :
      (s : Server) (req : DecideRequest) (findings : List ScanFinding) (result : DecisionResult)
      (x : Result Receipt × World)
      → is_told (answer wire s req findings result x).0 ≡ true
  unfolding answer
  answer_told s req findings result (err e, w) = refl
  answer_told s req findings result (ok saved, w) = refl

  store_told :
      (codec : Codec) (m : Moment) (s : Server) (req : DecideRequest) (findings : List ScanFinding)
      (result : DecisionResult) (a i : Option String)
      → is_told (store_decision wire codec m s req findings result a i).0 ≡ true
  unfolding store_decision
  store_told codec m s req findings result none i = refl
  store_told codec m s req findings result (some a) none = refl
  store_told codec m s req findings result (some a) (some i) = answer_told s req findings result _

  decide_told :
      (scan : Bytes → List ScanFinding) (codec : Codec) (m : Moment) (s : Server)
      (x : Stage DecideRequest)
      → stage_told x ≡ true
      → is_told (decide wire scan codec m s x).0 ≡ true
  unfolding decide
  decide_told scan codec m s (stop r) h = h
  decide_told scan codec m s (go req) h = store_told codec m s req _ _ _ _

  -- An error that `handleDecide` answers never has the status 200.
  pub handle_decide_told :
      (scan : Bytes → List ScanFinding) (codec : Codec) (m : Moment) (s : Server)
      (http : HttpRequest)
      → is_told (handle_decide wire scan codec m s http).0 ≡ true
  unfolding handle_decide
  handle_decide_told scan codec m s http =
      decide_told scan codec m s (look_up wire s (admit wire http))
        (look_up_told s (admit wire http) (admit_told http))
