-- ===== src/Server/Concurrent.antt =====
-- internal/server/server.go: `handleDecide` for requests in flight at once. Its look into the cache,
-- `Save`, and its write to the cache each hold a lock, and what stands between them touches only the
-- request: the handler is three steps, and the steps of all requests interleave.
use datafog.Prelude.{ℕ, String, Option, none, some, List, eqb, if◌then◌else◌}
use datafog.Strings.{Unicode, Bytes}
use datafog.Models.{ScanFinding, DecideRequest, DecideResponse, Receipt}
use datafog.Policy.Evaluate.{DecisionResult, evaluate_sorted}
use datafog.Receipts.{Codec, Result, ok, err, World, save}
use datafog.Server.Decide.{
  Wire, HttpRequest, Response, Server, Moment, Stage, stop, go, admit, look_up, receipt_of,
  response_of, remember, findings_of, hash_decide_action, hash_decide_input,
}

-- How far a request is: it has arrived, has found no entry in the cache, has its receipt, or has been
-- answered, by the early return, by an error behind it, or by its own decision.
pub data Phase : Type 0 where
  arrived : HttpRequest → Moment → Phase
  missed : Moment → DecideRequest → Phase
  saved : DecideRequest → DecideResponse → Phase
  stopped : HttpRequest → Response → Phase
  failed : ℕ → String → Phase
  answered : DecideRequest → DecideResponse → Phase

pub record Traffic : Type 0 where
  pub server : Server
  pub phases : ℕ → Phase

unfoldable pub update {ℓ} : {A : Type ℓ} → (ℕ → A) → ℕ → A → ℕ → A
update f i x j = if eqb i j then x else f j

abbrev pub after_look : HttpRequest → Moment → Stage DecideRequest → Phase
after_look http m (stop r) = stopped http r
after_look http m (go req) = missed m req

module _ ⦃u : Unicode⦄ (wire : Wire) where
  unfoldable pub keep_response :
      Server
      → DecideRequest
      → List ScanFinding
      → DecisionResult
      → Result Receipt × World
      → Phase × Server
  keep_response s req findings result (err e, w) =
      (failed 500 "receipt_error", record s { world = w })
  keep_response s req findings result (ok receipt, w) =
      (saved req (response_of wire s.policy req findings result receipt), record s { world = w })

  unfoldable pub save_decision :
      Codec
      → Moment
      → Server
      → DecideRequest
      → List ScanFinding
      → DecisionResult
      → Option String
      → Option String
      → Phase × Server
  unfolding keep_response
  save_decision codec m s req findings result none h = (failed 500 "hash_error", s)
  save_decision codec m s req findings result (some a) none = (failed 500 "hash_error", s)
  save_decision codec m s req findings result (some a) (some i) =
      keep_response s req findings result (
        save codec m.disk m.id m.stamp (receipt_of wire m s.policy req findings result a i) s.world)

  module _ (scan : Bytes → List ScanFinding) (codec : Codec) where
    -- the next step of a request; an answered one has none
    unfoldable pub advance : Server → Phase → Phase × Server
    unfolding save_decision
    advance s (arrived http m) = (after_look http m (look_up wire s (admit wire http)), s)
    advance s (missed m req) =
        let findings = findings_of wire scan req in
        save_decision codec m s req findings
          (evaluate_sorted s.policy record { action = req.action; findings = findings })
          (hash_decide_action wire req.action) (hash_decide_input wire req)
    advance s (saved req res) = (answered req res, remember wire req res s)
    advance s (stopped http r) = (stopped http r, s)
    advance s (failed status code) = (failed status code, s)
    advance s (answered req res) = (answered req res, s)

    -- request `i` does its next step
    unfoldable pub turn : ℕ → Traffic → Traffic
    unfolding advance
    turn i t = record {
      server = (advance t.server (t.phases i)).1;
      phases = update t.phases i (advance t.server (t.phases i)).0;
    }

    pub data Step (t : Traffic) : Traffic → Type 0 where
      pick : (i : ℕ) → Step t (turn i t)

    pub data Reach (t : Traffic) : Traffic → Type 0 where
      start : Reach t t
      later : {x y : Traffic} → Reach t x → Step x y → Reach t y
