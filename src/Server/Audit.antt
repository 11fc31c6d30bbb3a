-- ===== src/Server/Audit.antt =====
-- What `handleDecide` leaves in the store of receipts.
use datafog.Prelude.{
  String, ◌≡◌, ◌∙◌, refl, ap, sym, inl, inr, Option, none, some, List, ◌==◌, eq_iff, Bool-cases,
}
use datafog.Strings.{Unicode, Bytes}
use datafog.Models.{ScanFinding, DecideRequest, DecideResponse, Receipt, Policy}
use datafog.Policy.Evaluate.{DecisionResult}
use datafog.Receipts.{Codec, Result, ok, err, World, save, get, with_id, new_receipt}
use datafog.Receipts.Keeps.{get-save}
use datafog.Server.Decide.{
  Wire, HttpRequest, decided, Server, Moment, go, admit, look_up, receipt_of, response_of, remember,
  answer, store_decision, decide, handle_decide,
}

-- the receipt tells what the response tells
abbrev pub IsReceiptOf : Receipt → DecideRequest → DecideResponse → Type 0
IsReceiptOf r req res =
    (r.receipt_id ≡ res.receipt_id)
    × (r.decision ≡ res.decision)
    × (r.action ≡ req.action)
    × (r.matched_rules ≡ res.matched_rules)
    × (r.findings ≡ res.findings)
    × (r.policy_id ≡ res.policy_id)
    × (r.policy_version ≡ res.policy_version)

module _ ⦃u : Unicode⦄ (wire : Wire) (codec : Codec) where
  remember-world :
      (req : DecideRequest) (res : DecideResponse) (s : Server)
      → (remember wire req res s).world ≡ s.world
  unfolding remember
  remember-world req res s = elim (Bool-cases (req.idempotency_key == "")) [
    | inl e ↦ rw e refl
    | inr e ↦ rw e refl
  ]

  with_id-IsReceiptOf :
      (m : Moment) (policy : Policy) (req : DecideRequest) (findings : List ScanFinding)
      (result : DecisionResult) (a i id : String) (saved : Receipt)
      → saved ≡ with_id id (receipt_of wire m policy req findings result a i)
      → IsReceiptOf saved req (response_of wire policy req findings result saved)
  unfolding receipt_of response_of new_receipt
  with_id-IsReceiptOf m policy req findings result a i id saved e = elim (Bool-cases (m.id == "")) [
    | inl b ↦ rw (e, b) (refl, refl, refl, refl, refl, refl, refl)
    | inr b ↦ rw (e, b) (refl, refl, refl, refl, refl, refl, refl)
  ]

  answer_saves :
      (m : Moment) (s : Server) (req : DecideRequest) (findings : List ScanFinding)
      (result : DecisionResult) (a i : String) (x : Result Receipt) (w : World)
      (res : DecideResponse)
      → save codec m.disk m.id m.stamp (receipt_of wire m s.policy req findings result a i) s.world
        ≡ (x, w)
      → (answer wire s req findings result (x, w)).0 ≡ decided res
      → (r : Receipt) × (get res.receipt_id (answer wire s req findings result (x, w)).1.world.store
          ≡ some r)
        × IsReceiptOf r req res
  unfolding answer get response_of
  answer_saves m s req findings result a i (err e) w res p d = cc
  answer_saves m s req findings result a i (ok saved) w res p d =
      let (is, found) =
        get-save codec m.disk m.id m.stamp (receipt_of wire m s.policy req findings result a i)
          saved s.world saved.receipt_id (ap (λ y. y.0) p) in
      let same : response_of wire s.policy req findings result saved ≡ res = cc in
      rw (← same) (
        saved,
        ap (λ v. get saved.receipt_id v.store) (remember-world req _ (record s { world = w }))
            ∙ ap (λ y. get saved.receipt_id y.1.store) (sym p)
            ∙ found
            ∙ (rw ((eq_iff saved.receipt_id saved.receipt_id).1 refl) refl),
        with_id-IsReceiptOf m s.policy req findings result a i m.id saved is,
      )

  store_saves :
      (m : Moment) (s : Server) (req : DecideRequest) (findings : List ScanFinding)
      (result : DecisionResult) (a i : Option String) (res : DecideResponse)
      → (store_decision wire codec m s req findings result a i).0 ≡ decided res
      → (r : Receipt) × (get res.receipt_id
            (store_decision wire codec m s req findings result a i).1.world.store
          ≡ some r)
        × IsReceiptOf r req res
  unfolding store_decision
  store_saves m s req findings result none i res d = cc
  store_saves m s req findings result (some a) none res d = cc
  store_saves m s req findings result (some a) (some i) res d =
      answer_saves m s req findings result a i _ _ res refl d

  -- No decision without a receipt: when a request that the cache does not answer is decided, the
  -- store holds, under the id in the response, a receipt with the response's decision, rules,
  -- findings and policy, and with the request's action.
  pub handle_decide_saves :
      (scan : Bytes → List ScanFinding) (m : Moment) (s : Server) (http : HttpRequest)
      (req : DecideRequest) (res : DecideResponse)
      → look_up wire s (admit wire http) ≡ go req
      → (handle_decide wire scan codec m s http).0 ≡ decided res
      → (r : Receipt) × (get res.receipt_id (handle_decide wire scan codec m s http).1.world.store
          ≡ some r)
        × IsReceiptOf r req res
  unfolding handle_decide decide
  handle_decide_saves scan m s http req res e d = rw e (store_saves m s req _ _ _ _ res (rw e at d))
