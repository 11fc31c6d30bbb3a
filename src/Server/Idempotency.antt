-- ===== src/Server/Idempotency.antt =====
-- What `handleDecide` keeps in its cache, and what a request with a known key gets.
use datafog.Prelude.{
  String, false, ◌≡◌, ◌≢◌, ◌∙◌, refl, ap, sym, inl, inr, Option, none, some, List, arith, ◌==◌,
  eq_iff, lookup, lookup-insert, Bool-cases,
}
use datafog.Strings.{Unicode, Bytes}
use datafog.Models.{ScanFinding, DecideRequest, DecideResponse, Receipt}
use datafog.Policy.Evaluate.{DecisionResult}
use datafog.Receipts.{Codec, Result, ok, err, World}
use datafog.Server.Decide.{
  Wire, HttpRequest, decided, IdempotentDecision, Server, Moment, Stage, stop, go, anonymous,
  hash_decide_request, admit, replay, look_up, response_of, remember, answer, store_decision,
  decide, handle_decide,
}

replay-go :
    (h : Option String) (c : Option IdempotentDecision) (req r : DecideRequest)
    → replay h c req ≡ go r
    → (r ≡ req) × (c ≡ none) × (x : String) × (h ≡ some x)
unfolding replay
replay-go none c req r e = cc
replay-go (some x) none req r e = (cc, refl, x, refl)
replay-go (some x) (some c) req r e = elim (Bool-cases (c.request_hash == x)) [
  | inl b ↦ cc
  | inr b ↦ cc
]

replay-stop :
    (h : Option String) (c : Option IdempotentDecision) (req : DecideRequest) (res : DecideResponse)
    → replay h c req ≡ stop (decided res)
    → (x : IdempotentDecision) × (c ≡ some x) × (h ≡ some x.request_hash) × (x.response ≡ res)
unfolding replay
replay-stop none c req res e = cc
replay-stop (some x) none req res e = cc
replay-stop (some x) (some c) req res e = elim (Bool-cases (c.request_hash == x)) [
  | inl b ↦ (c, refl, ap some (sym ((eq_iff _ _).0 b)), cc)
  | inr b ↦ cc
]

replay-again :
    (h : Option String) (c : IdempotentDecision) (req : DecideRequest)
    → h ≡ some c.request_hash
    → replay h (some c) req ≡ stop (decided c.response)
unfolding replay
replay-again h c req e = rw (e, (eq_iff c.request_hash c.request_hash).1 refl) refl

module _ ⦃u : Unicode⦄ (wire : Wire) (scan : Bytes → List ScanFinding) (codec : Codec) where
  -- the cache holds this response for the request
  pub IsRemembered : Server → DecideRequest → DecideResponse → Type 0
  IsRemembered s req res =
      (c : IdempotentDecision) × (lookup req.idempotency_key s.decisions ≡ some c)
      × (hash_decide_request wire req ≡ some c.request_hash)
      × (c.response ≡ res)

  look_up-keyed :
      (s : Server) (req : DecideRequest)
      → req.idempotency_key ≢ ""
      → look_up wire s (go req)
        ≡ replay (hash_decide_request wire req) (lookup req.idempotency_key s.decisions) req
  unfolding look_up
  look_up-keyed s req k = ground (arith, eq_iff req.idempotency_key "")

  look_up-go :
      (s : Server) (req r : DecideRequest)
      → look_up wire s (go req) ≡ go r
      → (req.idempotency_key ≢ "")
      → (r ≡ req)
        × (lookup req.idempotency_key s.decisions ≡ none)
        × (h : String) × (hash_decide_request wire req ≡ some h)
  look_up-go s req r e k = replay-go _ _ req r (sym (look_up-keyed s req k) ∙ e)

  look_up-stop :
      (s : Server) (req : DecideRequest) (res : DecideResponse)
      → req.idempotency_key ≢ ""
      → look_up wire s (go req) ≡ stop (decided res)
      → IsRemembered s req res
  unfolding IsRemembered
  look_up-stop s req res k e = replay-stop _ _ req res (sym (look_up-keyed s req k) ∙ e)

  same_hash :
      (later req : DecideRequest)
      → anonymous later ≡ anonymous req
      → hash_decide_request wire later ≡ hash_decide_request wire req
  unfolding hash_decide_request
  same_hash later req a = rw a refl

  -- what is remembered is replayed
  remembered-look_up :
      (s : Server) (req later : DecideRequest) (res : DecideResponse)
      → req.idempotency_key ≢ ""
      → later.idempotency_key ≡ req.idempotency_key
      → anonymous later ≡ anonymous req
      → IsRemembered s req res
      → look_up wire s (go later) ≡ stop (decided res)
  unfolding IsRemembered
  remembered-look_up s req later res k e a (c, found, hash, same) =
      look_up-keyed s later (λ empty. k (sym e ∙ empty))
      ∙ ap (λ key. replay (hash_decide_request wire later) (lookup key s.decisions) later) e
      ∙ ap (λ o. replay (hash_decide_request wire later) o later) found
      ∙ replay-again _ c later (same_hash later req a ∙ hash)
      ∙ ap (λ r. stop (decided r)) same

  remember-IsRemembered :
      (req : DecideRequest) (res : DecideResponse) (s : Server) (h : String)
      → req.idempotency_key ≢ ""
      → hash_decide_request wire req ≡ some h
      → IsRemembered (remember wire req res s) req res
  unfolding remember IsRemembered
  remember-IsRemembered req res s h k e =
      let keyed : (req.idempotency_key == "") ≡ false =
        ground (arith, eq_iff req.idempotency_key "") in
      let entry : IdempotentDecision = record { request_hash = h; response = res } in
      (
        entry,
        rw (keyed, e)
            (lookup-insert req.idempotency_key req.idempotency_key entry s.decisions
              ∙ (rw ((eq_iff req.idempotency_key req.idempotency_key).1 refl) refl)),
        e,
        refl,
      )

  answer-IsRemembered :
      (s : Server) (req : DecideRequest) (findings : List ScanFinding) (result : DecisionResult)
      (r : Result Receipt) (w : World) (res : DecideResponse) (h : String)
      → req.idempotency_key ≢ ""
      → hash_decide_request wire req ≡ some h
      → (answer wire s req findings result (r, w)).0 ≡ decided res
      → IsRemembered (answer wire s req findings result (r, w)).1 req res
  unfolding answer
  answer-IsRemembered s req findings result (err x) w res h k e d = cc
  answer-IsRemembered s req findings result (ok saved) w res h k e d =
      let same : response_of wire s.policy req findings result saved ≡ res = cc in
      rw (← same) (remember-IsRemembered req _ _ h k e)

  store-IsRemembered :
      (m : Moment) (s : Server) (req : DecideRequest) (findings : List ScanFinding)
      (result : DecisionResult) (a i : Option String) (res : DecideResponse) (h : String)
      → req.idempotency_key ≢ ""
      → hash_decide_request wire req ≡ some h
      → (store_decision wire codec m s req findings result a i).0 ≡ decided res
      → IsRemembered (store_decision wire codec m s req findings result a i).1 req res
  unfolding store_decision
  store-IsRemembered m s req findings result none i res h k e d = cc
  store-IsRemembered m s req findings result (some a) none res h k e d = cc
  store-IsRemembered m s req findings result (some a) (some i) res h k e d =
      answer-IsRemembered s req findings result _ _ res h k e d

  decide-IsRemembered :
      (m : Moment) (s : Server) (req : DecideRequest) (st : Stage DecideRequest)
      (res : DecideResponse)
      → req.idempotency_key ≢ ""
      → look_up wire s (go req) ≡ st
      → (decide wire scan codec m s st).0 ≡ decided res
      → IsRemembered (decide wire scan codec m s st).1 req res
  unfolding decide
  decide-IsRemembered m s req (stop r) res k e d = look_up-stop s req res k (e ∙ ap stop d)
  decide-IsRemembered m s req (go r) res k e d =
      let (same, missing, h, hash) = look_up-go s req r e k in
      rw same (store-IsRemembered m s req _ _ _ _ res h k hash (rw same at d))

  -- A repeated request gets the answer of the first: after a well-formed request with a key was
  -- decided, a well-formed request with this key that differs from it in no more than its
  -- identifiers gets the same decision, at any moment, and changes nothing, if it comes next.
  pub handle_decide_again :
      (m again : Moment) (s : Server) (first second : HttpRequest) (req later : DecideRequest)
      (res : DecideResponse)
      → admit wire first ≡ go req
      → admit wire second ≡ go later
      → req.idempotency_key ≢ ""
      → later.idempotency_key ≡ req.idempotency_key
      → anonymous later ≡ anonymous req
      → (handle_decide wire scan codec m s first).0 ≡ decided res
      → handle_decide wire scan codec again (handle_decide wire scan codec m s first).1 second
        ≡ (decided res, (handle_decide wire scan codec m s first).1)
  unfolding handle_decide
  handle_decide_again m again s first second req later res f g k e a d =
      let after = (decide wire scan codec m s (look_up wire s (admit wire first))).1 in
      let kept : IsRemembered after req res =
        (rw f (decide-IsRemembered m s req _ res k refl (rw f at d))) in
      ap (decide wire scan codec again after)
        (ap (look_up wire after) g ∙ remembered-look_up after req later res k e a kept)

  remember-keeps :
      (req : DecideRequest) (res : DecideResponse) (s : Server) (key : String)
      (c : IdempotentDecision)
      → (req.idempotency_key ≢ "" → lookup req.idempotency_key s.decisions ≡ none)
      → lookup key s.decisions ≡ some c
      → lookup key (remember wire req res s).decisions ≡ some c
  unfolding remember
  remember-keeps req res s key c free h = elim (Bool-cases (req.idempotency_key == "")) [
    | inl e ↦ rw e h
    | inr e ↦
        let missing = free (λ same. cc (e, (eq_iff req.idempotency_key "").1 same)) in
        let other : (req.idempotency_key == key) ≡ false =
          ground
            (arith, eq_iff req.idempotency_key key, missing, h, ap (λ k. lookup k s.decisions)) in
        rw e (lookup-insert req.idempotency_key key _ s.decisions ∙ (rw other h))
  ]

  answer-keeps :
      (s : Server) (req : DecideRequest) (findings : List ScanFinding) (result : DecisionResult)
      (r : Result Receipt) (w : World) (key : String) (c : IdempotentDecision)
      → (req.idempotency_key ≢ "" → lookup req.idempotency_key s.decisions ≡ none)
      → lookup key s.decisions ≡ some c
      → lookup key (answer wire s req findings result (r, w)).1.decisions ≡ some c
  unfolding answer
  answer-keeps s req findings result (err x) w key c free h = h
  answer-keeps s req findings result (ok saved) w key c free h =
      remember-keeps req _ (record s { world = w }) key c free h

  store-keeps :
      (m : Moment) (s : Server) (req : DecideRequest) (findings : List ScanFinding)
      (result : DecisionResult) (a i : Option String) (key : String) (c : IdempotentDecision)
      → (req.idempotency_key ≢ "" → lookup req.idempotency_key s.decisions ≡ none)
      → lookup key s.decisions ≡ some c
      → lookup key (store_decision wire codec m s req findings result a i).1.decisions ≡ some c
  unfolding store_decision
  store-keeps m s req findings result none i key c free h = h
  store-keeps m s req findings result (some a) none key c free h = h
  store-keeps m s req findings result (some a) (some i) key c free h =
      answer-keeps s req findings result _ _ key c free h

  look_up-free :
      (s : Server) (st : Stage DecideRequest) (r : DecideRequest)
      → look_up wire s st ≡ go r
      → r.idempotency_key ≢ ""
      → lookup r.idempotency_key s.decisions ≡ none
  unfolding look_up
  look_up-free s (stop x) r e k = cc
  look_up-free s (go req) r e k = elim (Bool-cases (req.idempotency_key == "")) [
    | inl b ↦
        let same : go req ≡ go r = (rw b at e) in
        let empty : req.idempotency_key ≡ "" = (eq_iff req.idempotency_key "").0 b in absurd (k cc)
    | inr b ↦
        let (same, missing, _, _) =
          look_up-go s req r e (λ same. cc (b, (eq_iff req.idempotency_key "").1 same)) in
        rw same missing
  ]

  decide-keeps :
      (m : Moment) (s : Server) (st : Stage DecideRequest) (key : String) (c : IdempotentDecision)
      → ((r : DecideRequest)
          → st ≡ go r
          → r.idempotency_key ≢ ""
          → lookup r.idempotency_key s.decisions ≡ none)
      → lookup key s.decisions ≡ some c
      → lookup key (decide wire scan codec m s st).1.decisions ≡ some c
  unfolding decide
  decide-keeps m s (stop r) key c free h = h
  decide-keeps m s (go r) key c free h = store-keeps m s r _ _ _ _ key c (free r refl) h

  -- The first decision for a key is final: no request to `handleDecide` changes or drops an entry of
  -- the cache.
  handle_decide_keeps :
      (m : Moment) (s : Server) (http : HttpRequest) (key : String) (c : IdempotentDecision)
      → lookup key s.decisions ≡ some c
      → lookup key (handle_decide wire scan codec m s http).1.decisions ≡ some c
  unfolding handle_decide
  handle_decide_keeps m s http key c h =
      decide-keeps m s _ key c (look_up-free s (admit wire http)) h
