-- ===== src/Server/Steps.antt =====
-- What one step of `handleDecide` does to the cache, and what an answer from the cache rests on.
use datafog.Prelude.{
  ℕ, String, Bool, true, false, ◌≡◌, refl, ap, sym, ◌∙◌, ◌⊎◌, inl, inr, Option, none, some, List,
  Dict, ◌==◌, eq_iff, eqb, arith, lookup, insert, lookup-insert, if◌then◌else◌, Bool-cases,
}
use datafog.Strings.{Unicode, Bytes}
use datafog.Models.{ScanFinding, DecideRequest, DecideResponse, Receipt}
use datafog.Policy.Evaluate.{DecisionResult}
use datafog.Receipts.{Codec, Result, ok, err, World}
use datafog.Server.Decide.{
  Wire, HttpRequest, Response, error, decided, IdempotentDecision, Server, Moment, Stage, stop, go,
  Body, decoded, admit, is_json_content_type, require_action, decode_body, look_up, replay, answer,
  remember, hash_decide_request,
}
use datafog.Server.Concurrent.{
  Phase, arrived, missed, saved, stopped, failed, answered, update, after_look, keep_response,
  save_decision, advance,
}

pub update_same {ℓ} : {A : Type ℓ} (f : ℕ → A) (i : ℕ) (x : A) → update f i x i ≡ x
unfolding update
update_same f i x = elim (Bool-cases (eqb i i)) [
  | inl e ↦ rw e refl
  | inr e ↦ absurd (ground (arith, e))
]

pub update-cases {ℓ} :
    {A : Type ℓ} (f : ℕ → A) (i : ℕ) (x : A) (j : ℕ)
    → ((i ≡ j) × (update f i x j ≡ x)) ⊎ (update f i x j ≡ f j)
unfolding update
update-cases f i x j = elim (Bool-cases (eqb i j)) [
  | inl e ↦ inl (ground (arith, e), rw e refl)
  | inr e ↦ inr (rw e refl)
]

abbrev is_decided_stage : Stage DecideRequest → Bool
is_decided_stage (stop (error status code)) = false
is_decided_stage (stop (decided res)) = true
is_decided_stage (go req) = false

-- what `remember` writes as the hash of a request
abbrev pub hash_text : Option String → String
hash_text none = ""
hash_text (some h) = h

text_of : (o : Option String) → hash_text o ≡ elim o [ none ↦ "" | some h ↦ h ]
text_of none = refl
text_of (some h) = refl

inserted {ℓ} :
    {V : Type ℓ} (written asked : String) (value found : V) (dict : Dict V)
    → lookup asked (insert written value dict) ≡ some found
    → (lookup asked dict ≡ some found) ⊎ ((written ≡ asked) × (value ≡ found))
inserted {V} written asked value found dict h =
    let now : (if written == asked then some value else lookup asked dict) ≡ some found =
      sym (lookup-insert written asked value dict) ∙ h in
    elim (Bool-cases (written == asked)) [
      | inl e ↦ inr ((eq_iff written asked).0 e, cc (rw e at now))
      | inr e ↦ inl (rw e at now)
    ]

module _ ⦃u : Unicode⦄ (wire : Wire) where
  remember-lookup :
      (req : DecideRequest) (res : DecideResponse) (s : Server) (key : String)
      (e : IdempotentDecision)
      → lookup key (remember wire req res s).decisions ≡ some e
      → (lookup key s.decisions ≡ some e)
        ⊎ ((e.response ≡ res)
            × (req.idempotency_key ≡ key)
            × (hash_text (hash_decide_request wire req) ≡ e.request_hash))
  unfolding remember
  remember-lookup req res s key e h = elim (Bool-cases (req.idempotency_key == "")) [
    | inl none_given ↦ inl (rw none_given at h)
    | inr given ↦ elim (inserted req.idempotency_key key _ e s.decisions (rw given at h)) [
      | inl old ↦ inl old
      | inr (same, new) ↦ inr (
        ap (λ d. d.response) (sym new),
        same,
        text_of (hash_decide_request wire req) ∙ ap (λ d. d.request_hash) new,
      )
    ]
  ]

  keep-decisions :
      (s : Server) (req : DecideRequest) (findings : List ScanFinding) (result : DecisionResult)
      (x : Result Receipt × World)
      → (keep_response wire s req findings result x).1.decisions ≡ s.decisions
  unfolding keep_response
  keep-decisions s req findings result (err e, w) = refl
  keep-decisions s req findings result (ok receipt, w) = refl

  save-decisions :
      (codec : Codec) (m : Moment) (s : Server) (req : DecideRequest) (findings : List ScanFinding)
      (result : DecisionResult) (a i : Option String)
      → (save_decision wire codec m s req findings result a i).1.decisions ≡ s.decisions
  unfolding save_decision
  save-decisions codec m s req findings result none i = refl
  save-decisions codec m s req findings result (some a) none = refl
  save-decisions codec m s req findings result (some a) (some i) =
      keep-decisions s req findings result _

  abbrev is_stopped : Phase → Bool
  is_stopped (stopped http r) = true
  is_stopped _ = false

  keep_goes_on :
      (s : Server) (req : DecideRequest) (findings : List ScanFinding) (result : DecisionResult)
      (x : Result Receipt × World)
      → is_stopped (keep_response wire s req findings result x).0 ≡ false
  unfolding keep_response
  keep_goes_on s req findings result (err e, w) = refl
  keep_goes_on s req findings result (ok receipt, w) = refl

  save_goes_on :
      (codec : Codec) (m : Moment) (s : Server) (req : DecideRequest) (findings : List ScanFinding)
      (result : DecisionResult) (a i : Option String)
      → is_stopped (save_decision wire codec m s req findings result a i).0 ≡ false
  unfolding save_decision
  save_goes_on codec m s req findings result none i = refl
  save_goes_on codec m s req findings result (some a) none = refl
  save_goes_on codec m s req findings result (some a) (some i) =
      keep_goes_on s req findings result _

  replayed :
      (h : Option String) (cached : Option IdempotentDecision) (req : DecideRequest)
      (res : DecideResponse)
      → replay h cached req ≡ stop (decided res)
      → (hash : String) × (e : IdempotentDecision) × (h ≡ some hash)
        × (cached ≡ some e)
        × (e.request_hash ≡ hash)
        × (e.response ≡ res)
  unfolding replay
  replayed none cached req res h = cc
  replayed (some hash) none req res h = cc
  replayed (some hash) (some e) req res h = elim (Bool-cases (e.request_hash == hash)) [
    | inl same ↦ (hash, e, refl, refl, (eq_iff e.request_hash hash).0 same, cc (rw same at h))
    | inr other ↦ cc (rw other at h)
  ]

  -- what an answer of the look into the cache rests on
  unfoldable pub IsCached : Server → HttpRequest → DecideResponse → Type 0
  IsCached s http res =
      (req : DecideRequest) × (hash : String) × (e : IdempotentDecision) × (admit wire http
        ≡ go req)
      × (hash_decide_request wire req ≡ some hash)
      × (lookup req.idempotency_key s.decisions ≡ some e)
      × (e.request_hash ≡ hash)
      × (e.response ≡ res)

  looked_up :
      (s : Server) (http : HttpRequest) (x : Stage DecideRequest) (res : DecideResponse)
      → admit wire http ≡ x
      → is_decided_stage x ≡ false
      → look_up wire s x ≡ stop (decided res)
      → IsCached s http res
  unfolding look_up IsCached
  looked_up s http (stop (error status code)) res a n h = cc
  looked_up s http (stop (decided r)) res a n h = cc
  looked_up s http (go req) res a n h = elim (Bool-cases (req.idempotency_key == "")) [
    | inl e ↦ cc (rw e at h)
    | inr e ↦
        let (hash, entry, is, there, same, response) =
          replayed (hash_decide_request wire req) (lookup req.idempotency_key s.decisions) req res
            (rw e at h) in
        (req, hash, entry, a, is, there, same, response)
  ]

  look-stopped :
      (post http : HttpRequest) (m : Moment) (x : Stage DecideRequest) (r : Response)
      → after_look post m x ≡ stopped http r
      → (post ≡ http) × (x ≡ stop r)
  look-stopped post http m (stop answer) r h = (cc, cc)
  look-stopped post http m (go req) r h = cc

  body_undecided : (b : Body) → is_decided_stage (require_action (decode_body b)) ≡ false
  unfolding require_action decode_body
  body_undecided (decoded req) = elim (Bool-cases (req.action.type == "")) [
    | inl e ↦ rw e refl
    | inr e ↦ rw e refl
  ]
  body_undecided Body.too_large = refl
  body_undecided Body.malformed = refl

  admit_undecided : (http : HttpRequest) → is_decided_stage (admit wire http) ≡ false
  unfolding admit
  admit_undecided http = elim (Bool-cases (http.method == "POST")) [
    | inr e ↦ rw e refl
    | inl e ↦ elim (Bool-cases (is_json_content_type wire http.content_type)) [
      | inr t ↦ rw (e, t) refl
      | inl t ↦ rw (e, t) (body_undecided http.body)
    ]
  ]

  module _ (scan : Bytes → List ScanFinding) (codec : Codec) where
    pub advance-lookup :
        (s : Server) (p : Phase) (key : String) (e : IdempotentDecision)
        → lookup key (advance wire scan codec s p).1.decisions ≡ some e
        → (lookup key s.decisions ≡ some e)
          ⊎ ((req : DecideRequest) × ((advance wire scan codec s p).0 ≡ answered req e.response)
              × (req.idempotency_key ≡ key)
              × (hash_text (hash_decide_request wire req) ≡ e.request_hash))
    unfolding advance
    advance-lookup s (arrived http m) key e h = inl h
    advance-lookup s (missed m req) key e h =
        inl (sym (ap (lookup key) (save-decisions codec m s req _ _ _ _)) ∙ h)
    advance-lookup s (saved req res) key e h = elim (remember-lookup req res s key e h) [
      | inl old ↦ inl old
      | inr (is, k, hash) ↦ inr (req, ap (answered req) (sym is), k, hash)
    ]
    advance-lookup s (stopped http r) key e h = inl h
    advance-lookup s (failed status code) key e h = inl h
    advance-lookup s (answered req res) key e h = inl h

    pub advance-stopped :
        (s : Server) (p : Phase) (http : HttpRequest) (res : DecideResponse)
        → (advance wire scan codec s p).0 ≡ stopped http (decided res)
        → (p ≡ stopped http (decided res)) ⊎ IsCached s http res
    unfolding advance
    advance-stopped s (arrived post m) http res h =
        let (same, is) =
          look-stopped post http m (look_up wire s (admit wire post)) (decided res) h in
        inr (
          looked_up s http (admit wire http) res refl (admit_undecided http)
            (ap (λ x. look_up wire s (admit wire x)) (sym same) ∙ is))
    advance-stopped s (missed m req) http res h =
        cc (ap is_stopped h, save_goes_on codec m s req _ _ _ _)
    advance-stopped s (saved req r) http res h = cc
    advance-stopped s (stopped http' r) http res h = inl h
    advance-stopped s (failed status code) http res h = cc
    advance-stopped s (answered req r) http res h = cc

    pub advance-answered :
        (s : Server) (p : Phase) (req : DecideRequest) (r : DecideResponse)
        → p ≡ answered req r
        → (advance wire scan codec s p).0 ≡ answered req r
    unfolding advance
    advance-answered s p req r h = rw h refl
