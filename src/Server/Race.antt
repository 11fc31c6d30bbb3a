-- ===== src/Server/Race.antt =====
-- Two requests that both look into the cache before either writes to it.
use datafog.Prelude.{
  ℕ, String, true, false, ◌≡◌, refl, ap, ◌∙◌, inl, inr, Option, none, some, List, [], ◌∷◌, eqb,
  arith, ◌==◌, Bool-cases,
}
use datafog.Strings.{Unicode, Bytes}
use datafog.Models.{ScanFinding, DecideRequest, DecideResponse, Receipt}
use datafog.Policy.Evaluate.{DecisionResult}
use datafog.Receipts.{Codec, Result, ok, err, World}
use datafog.Server.Decide.{
  Wire, HttpRequest, Response, decided, Server, Moment, Stage, stop, go, admit, look_up, remember,
  answer, store_decision, decide, handle_decide,
}
use datafog.Server.Concurrent.{
  Phase, arrived, missed, saved, answered, Traffic, update, keep_response, save_decision, advance,
  turn,
}

eqb_refl : (i : ℕ) → eqb i i ≡ true
eqb_refl i = elim (Bool-cases (eqb i i)) [ inl e ↦ e | inr e ↦ absurd (ground (arith, e)) ]

eqb_apart : (i j : ℕ) → eqb i j ≡ false → eqb j i ≡ false
eqb_apart i j e = ground (arith, e)

response_in : DecideResponse → Response → DecideResponse
response_in other (decided res) = res
response_in other _ = other

of_decided : (x y : DecideResponse) → decided x ≡ decided y → x ≡ y
unfolding response_in
of_decided x y h = ap (response_in x) h

-- how far a request is, and the server
record IsAt (t : Traffic) (i j : ℕ) (p q : Phase) (s : Server) : Type 0 where
  first : t.phases i ≡ p
  second : t.phases j ≡ q
  server : t.server ≡ s

module _ ⦃u : Unicode⦄ (wire : Wire) (scan : Bytes → List ScanFinding) (codec : Codec) where
  -- the requests that do their next steps, in their order
  abbrev pub play : List ℕ → Traffic → Traffic
  play [] t = t
  play (i ∷ is) t = play is (turn wire scan codec i t)

  turn_first :
      (t : Traffic) (i j : ℕ) (p q p' : Phase) (s s' : Server)
      → eqb i j ≡ false
      → IsAt t i j p q s
      → advance wire scan codec s p ≡ (p', s')
      → IsAt (turn wire scan codec i t) i j p' q s'
  unfolding turn update
  turn_first t i j p q p' s s' apart at e = record {
    first = rw (eqb_refl i, at.first, at.server, e) refl;
    second = rw (apart, at.second) refl;
    server = rw (at.first, at.server, e) refl;
  }

  swap : (t : Traffic) (i j : ℕ) (p q : Phase) (s : Server) → IsAt t i j p q s → IsAt t j i q p s
  swap t i j p q s at = record { first = at.second; second = at.first; server = at.server }

  turn_second :
      (t : Traffic) (i j : ℕ) (p q q' : Phase) (s s' : Server)
      → eqb i j ≡ false
      → IsAt t i j p q s
      → advance wire scan codec s q ≡ (q', s')
      → IsAt (turn wire scan codec j t) i j p q' s'
  turn_second t i j p q q' s s' apart at e =
      swap _ j i q' p s'
        (turn_first t j i q p q' s s' (eqb_apart i j apart) (swap t i j p q s at) e)

  keep-decided :
      (s : Server) (req : DecideRequest) (findings : List ScanFinding) (verdict : DecisionResult)
      (x : Result Receipt × World) (res : DecideResponse)
      → (answer wire s req findings verdict x).0 ≡ decided res
      → keep_response wire s req findings verdict x
        ≡ (saved req res, record s { world = (answer wire s req findings verdict x).1.world })
  unfolding keep_response answer remember
  keep-decided s req findings verdict (err e, w) res h = cc
  keep-decided s req findings verdict (ok receipt, w) res h =
      elim (Bool-cases (req.idempotency_key == "")) [
        | inl e ↦ rw e (ap (λ r. (saved req r, record s { world = w })) (of_decided _ _ h))
        | inr e ↦ rw e (ap (λ r. (saved req r, record s { world = w })) (of_decided _ _ h))
      ]

  save-decided :
      (m : Moment) (s : Server) (req : DecideRequest) (findings : List ScanFinding)
      (verdict : DecisionResult) (a i : Option String) (res : DecideResponse)
      → (store_decision wire codec m s req findings verdict a i).0 ≡ decided res
      → save_decision wire codec m s req findings verdict a i ≡ (
        saved req res,
        record s { world = (store_decision wire codec m s req findings verdict a i).1.world },
      )
  unfolding save_decision store_decision
  save-decided m s req findings verdict none i res h = cc
  save-decided m s req findings verdict (some a) none res h = cc
  save-decided m s req findings verdict (some a) (some i) res h =
      keep-decided s req findings verdict _ res h

  -- a request that found no entry saves the receipt that the handler saves
  missed-saved :
      (http : HttpRequest) (m : Moment) (s : Server) (req : DecideRequest) (res : DecideResponse)
      → look_up wire s (admit wire http) ≡ go req
      → (handle_decide wire scan codec m s http).0 ≡ decided res
      → advance wire scan codec s (missed m req)
        ≡ (saved req res, record s { world = (handle_decide wire scan codec m s http).1.world })
  unfolding handle_decide decide advance
  missed-saved http m s req res e h = rw e (save-decided m s req _ _ _ _ res (rw e at h))

  look_up-world :
      (s : Server) (w : World) (x : Stage DecideRequest)
      → look_up wire (record s { world = w }) x ≡ look_up wire s x
  unfolding look_up
  look_up-world s w (stop r) = refl
  look_up-world s w (go req) = refl

  remember-world :
      (req : DecideRequest) (res : DecideResponse) (s : Server)
      → (remember wire req res s).world ≡ s.world
  unfolding remember
  remember-world req res s = elim (Bool-cases (req.idempotency_key == "")) [
    | inl e ↦ rw e refl
    | inr e ↦ rw e refl
  ]

  -- Two requests of which neither finds an entry in the cache, and whose looks into it, saves and writes
  -- to it alternate, are both answered by decisions of their own, even if they name one key: the
  -- first as the handler answers it alone, the second as the handler answers it with the first's
  -- receipt in the store and no entry in the cache, where these answers are decisions. The store is
  -- left as the two decisions leave it one after the other, so with the saves of both.
  pub race_decides_both :
      (t : Traffic) (i j : ℕ) (first second : HttpRequest) (m n : Moment)
      (req later_req : DecideRequest) (res later_res : DecideResponse)
      → eqb i j ≡ false
      → t.phases i ≡ arrived first m
      → t.phases j ≡ arrived second n
      → look_up wire t.server (admit wire first) ≡ go req
      → look_up wire t.server (admit wire second) ≡ go later_req
      → let alone = handle_decide wire scan codec m t.server first in
        let behind =
          handle_decide wire scan codec n (record (t.server) { world = alone.1.world }) second in
        alone.0 ≡ decided res
        → behind.0 ≡ decided later_res
        → let after = play (i ∷ j ∷ i ∷ j ∷ i ∷ j ∷ []) t in
          (after.phases i ≡ answered req res)
          × (after.phases j ≡ answered later_req later_res)
          × (after.server.world ≡ behind.1.world)
  unfolding advance
  race_decides_both t i j first second m n req later_req res later_res apart at_i at_j go_i go_j h
        k =
      let w = (handle_decide wire scan codec m t.server first).1.world in
      let s = record (t.server) { world = w } in
      let w' = (handle_decide wire scan codec n s second).1.world in
      let s' = record (t.server) { world = w' } in
      let s'' = remember wire req res s' in
      let t0 : IsAt t i j (arrived first m) (arrived second n) t.server = record {
        first = at_i;
        second = at_j;
        server = refl;
      } in
      let t1 = turn_first t i j _ _ (missed m req) _ t.server apart t0 (rw go_i refl) in
      let t2 = turn_second _ i j _ _ (missed n later_req) _ t.server apart t1 (rw go_j refl) in
      let t3 =
        turn_first _ i j _ _ (saved req res) _ s apart t2
          (missed-saved first m t.server req res go_i h) in
      let t4 = turn_second _ i j _ _ (saved later_req later_res) _ s' apart t3 (
        missed-saved second n s later_req later_res
          (look_up-world t.server w (admit wire second) ∙ go_j) k) in
      let t5 = turn_first _ i j _ _ (answered req res) _ s'' apart t4 refl in
      let t6 =
        turn_second _ i j _ _ (answered later_req later_res) _
          (remember wire later_req later_res s'') apart t5 refl in
      (
        t6.first,
        t6.second,
        ap (λ x. x.world) t6.server
            ∙ remember-world later_req later_res s''
            ∙ remember-world req res s',
      )
