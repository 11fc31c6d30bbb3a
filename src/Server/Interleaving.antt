-- ===== src/Server/Interleaving.antt =====
-- What holds of `handleDecide` however the requests in flight interleave.
use datafog.Prelude.{ℕ, String, ◌≡◌, ap, sym, ◌∙◌, inl, inr, none, some, List, [], lookup}
use datafog.Strings.{Unicode, Bytes}
use datafog.Models.{ScanFinding, DecideRequest, DecideResponse}
use datafog.Receipts.{Codec}
use datafog.Server.Decide.{
  Wire, HttpRequest, decided, IdempotentDecision, Moment, go, admit, hash_decide_request,
}
use datafog.Server.Steps.{
  hash_text, update_same, update-cases, IsCached, advance-lookup, advance-stopped, advance-answered,
}
use datafog.Server.Concurrent.{
  Phase, arrived, stopped, answered, Traffic, update, advance, turn, Step, pick, Reach, start,
  later,
}

module _ ⦃u : Unicode⦄ (wire : Wire) where
  -- some request with this key and this hash was given this answer
  unfoldable pub WasDecided : (ℕ → Phase) → String → String → DecideResponse → Type 0
  WasDecided phases key hash res =
      (j : ℕ) × (req : DecideRequest) × (phases j ≡ answered req res)
      × (req.idempotency_key ≡ key)
      × (hash_text (hash_decide_request wire req) ≡ hash)

  -- every entry of the cache is the answer that some request with its key and its hash was given
  pub IsBacked : Traffic → Type 0
  IsBacked t =
      (key : String) (e : IdempotentDecision)
      → lookup key t.server.decisions ≡ some e
      → WasDecided t.phases key e.request_hash e.response

  -- and so is every answer that the cache gave
  pub IsReplayed : (ℕ → Phase) → HttpRequest → DecideResponse → Type 0
  IsReplayed phases http res =
      (req : DecideRequest) × (hash : String) × (admit wire http ≡ go req)
      × (hash_decide_request wire req ≡ some hash)
      × WasDecided phases req.idempotency_key hash res

  IsConsistent : Traffic → Type 0
  IsConsistent t =
      IsBacked t
      × ((i : ℕ) (http : HttpRequest) (res : DecideResponse)
          → t.phases i ≡ stopped http (decided res)
          → IsReplayed t.phases http res)

  update-WasDecided :
      (phases : ℕ → Phase) (i : ℕ) (p : Phase) (key hash : String) (res : DecideResponse)
      → ((req : DecideRequest) (r : DecideResponse)
          → phases i ≡ answered req r
          → p ≡ answered req r)
      → WasDecided phases key hash res
      → WasDecided (update phases i p) key hash res
  unfolding WasDecided
  update-WasDecided phases i p key hash res stays (j, req, done, k, h) =
      elim (update-cases phases i p j) [
        | inl (same, e) ↦ (j, req, e ∙ stays req res (ap phases same ∙ done), k, h)
        | inr e ↦ (j, req, e ∙ done, k, h)
      ]

  module _ (scan : Bytes → List ScanFinding) (codec : Codec) where
    turn_keeps :
        (t : Traffic) (i : ℕ) (key hash : String) (res : DecideResponse)
        → WasDecided t.phases key hash res
        → WasDecided (turn wire scan codec i t).phases key hash res
    unfolding turn
    turn_keeps t i key hash res =
        update-WasDecided t.phases i (advance wire scan codec t.server (t.phases i)).0 key hash res
          (λ req r. advance-answered wire scan codec t.server (t.phases i) req r)

    turn-IsBacked : (t : Traffic) (i : ℕ) → IsBacked t → IsBacked (turn wire scan codec i t)
    unfolding IsBacked turn WasDecided
    turn-IsBacked t i backed key e h =
        elim (advance-lookup wire scan codec t.server (t.phases i) key e h) [
          | inl old ↦ turn_keeps t i key e.request_hash e.response (backed key e old)
          | inr (req, is, k, hash) ↦ (i, req, update_same t.phases i _ ∙ is, k, hash)
        ]

    keep-IsReplayed :
        (t : Traffic) (i : ℕ) (http : HttpRequest) (res : DecideResponse)
        → IsReplayed t.phases http res
        → IsReplayed (turn wire scan codec i t).phases http res
    unfolding IsReplayed
    keep-IsReplayed t i http res (req, hash, a, is, was) =
        (req, hash, a, is, turn_keeps t i req.idempotency_key hash res was)

    cached-IsReplayed :
        (t : Traffic) (i : ℕ) (http : HttpRequest) (res : DecideResponse)
        → IsBacked t
        → IsCached wire t.server http res
        → IsReplayed (turn wire scan codec i t).phases http res
    unfolding IsReplayed IsBacked IsCached
    cached-IsReplayed t i http res backed (req, hash, e, a, is, there, same, response) = (
      req,
      hash,
      a,
      is,
      rw (← same, ← response)
          (turn_keeps t i req.idempotency_key e.request_hash e.response
            (backed req.idempotency_key e there)),
    )

    turn-IsReplayed :
        (t : Traffic) (i j : ℕ) (http : HttpRequest) (res : DecideResponse)
        → IsConsistent t
        → (turn wire scan codec i t).phases j ≡ stopped http (decided res)
        → IsReplayed (turn wire scan codec i t).phases http res
    unfolding IsConsistent turn
    turn-IsReplayed t i j http res (backed, replays) h =
        let next = (advance wire scan codec t.server (t.phases i)).0 in
        elim (update-cases t.phases i next j) [
          | inr e ↦ keep-IsReplayed t i http res (replays j http res (sym e ∙ h))
          | inl (same, e) ↦
              elim (advance-stopped wire scan codec t.server (t.phases i) http res (sym e ∙ h)) [
                | inl before ↦ keep-IsReplayed t i http res (replays i http res before)
                | inr cached ↦ cached-IsReplayed t i http res backed cached
              ]
        ]

    Step-IsConsistent : {x y : Traffic} → Step wire scan codec x y → IsConsistent x → IsConsistent y
    unfolding IsConsistent
    Step-IsConsistent {x} (pick i) (backed, replays) = (
      turn-IsBacked x i backed,
      λ j http res h. turn-IsReplayed x i j http res (backed, replays) h,
    )

    Reach-IsConsistent :
        {x y : Traffic} → Reach wire scan codec x y → IsConsistent x → IsConsistent y
    Reach-IsConsistent start h = h
    Reach-IsConsistent (later r st) h = Step-IsConsistent st (Reach-IsConsistent r h)

    empty-IsConsistent :
        (t : Traffic)
        → t.server.decisions ≡ []
        → ((i : ℕ) → (http : HttpRequest) × (m : Moment) × (t.phases i ≡ arrived http m))
        → IsConsistent t
    unfolding IsConsistent IsBacked lookup
    empty-IsConsistent t empty fresh = (
      λ key e h. let no : none ≡ some e = (rw empty at h) in cc,
      λ i http res h. let (post, m, is) = fresh i in cc (sym is ∙ h),
    )

    -- However the requests in flight interleave, from a server whose cache is empty: every answer that
    -- the cache gave to a request is one that some request with the same key and the same hash was
    -- given by the policy and the store.
    pub replays_are_answers :
        {x y : Traffic}
        → x.server.decisions ≡ []
        → ((i : ℕ) → (http : HttpRequest) × (m : Moment) × (x.phases i ≡ arrived http m))
        → Reach wire scan codec x y
        → (i : ℕ) (http : HttpRequest) (res : DecideResponse)
        → y.phases i ≡ stopped http (decided res)
        → IsReplayed y.phases http res
    unfolding IsConsistent
    replays_are_answers {x} empty fresh r =
        (Reach-IsConsistent r (empty-IsConsistent x empty fresh)).1
