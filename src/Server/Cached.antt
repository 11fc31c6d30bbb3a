-- ===== src/Server/Cached.antt =====
-- internal/server/server.go: what handleScan, handleTransform and handleAnonymize have in common. Each
-- tests the method, the content type and the body, looks into its own cache, computes its result, and
-- answers with the bytes that it puts into the cache, or with the result if there is no key.
use datafog.Prelude.{
  ℕ, String, true, false, not, Option, none, some, ◌≡◌, ◌≢◌, ◌==◌, refl, ap, sym, ◌∙◌, Dict, lookup,
  insert, if◌then◌else◌, arith, eq_iff, lookup-insert, Bool-cases, inl, inr,
}
use mathlib.Core.Path.{subst}
use datafog.Strings.{Unicode, Bytes}
use datafog.Server.Decide.{Wire, is_json_content_type}

-- the body behind `http.MaxBytesReader` and the decoder
pub data Posted (A : Type 0) : Type 0 where
  decoded : A → Posted A
  too_large malformed : Posted A

pub record PostRequest (A : Type 0) : Type 0 where
  pub method : String
  pub content_type : String
  pub body : Posted A

-- an error's status and code, the bytes of `respondRaw`, or the value that `respond` encodes
pub data Reply (R : Type 0) : Type 0 where
  failed : ℕ → String → Reply R
  raw : ℕ → Bytes → Reply R
  sent : R → Reply R

-- an early return, or what the handler goes on with
pub data Step (R A : Type 0) : Type 0 where
  stop : Reply R → Step R A
  go : A → Step R A

pub record CachedResponse : Type 0 where
  pub request_hash : String
  pub body : Bytes
  pub status : ℕ

module _ {R A : Type 0} where
  unfoldable pub decode_post : Posted A → Step R A
  decode_post (decoded req) = go req
  decode_post too_large = stop (failed 413 "request_too_large")
  decode_post malformed = stop (failed 400 "invalid_request")

  abbrev pub and_then : {B : Type 0} → Step R A → (A → Step R B) → Step R B
  and_then (stop r) f = stop r
  and_then (go a) f = f a

  unfoldable pub admit_post : ⦃u : Unicode⦄ → Wire → PostRequest A → Step R A
  unfolding decode_post
  admit_post ⦃u⦄ wire http =
      if not (http.method == "POST")
      then stop (failed 405 "method_not_allowed")
      else if not (is_json_content_type wire http.content_type)
      then stop (failed 415 "unsupported_media_type")
      else decode_post http.body

  -- the cached answer, or none
  unfoldable pub reuse : Option String → Option CachedResponse → A → Step R A
  reuse none cached req = stop (failed 400 "invalid_request")
  reuse (some hash) none req = go req
  reuse (some hash) (some cached) req =
      if cached.request_hash == hash
      then stop (raw cached.status cached.body)
      else stop (failed 409 "idempotency_conflict")

  unfoldable pub look_up_key : String → Option String → Dict CachedResponse → A → Step R A
  unfolding reuse
  look_up_key key hash cache req = if key == "" then go req else reuse hash (lookup key cache) req

-- the first hash did not fail, so that the second does not
abbrev pub entry_of : Option String → Bytes → CachedResponse
entry_of none body = record { request_hash = ""; body = body; status = 200 }
entry_of (some h) body = record { request_hash = h; body = body; status = 200 }

module _ {R : Type 0} where
  unfoldable pub store_reply :
      String → Option String → Option Bytes → Dict CachedResponse → Reply R × Dict CachedResponse
  store_reply key hash none cache = (failed 500 "encode_error", cache)
  store_reply key hash (some body) cache = (raw 200 body, insert key (entry_of hash body) cache)

  unfoldable pub reply :
      String
      → Option String
      → Option Bytes
      → R
      → Dict CachedResponse
      → Reply R × Dict CachedResponse
  unfolding store_reply
  reply key hash body res cache =
      if key == "" then (sent res, cache) else store_reply key hash body cache

module _ {R A : Type 0} (key : A → String) (hash : A → Option String)
    (marshal : R → Option Bytes) where
  unfoldable pub compute_reply :
      (A → R) → Dict CachedResponse → Step R A → Reply R × Dict CachedResponse
  unfolding reply
  compute_reply compute cache (stop r) = (r, cache)
  compute_reply compute cache (go req) =
      reply (key req) (hash req) (marshal (compute req)) (compute req) cache

  -- a handler from the look into the cache on
  unfoldable pub serve : (A → R) → Dict CachedResponse → Step R A → Reply R × Dict CachedResponse
  unfolding compute_reply look_up_key
  serve compute cache st =
      compute_reply compute cache (and_then st (λ req. look_up_key (key req) (hash req) cache req))

  -- the cache has this answer for the request
  IsCached : Dict CachedResponse → A → ℕ → Bytes → Type 0
  IsCached cache req status body =
      (c : CachedResponse) × (lookup (key req) cache ≡ some c)
      × (hash req ≡ some c.request_hash)
      × (c.status ≡ status)
      × (c.body ≡ body)

  keyed_test : (req : A) → key req ≢ "" → (key req == "") ≡ false
  keyed_test req k = ground (arith, eq_iff (key req) "")

  IsCached-serve :
      (compute : A → R) (cache : Dict CachedResponse) (req : A) (status : ℕ) (body : Bytes)
      → key req ≢ ""
      → IsCached cache req status body
      → serve compute cache (go req) ≡ (raw status body, cache)
  unfolding IsCached serve
  IsCached-serve compute cache req status body k (c, found, h, e, f) =
      rw (keyed_test req k, found, h, (eq_iff c.request_hash c.request_hash).1 refl, e, f) refl

  stored-IsCached :
      (cache : Dict CachedResponse) (req : A) (status : ℕ) (body : Bytes) (h : Option String)
      (x : String) (b : Option Bytes)
      → hash req ≡ h
      → h ≡ some x
      → (store_reply {R = R} (key req) h b cache).0 ≡ raw status body
      → IsCached (store_reply {R = R} (key req) h b cache).1 req status body
  unfolding store_reply IsCached
  stored-IsCached cache req status body h x none e f d = cc
  stored-IsCached cache req status body none x (some b) e f d = cc
  stored-IsCached cache req status body (some y) x (some b) e f d =
      let entry = entry_of (some y) b in
      let here : (key req == key req) ≡ true = (eq_iff (key req) (key req)).1 refl in
      (entry, lookup-insert (key req) (key req) entry cache ∙ (rw here refl), e, cc, cc)

  reuse-IsCached :
      (compute : A → R) (cache : Dict CachedResponse) (req : A) (status : ℕ) (body : Bytes)
      (h : Option String) (o : Option CachedResponse)
      → key req ≢ ""
      → hash req ≡ h
      → lookup (key req) cache ≡ o
      → (compute_reply compute cache (reuse h o req)).0 ≡ raw status body
      → IsCached (compute_reply compute cache (reuse h o req)).1 req status body
  unfolding reuse compute_reply IsCached
  reuse-IsCached compute cache req status body none o k e f d = cc
  reuse-IsCached compute cache req status body (some x) none k e f d = rw (keyed_test req k) (
      stored-IsCached cache req status body (hash req) x (marshal (compute req)) refl e
        (rw (keyed_test req k) at d))
  reuse-IsCached compute cache req status body (some x) (some c) k e f d =
      elim (Bool-cases (c.request_hash == x)) [
        | inl b ↦
            let same : c.request_hash ≡ x = (eq_iff c.request_hash x).0 b in
            let answered : ◌≡◌ {A = Reply R} (raw c.status c.body) (raw status body) =
              (rw b at d) in
            rw b (c, f, e ∙ ap some (sym same), cc, cc)
        | inr b ↦ cc
      ]

  serve-keyed :
      (compute : A → R) (cache : Dict CachedResponse) (req : A)
      → key req ≢ ""
      → serve compute cache (go req)
        ≡ compute_reply compute cache (reuse (hash req) (lookup (key req) cache) req)
  unfolding serve
  serve-keyed compute cache req k = rw (keyed_test req k) refl

  serve-IsCached :
      (compute : A → R) (cache : Dict CachedResponse) (req : A) (status : ℕ) (body : Bytes)
      → key req ≢ ""
      → (serve compute cache (go req)).0 ≡ raw status body
      → IsCached (serve compute cache (go req)).1 req status body
  serve-IsCached compute cache req status body k d =
      let opened : serve compute cache (go req)
          ≡ compute_reply compute cache (reuse (hash req) (lookup (key req) cache) req) =
        serve-keyed compute cache req k in
      subst (λ r. IsCached r.1 req status body) (sym opened)
        (reuse-IsCached compute cache req status body (hash req) (lookup (key req) cache) k refl
          refl (ap (λ r. r.0) (sym opened) ∙ d))

  -- After an answer in bytes to a request with a key, a request with the same key and the same hash
  -- gets the same answer, whatever would be computed for it, and leaves the cache as it is.
  pub serve_again :
      (compute again : A → R) (cache : Dict CachedResponse) (req later : A) (status : ℕ)
      (body : Bytes)
      → key req ≢ ""
      → key later ≡ key req
      → hash later ≡ hash req
      → (serve compute cache (go req)).0 ≡ raw status body
      → serve again (serve compute cache (go req)).1 (go later)
        ≡ (raw status body, (serve compute cache (go req)).1)
  unfolding IsCached
  serve_again compute again cache req later status body k same_key same_hash d =
      let (c, found, h, e, f) = serve-IsCached compute cache req status body k d in
      IsCached-serve again _ later status body (λ empty. k (sym same_key ∙ empty))
        (
          c,
          ap (λ x. lookup x (serve compute cache (go req)).1) same_key ∙ found,
          same_hash ∙ h,
          e,
          f,
        )
