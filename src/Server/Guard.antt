-- ===== src/Server/Guard.antt =====
-- What the middleware lets through, and what it counts.
use datafog.Prelude.{
  ℕ, String, Bool, true, false, Option, none, some, ◌≡◌, ◌≢◌, refl, ap, sym, ◌∙◌, ◌==◌, eqb, arith,
  eq_iff, Bool-cases, inl, inr, ◌⊎◌,
}
use mathlib.Core.Path.{subst}
use datafog.Strings.{Unicode}
use datafog.Server.Limiter.{Float64, allow}
use datafog.Server.Metrics.{Completed, record_request_metrics}
use datafog.Server.Middleware.{
  Incoming, authorized, nothing_written, write_header, write_if, client_status, refuse, run_handler,
  Served, Front, Handled, serve_http, settle, route_of, complete, wrap_middleware,
}

not_zero : (c : ℕ) → c ≢ 0 → eqb c 0 ≡ false
not_zero c h = ground (arith, h)

abbrev completed_of : ℕ → Incoming → ℕ → Completed
completed_of latency r status = record {
  method = r.method;
  route = route_of r;
  status = status;
  latency_ns = latency;
}

-- a handler that panics has written no status, and none writes 0
abbrev pub IsAnswered : {S : Type 0} → Served S → Type 0
IsAnswered served = (served.panicked ≡ true → served.written ≡ none) × (served.written ≢ some 0)

written-IsSettled :
    (written : Option ℕ) (panicked : Bool)
    → (panicked ≡ true → written ≡ none)
    → (written ≢ some 0)
    → let w = settle panicked (write_if written nothing_written) in w.status ≡ client_status w.sent
unfolding settle write_header
written-IsSettled none true h k = refl
written-IsSettled none false h k = refl
written-IsSettled (some c) true h k = cc (h refl)
written-IsSettled (some c) false h k =
    let some_status : eqb c 0 ≡ false = not_zero c (λ e. k (ap some e)) in rw some_status refl

refused_other :
    ⦃u : Unicode⦄ (api_token : String) (r : Incoming) (P : Type 0)
    → authorized api_token r ≡ true
    → authorized api_token r ≡ false
    → P
refused_other api_token r P e f = cc

module _ {F S : Type 0} ⦃u : Unicode⦄ ⦃float : Float64 F⦄ (api_token : String) (now latency : ℕ)
    (handle : S → Served S) where
  -- the request is counted with a status, and the handler ran only for a caller with the token,
  -- within the limit, on a route that there is
  pub record IsGuarded (r : Incoming) (before : Front F S) (after : ℕ × Front F S) : Type 0 where
    pub counted :
        after.1.metrics ≡ record_request_metrics (completed_of latency r after.0) before.metrics
    pub handled :
        (after.1.state ≡ before.state)
        ⊎ ((authorized api_token r ≡ true)
            × ((allow now before.limiter).0 ≡ true)
            × (r.pattern ≢ "")
            × (after.1.state ≡ (handle before.state).state))
    pub refused :
        authorized api_token r ≡ false → (after.0 ≡ 401) × (after.1.limiter ≡ before.limiter)

  IsSettled : Handled F S → Type 0
  IsSettled h =
      (settle h.panicked h.writer).status ≡ client_status (settle h.panicked h.writer).sent

  complete-IsGuarded :
      (r : Incoming) (before : Front F S) (h : Handled F S)
      → IsSettled h
      → h.front.metrics ≡ before.metrics
      → ((h.front.state ≡ before.state)
          ⊎ ((authorized api_token r ≡ true)
              × ((allow now before.limiter).0 ≡ true)
              × (r.pattern ≢ "")
              × (h.front.state ≡ (handle before.state).state)))
      → (authorized api_token r ≡ false
          → (client_status (settle h.panicked h.writer).sent ≡ 401)
            × (h.front.limiter ≡ before.limiter))
      → IsGuarded r before (complete latency r h)
  unfolding complete IsSettled
  complete-IsGuarded r before h settled metrics handled refused = record {
    counted =
        ap (λ status. record_request_metrics (completed_of latency r status) h.front.metrics)
          settled
        ∙ ap
            (record_request_metrics
              (completed_of latency r (client_status (settle h.panicked h.writer).sent)))
            metrics;
    handled = handled;
    refused = refused;
  }

  -- from what the guards and the handler come to
  by_outcome :
      (r : Incoming) (before : Front F S) (h : Handled F S)
      → serve_http api_token now handle r before ≡ h
      → IsGuarded r before (complete latency r h)
      → IsGuarded r before (complete latency r (serve_http api_token now handle r before))
  by_outcome r before h e = subst (λ x. IsGuarded r before (complete latency r x)) (sym e)

  serve-IsGuarded :
      (r : Incoming) (before : Front F S)
      → IsAnswered (handle before.state)
      → IsGuarded r before (complete latency r (serve_http api_token now handle r before))
  unfolding serve_http settle write_header IsSettled
  serve-IsGuarded r before (unpanicked, some_status) =
      let limited = record before { limiter = (allow now before.limiter).1 } in
      elim (Bool-cases (authorized api_token r)) [
        | inr e ↦ by_outcome r before (refuse 401 before) (rw e refl) (
            complete-IsGuarded r before (refuse 401 before) refl refl (inl refl)
              (λ _. (refl, refl)))
        | inl e ↦ elim (Bool-cases (allow now before.limiter).0) [
          | inr a ↦ by_outcome r before (refuse 429 limited) (rw (e, a) refl) (
              complete-IsGuarded r before (refuse 429 limited) refl refl (inl refl)
                (refused_other api_token r _ e))
          | inl a ↦ elim (Bool-cases (r.pattern == "")) [
            | inl p ↦ by_outcome r before (refuse 404 limited) (rw (e, a, p) refl) (
                complete-IsGuarded r before (refuse 404 limited) refl refl (inl refl)
                  (refused_other api_token r _ e))
            | inr p ↦
                let served = handle before.state in
                by_outcome r before (run_handler served limited) (rw (e, a, p) refl) (
                  complete-IsGuarded r before (run_handler served limited)
                    (written-IsSettled served.written served.panicked unpanicked some_status) refl
                    (inr (e, a, (λ same. cc (p, (eq_iff r.pattern "").1 same)), refl))
                    (refused_other api_token r _ e))
          ]
        ]
      ]

  -- A request other than OPTIONS is counted once, with the status that the client gets; what the
  -- handlers share changes only by the handler, and only for a caller with the token, within the rate
  -- limit, on a known route; and a caller without the token gets 401 and uses up no token of the
  -- limiter. This is so if the handler does not panic after it has written a status.
  pub wrap_middleware-IsGuarded :
      (r : Incoming) (front : Front F S)
      → r.method ≢ "OPTIONS"
      → IsAnswered (handle front.state)
      → IsGuarded r front (wrap_middleware api_token now latency handle r front)
  unfolding wrap_middleware
  wrap_middleware-IsGuarded r front m answered =
      let no_options : (r.method == "OPTIONS") ≡ false =
        ground (arith, m, eq_iff r.method "OPTIONS") in
      rw no_options (serve-IsGuarded r front answered)
