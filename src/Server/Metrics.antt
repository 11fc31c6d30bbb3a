-- ===== src/Server/Metrics.antt =====
-- internal/server/server.go: what the server counts of its requests, `recordRequestMetrics`.
use datafog.Prelude.{
  ℕ, ◌+◌, String, Bool, true, List, [], ◌∷◌, ◌==◌, ◌≡◌, ◌↔◌, refl, ◌∙◌, arith, eqb, leb, eq_iff,
  length, select, if◌then◌else◌,
}

-- a map of counters, whose zero value is 0
abbrev pub Counters : Type 0 → Type 0
Counters K = List (K × ℕ)

module _ {K : Type 0} (same : K → K → Bool) where
  -- m[k] += n
  unfoldable pub add_to : K → ℕ → Counters K → Counters K
  add_to k n [] = (k, n) ∷ []
  add_to k n ((j, c) ∷ m) =
      let rest = add_to k n m in if same j k then (j, c + n) ∷ m else (j, c) ∷ rest

  -- m[k]
  unfoldable pub count_at : K → Counters K → ℕ
  count_at k [] = 0
  count_at k ((j, c) ∷ m) = let rest = count_at k m in if same j k then c else rest

-- one request, when it is complete
pub record Completed : Type 0 where
  pub method : String
  pub route : String
  pub status : ℕ
  pub latency_ns : ℕ

pub record Metrics : Type 0 where
  pub total_count : ℕ
  pub error_count : ℕ
  pub status_hits : Counters ℕ
  pub path_hits : Counters String
  pub method_hits : Counters String
  pub total_latency_ns : ℕ
  pub path_latency_ns : Counters String
  pub path_latency_counts : Counters String

abbrev pub no_requests : Metrics
no_requests = record {
  total_count = 0;
  error_count = 0;
  status_hits = [];
  path_hits = [];
  method_hits = [];
  total_latency_ns = 0;
  path_latency_ns = [];
  path_latency_counts = [];
}

unfoldable pub record_request_metrics : Completed → Metrics → Metrics
record_request_metrics r s = record {
  total_count = s.total_count + 1;
  method_hits = add_to ◌==◌ r.method 1 s.method_hits;
  path_hits = add_to ◌==◌ r.route 1 s.path_hits;
  status_hits = add_to eqb r.status 1 s.status_hits;
  error_count = if leb 400 r.status then s.error_count + 1 else s.error_count;
  total_latency_ns = s.total_latency_ns + r.latency_ns;
  path_latency_ns = add_to ◌==◌ r.route r.latency_ns s.path_latency_ns;
  path_latency_counts = add_to ◌==◌ r.route 1 s.path_latency_counts;
}

-- the metrics after these requests, the last one first
unfoldable pub metrics_after : List Completed → Metrics
metrics_after [] = no_requests
metrics_after (r ∷ rs) = record_request_metrics r (metrics_after rs)

module _ {K : Type 0} (same : K → K → Bool)
    (same-iff : (j k : K) → (same j k ≡ true) ↔ (j ≡ k)) where
  count_at-add_to :
      (j k : K) (n : ℕ) (m : Counters K)
      → count_at same k (add_to same j n m)
        ≡ (if same j k then count_at same k m + n else count_at same k m)
  unfolding count_at add_to
  count_at-add_to j k n [] = ground (arith, same-iff)
  count_at-add_to j k n ((i, c) ∷ m) =
      ground (arith, count_at-add_to j k n m, same-iff i j, same-iff i k, same-iff j k)

eqb_iff : (j k : ℕ) → (eqb j k ≡ true) ↔ (j ≡ k)
eqb_iff j k = ground arith

abbrev pub latency_of : List Completed → ℕ
latency_of [] = 0
latency_of (r ∷ rs) = r.latency_ns + latency_of rs

-- What an observer of all requests would count.
pub record IsCountOf (rs : List Completed) (s : Metrics) : Type 0 where
  pub total : s.total_count ≡ length rs
  pub errors : s.error_count ≡ length (select (λ r. leb 400 r.status) rs)
  pub latency : s.total_latency_ns ≡ latency_of rs
  pub status : (k : ℕ) → count_at eqb k s.status_hits ≡ length (select (λ r. eqb r.status k) rs)
  pub method :
      (k : String) → count_at ◌==◌ k s.method_hits ≡ length (select (λ r. r.method == k) rs)
  pub path : (k : String) → count_at ◌==◌ k s.path_hits ≡ length (select (λ r. r.route == k) rs)
  pub timed :
      (k : String) → count_at ◌==◌ k s.path_latency_counts ≡ length (select (λ r. r.route == k) rs)
  pub path_latency :
      (k : String) → count_at ◌==◌ k s.path_latency_ns ≡ latency_of (select (λ r. r.route == k) rs)

-- The metrics are the counts of the requests that were completed, whatever their order: of all, of
-- those with a status of 400 or more, and of those with each status, method and route; and the sums
-- of their latencies, in all and for each route.
pub metrics_after-IsCountOf : (rs : List Completed) → IsCountOf rs (metrics_after rs)
unfolding metrics_after count_at record_request_metrics
metrics_after-IsCountOf [] = record {
  total = refl;
  errors = refl;
  latency = refl;
  status = λ k. refl;
  method = λ k. refl;
  path = λ k. refl;
  timed = λ k. refl;
  path_latency = λ k. refl;
}
metrics_after-IsCountOf (r ∷ rs) =
    let before = metrics_after-IsCountOf rs in
    record {
      total = omega (arith, before.total);
      errors = ground (arith, before.errors);
      latency = omega (arith, before.latency);
      status = λ k. count_at-add_to eqb eqb_iff r.status k 1 _ ∙ ground (arith, before.status k);
      method = λ k. count_at-add_to ◌==◌ eq_iff r.method k 1 _ ∙ ground (arith, before.method k);
      path = λ k. count_at-add_to ◌==◌ eq_iff r.route k 1 _ ∙ ground (arith, before.path k);
      timed = λ k. count_at-add_to ◌==◌ eq_iff r.route k 1 _ ∙ ground (arith, before.timed k);
      path_latency = λ k.
          count_at-add_to ◌==◌ eq_iff r.route k r.latency_ns _
          ∙ ground (arith, before.path_latency k);
    }
