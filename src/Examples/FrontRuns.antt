-- ===== src/Examples/FrontRuns.antt =====
-- The middleware of internal/server/server.go, run.
use Prim.Native.Nat.{min}
use datafog.Prelude.{ℕ, ◌+◌, ◌-◌, ◌*◌, ltb, ◌≡◌, false, ◌≢◌, some, [], ◌∷◌, eq_iff, arith}
use datafog.Strings.{ascii_tables}
use datafog.Server.Limiter.{
  Float64, IsFloat64, TokenBucket, IsBucketOf, new_token_bucket, after_calls,
  after_calls-IsBucketOf,
}
use datafog.Prelude.Int.{pos}
use datafog.Server.Metrics.{
  Completed, IsCountOf, metrics_after, metrics_after-IsCountOf, no_requests,
}
use datafog.Server.Middleware.{Incoming, Served, Front, wrap_middleware}
use datafog.Server.Guard.{IsGuarded, wrap_middleware-IsGuarded}

-- whole numbers in place of float64, and a clock that counts seconds
abbrev whole_numbers : Float64 ℕ
whole_numbers = record {
  of_int = λ n. n;
  zero = 0;
  one = 1;
  add = λ a b. a + b;
  mul = λ a b. a * b;
  sub = λ a b. a - b;
  less = ltb;
  smallest = min;
  seconds_since = λ now last. now - last;
}

not_below_zero : (n : ℕ) → ltb n 0 ≡ false
not_below_zero n = ground arith

whole_numbers-IsFloat64 : IsFloat64 whole_numbers
whole_numbers-IsFloat64 = record {
  of_int_nonneg = λ n. ground arith;
  less_irrefl = λ a. ground arith;
  add_nonneg = λ a b h k. ground arith;
  mul_nonneg = λ a b h k. not_below_zero (a * b);
  smallest_nonneg = λ a b h k. ground arith;
  smallest_le = λ a b. ground arith;
  sub_nonneg = λ a h. ground arith;
  sub_le = λ a b h. ground arith;
}

burst_example : IsBucketOf ⦃float = whole_numbers⦄ (pos 2) (
    after_calls ⦃float = whole_numbers⦄
      (0 ∷ 0 ∷ 0 ∷ 9 ∷ 9 ∷ [])
      (new_token_bucket ⦃float = whole_numbers⦄ (pos 2) 0))
burst_example =
    after_calls-IsBucketOf ⦃float = whole_numbers⦄ (pos 2) 0 (0 ∷ 0 ∷ 0 ∷ 9 ∷ 9 ∷ [])
      whole_numbers-IsFloat64

abbrev bucket : TokenBucket ℕ
bucket = record { tokens = 2; rate = 2; capacity = 2; last_time = 0 }

abbrev scanned : Completed
scanned = record { method = "POST"; route = "/v1/scan"; status = 200; latency_ns = 1500 }

abbrev missed : Completed
missed = record { method = "GET"; route = "/_not_found"; status = 404; latency_ns = 70 }

count_example :
    IsCountOf (scanned ∷ missed ∷ scanned ∷ []) (metrics_after (scanned ∷ missed ∷ scanned ∷ []))
count_example = metrics_after-IsCountOf (scanned ∷ missed ∷ scanned ∷ [])

-- a handler that counts its calls
abbrev counting : ℕ → Served ℕ
counting n = record { written = some 200; panicked = false; state = n + 1 }

abbrev posted : Incoming
posted = record {
  method = "POST";
  path = "/v1/scan";
  pattern = "/v1/scan";
  authorization = "Bearer s3cret";
  api_key = "";
}

abbrev front : Front ℕ ℕ
front = record { state = 4; limiter = some bucket; metrics = no_requests }

no_options : posted.method ≢ "OPTIONS"
no_options e = cc ((eq_iff posted.method "OPTIONS").1 e)

no_zero : (counting 4).written ≢ some 0
no_zero e = cc

middleware_example :
    IsGuarded ⦃u = ascii_tables⦄ ⦃float = whole_numbers⦄ "s3cret" 9 120 counting posted front (
      wrap_middleware ⦃u = ascii_tables⦄ ⦃float = whole_numbers⦄ "s3cret" 9 120 counting posted
        front)
middleware_example =
    wrap_middleware-IsGuarded ⦃u = ascii_tables⦄ ⦃float = whole_numbers⦄ "s3cret" 9 120 counting
      posted front no_options ((λ p. cc), no_zero)
