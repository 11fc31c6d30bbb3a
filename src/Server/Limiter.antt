-- ===== src/Server/Limiter.antt =====
-- internal/server/server.go: the token bucket of the rate limit. Its numbers are float64: the operations
-- on them are an argument, with what IEEE arithmetic and package math say of them as laws that a theorem
-- names. The readings of the clock are arguments too.
use Prim.Native.Nat.{zero, suc}
use datafog.Prelude.{
  ℕ, Bool, true, false, Bool-cases, inl, inr, Option, none, some, List, [], ◌∷◌, ◌≡◌, refl,
  if◌then◌else◌,
}
use datafog.Prelude.Int.{ℤ, pos, negsuc}

-- float64 and what the limiter uses of it: `float64(n)`, the constants, `+`, `*`, `-`, `<`, `math.Min`,
-- and `now.Sub(last).Seconds()` of two readings of the clock
pub record Float64 (F : Type 0) : Type 0 where
  pub of_int : ℕ → F
  pub zero : F
  pub one : F
  pub add : F → F → F
  pub mul : F → F → F
  pub sub : F → F → F
  pub less : F → F → Bool
  pub smallest : F → F → F
  pub seconds_since : ℕ → ℕ → F

pub record TokenBucket (F : Type 0) : Type 0 where
  pub tokens : F
  pub rate : F
  pub capacity : F
  pub last_time : ℕ

-- What the IEEE standard and package math say of float64, not-a-number and rounding included: a
-- comparison with not-a-number is false, and rounding keeps the order.
pub record IsFloat64 {F : Type 0} (float : Float64 F) : Type 0 where
  pub of_int_nonneg : (n : ℕ) → float.less (float.of_int n) float.zero ≡ false
  pub less_irrefl : (a : F) → float.less a a ≡ false
  pub add_nonneg :
      (a b : F)
      → float.less a float.zero ≡ false
      → float.less b float.zero ≡ false
      → float.less (float.add a b) float.zero ≡ false
  pub mul_nonneg :
      (a b : F)
      → float.less float.zero a ≡ true
      → float.less b float.zero ≡ false
      → float.less (float.mul a b) float.zero ≡ false
  pub smallest_nonneg :
      (a b : F)
      → float.less a float.zero ≡ false
      → float.less b float.zero ≡ false
      → float.less (float.smallest a b) float.zero ≡ false
  pub smallest_le : (a b : F) → float.less a (float.smallest a b) ≡ false
  pub sub_nonneg :
      (a : F)
      → float.less a float.one ≡ false
      → float.less (float.sub a float.one) float.zero ≡ false
  pub sub_le : (a b : F) → float.less a b ≡ false → float.less a (float.sub b float.one) ≡ false

module _ {F : Type 0} ⦃float : Float64 F⦄ where
  abbrev full_bucket : F → ℕ → TokenBucket F
  full_bucket rate now = record { tokens = rate; rate = rate; capacity = rate; last_time = now }

  -- no bucket stands for no limit
  unfoldable pub new_token_bucket : ℤ → ℕ → Option (TokenBucket F)
  new_token_bucket (negsuc n) now = none
  new_token_bucket (pos zero) now = none
  new_token_bucket (pos (suc n)) now = some (full_bucket (float.of_int (suc n)) now)

  unfoldable pub refill : ℕ → TokenBucket F → TokenBucket F
  refill now tb =
      let delta = float.seconds_since now tb.last_time in
      if float.less float.zero delta
      then record tb {
        tokens = float.smallest tb.capacity (float.add tb.tokens (float.mul delta tb.rate));
        last_time = now;
      }
      else tb

  unfoldable pub spend : TokenBucket F → Bool × TokenBucket F
  spend tb =
      if float.less tb.tokens float.one
      then (false, tb)
      else (true, record tb { tokens = float.sub tb.tokens float.one })

  -- `allow` at a reading of the clock
  unfoldable pub allow : ℕ → Option (TokenBucket F) → Bool × Option (TokenBucket F)
  unfolding refill spend
  allow now none = (true, none)
  allow now (some tb) = let after = spend (refill now tb) in (after.0, some after.1)

  -- the bucket that calls at these times leave
  unfoldable pub after_calls : List ℕ → Option (TokenBucket F) → Option (TokenBucket F)
  unfolding allow
  after_calls [] tb = tb
  after_calls (now ∷ times) tb = after_calls times (allow now tb).1

  -- a bucket of this rate holds no less than nothing and no more than its capacity
  pub record IsWithin (rate : F) (tb : TokenBucket F) : Type 0 where
    pub rate_kept : tb.rate ≡ rate
    pub capacity_kept : tb.capacity ≡ rate
    pub nonneg : float.less tb.tokens float.zero ≡ false
    pub within : float.less rate tb.tokens ≡ false

  -- a limit that is not positive has no bucket
  pub IsBucketOf : ℤ → Option (TokenBucket F) → Type 0
  IsBucketOf (negsuc n) tb = tb ≡ none
  IsBucketOf (pos n) none = n ≡ 0
  IsBucketOf (pos n) (some tb) = IsWithin (float.of_int n) tb

  refill-IsWithin :
      (rate : F) (now : ℕ) (tb : TokenBucket F)
      → IsFloat64 float
      → float.less rate float.zero ≡ false
      → IsWithin rate tb
      → IsWithin rate (refill now tb)
  unfolding refill
  refill-IsWithin rate now tb laws positive h =
      let delta = float.seconds_since now tb.last_time in
      let flow = float.mul delta rate in
      elim (Bool-cases (float.less float.zero delta)) [
        | inr e ↦ rw e h
        | inl e ↦
            rw (e, h.rate_kept, h.capacity_kept)
              (record {
                rate_kept = refl;
                capacity_kept = refl;
                nonneg = laws.smallest_nonneg rate (float.add tb.tokens flow) positive (
                    laws.add_nonneg tb.tokens flow h.nonneg
                      (laws.mul_nonneg delta rate e positive));
                within = laws.smallest_le rate (float.add tb.tokens flow);
              })
      ]

  spend-IsWithin :
      (rate : F) (tb : TokenBucket F)
      → IsFloat64 float
      → IsWithin rate tb
      → IsWithin rate (spend tb).1
  unfolding spend
  spend-IsWithin rate tb laws h = elim (Bool-cases (float.less tb.tokens float.one)) [
    | inl e ↦ rw e h
    | inr e ↦ rw e (record {
      rate_kept = h.rate_kept;
      capacity_kept = h.capacity_kept;
      nonneg = laws.sub_nonneg tb.tokens e;
      within = laws.sub_le rate tb.tokens h.within;
    })
  ]

  calls-IsBucketOf :
      (limit : ℤ) (times : List ℕ) (tb : Option (TokenBucket F))
      → IsFloat64 float
      → IsBucketOf limit tb
      → IsBucketOf limit (after_calls times tb)
  unfolding IsBucketOf after_calls allow
  calls-IsBucketOf limit [] tb laws h = h
  calls-IsBucketOf (negsuc n) (now ∷ times) none laws h =
      calls-IsBucketOf (negsuc n) times none laws h
  calls-IsBucketOf (negsuc n) (now ∷ times) (some tb) laws h = cc
  calls-IsBucketOf (pos n) (now ∷ times) none laws h = calls-IsBucketOf (pos n) times none laws h
  calls-IsBucketOf (pos n) (now ∷ times) (some tb) laws h =
      let rate = float.of_int n in
      let filled = refill-IsWithin rate now tb laws (laws.of_int_nonneg n) h in
      calls-IsBucketOf (pos n) times _ laws (spend-IsWithin rate (refill now tb) laws filled)

  -- Whenever and however often the limiter is asked, its bucket keeps its rate and its capacity, and
  -- holds, by the comparisons of float64, no less than nothing and no more than the tokens of one second;
  -- without a positive limit there is no bucket. The laws are those of float64, rounding and not-a-number
  -- included.
  pub after_calls-IsBucketOf :
      (limit : ℤ) (start : ℕ) (times : List ℕ)
      → IsFloat64 float
      → IsBucketOf limit (after_calls times (new_token_bucket limit start))
  unfolding IsBucketOf new_token_bucket
  after_calls-IsBucketOf (negsuc n) start times laws =
      calls-IsBucketOf (negsuc n) times none laws refl
  after_calls-IsBucketOf (pos zero) start times laws = calls-IsBucketOf (pos 0) times none laws refl
  after_calls-IsBucketOf (pos (suc n)) start times laws =
      let rate = float.of_int (suc n) in
      calls-IsBucketOf (pos (suc n)) times (some (full_bucket rate start)) laws (record {
        rate_kept = refl;
        capacity_kept = refl;
        nonneg = laws.of_int_nonneg (suc n);
        within = laws.less_irrefl rate;
      })
