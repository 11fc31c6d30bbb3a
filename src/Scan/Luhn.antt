-- ===== src/Scan/Luhn.antt =====
-- What the checksum of a card number detects.
use datafog.Prelude.{
  ℕ, ◌%◌, ◌<◌, Bool, true, false, not, ◌||◌, ◌≡◌, ◌≢◌, refl, inl, inr, Option, none, some, List, [],
  ◌∷◌, ◌++◌, arith, eqb, length, Bool-cases,
}
use datafog.Strings.{Bytes}
use datafog.Scan.Validators.{
  is_digit, luhn_step, luhn_digits, luhn_value, luhn_sum, luhn_checksum, luhn_valid,
}

-- lists of digits that differ in one place
data IsOneOff : List ℕ → List ℕ → Type 0 where
  here : (a b : ℕ) (xs : List ℕ) → a < 10 → b < 10 → a ≢ b → IsOneOff (a ∷ xs) (b ∷ xs)
  there : (x : ℕ) (xs ys : List ℕ) → IsOneOff xs ys → IsOneOff (x ∷ xs) (x ∷ ys)

luhn_value_lt : (double : Bool) (a : ℕ) → a < 10 → luhn_value double a < 10
unfolding luhn_value
luhn_value_lt true a h = ground arith
luhn_value_lt false a h = h

luhn_value_injective :
    (double : Bool) (a b : ℕ) → a < 10 → b < 10 → luhn_value double a ≡ luhn_value double b → a ≡ b
unfolding luhn_value
luhn_value_injective true a b h k e = ground arith
luhn_value_injective false a b h k e = e

luhn_sum_differs :
    (double : Bool) (xs ys : List ℕ)
    → IsOneOff xs ys
    → luhn_sum double xs % 10 ≢ luhn_sum double ys % 10
unfolding luhn_sum
luhn_sum_differs double _ _ (here a b xs h k n) e = n (
    luhn_value_injective double a b h k
      (omega (arith, luhn_value_lt double a h, luhn_value_lt double b k)))
luhn_sum_differs double _ _ (there x xs ys o) e =
    luhn_sum_differs (not double) xs ys o (omega arith)

one_off_length : (xs ys : List ℕ) → IsOneOff xs ys → length xs ≡ length ys
one_off_length _ _ (here a b xs h k n) = refl
one_off_length _ _ (there x xs ys o) = omega (arith, one_off_length xs ys o)

-- both refused, or both read and one off
IsOneOffResult : Option (List ℕ) → Option (List ℕ) → Type 0
IsOneOffResult none none = Unit
IsOneOffResult (some xs) (some ys) = IsOneOff xs ys
IsOneOffResult _ _ = ⊥

luhn_step_one_off :
    (c : ℕ) (xs ys : List ℕ) → IsOneOff xs ys → IsOneOffResult (luhn_step c xs) (luhn_step c ys)
unfolding luhn_step IsOneOffResult
luhn_step_one_off c xs ys o = elim (Bool-cases (is_digit c)) [
  | inl d ↦ elim (Bool-cases (eqb (length xs) 19)) [
    | inl full ↦ rw (d, ← one_off_length xs ys o, full) tt
    | inr room ↦ rw (d, ← one_off_length xs ys o, room) (there _ xs ys o)
  ]
  | inr n ↦ elim (Bool-cases (eqb c b' ' || eqb c b'-')) [
    | inl s ↦ rw (n, s) o
    | inr t ↦ rw (n, t) tt
  ]
]

luhn_digits_one_off :
    (s : Bytes) (p q : Option (List ℕ))
    → IsOneOffResult p q
    → IsOneOffResult (luhn_digits s p) (luhn_digits s q)
unfolding luhn_digits IsOneOffResult
luhn_digits_one_off [] p q o = o
luhn_digits_one_off (c ∷ s) none none o = tt
luhn_digits_one_off (c ∷ s) (some xs) (some ys) o =
    luhn_digits_one_off s (luhn_step c xs) (luhn_step c ys) (luhn_step_one_off c xs ys o)
luhn_digits_one_off (c ∷ s) none (some ys) o = absurd o
luhn_digits_one_off (c ∷ s) (some xs) none o = absurd o

luhn_step_replaced :
    (c d : ℕ) (xs : List ℕ)
    → is_digit c ≡ true
    → is_digit d ≡ true
    → c ≢ d
    → IsOneOffResult (luhn_step c xs) (luhn_step d xs)
unfolding luhn_step IsOneOffResult is_digit
luhn_step_replaced c d xs h k n = elim (Bool-cases (eqb (length xs) 19)) [
  | inl full ↦ rw (h, k, full) tt
  | inr room ↦ rw (h, k, room) (here _ _ xs (ground arith) (ground arith) (λ e. n (ground arith)))
]

luhn_digits_replaced :
    (xs ys : Bytes) (c d : ℕ) (ds : Option (List ℕ))
    → is_digit c ≡ true
    → is_digit d ≡ true
    → c ≢ d
    → IsOneOffResult (luhn_digits (xs ++ c ∷ ys) ds) (luhn_digits (xs ++ d ∷ ys) ds)
unfolding luhn_digits IsOneOffResult
luhn_digits_replaced [] ys c d none h k n = tt
luhn_digits_replaced [] ys c d (some ds) h k n =
    luhn_digits_one_off ys _ _ (luhn_step_replaced c d ds h k n)
luhn_digits_replaced (x ∷ xs) ys c d none h k n = tt
luhn_digits_replaced (x ∷ xs) ys c d (some ds) h k n =
    luhn_digits_replaced xs ys c d (luhn_step x ds) h k n

luhn_checksum_one_off :
    (p q : Option (List ℕ)) → IsOneOffResult p q → luhn_checksum p ≡ true → luhn_checksum q ≡ false
unfolding luhn_checksum IsOneOffResult
luhn_checksum_one_off none q o h = cc
luhn_checksum_one_off (some xs) none o h = absurd o
luhn_checksum_one_off (some xs) (some ys) o h =
    ground (arith, one_off_length xs ys o, luhn_sum_differs false xs ys o)

-- A mistyped digit is found: of two texts that differ in one digit, at most one is a valid card
-- number.
pub luhn_valid_replaced :
    (xs ys : Bytes) (c d : ℕ)
    → is_digit c ≡ true
    → is_digit d ≡ true
    → c ≢ d
    → luhn_valid (xs ++ c ∷ ys) ≡ true
    → luhn_valid (xs ++ d ∷ ys) ≡ false
unfolding luhn_valid
luhn_valid_replaced xs ys c d h k n v =
    luhn_checksum_one_off _ _ (luhn_digits_replaced xs ys c d (some []) h k n) v
