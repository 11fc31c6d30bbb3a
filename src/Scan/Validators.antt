-- ===== src/Scan/Validators.antt =====
-- internal/scan/detector.go: `luhnValid` and `ipv4Valid`, which test a match of the expressions for
-- card numbers and for IPv4 addresses.
use datafog.Prelude.{
  ℕ, ◌+◌, ◌-◌, ◌*◌, ◌%◌, Bool, false, not, ◌&&◌, ◌||◌, Option, none, some, List, [], ◌∷◌, ltb, leb,
  eqb, length, is_empty, if◌then◌else◌,
}
use datafog.Strings.{Bytes}

unfoldable pub is_digit : ℕ → Bool
is_digit c = leb b'0' c && leb c b'9'

-- One turn of the first loop of `luhnValid`, on the digits read so far, the last one first. A rune
-- above ASCII and each byte of it are refused alike.
unfoldable pub luhn_step : ℕ → List ℕ → Option (List ℕ)
luhn_step c digits =
    if is_digit c
    then if eqb (length digits) 19 then none else some ((c - b'0') ∷ digits)
    else if eqb c b' ' || eqb c b'-'
    then some digits
    else none

unfoldable pub luhn_digits : Bytes → Option (List ℕ) → Option (List ℕ)
luhn_digits [] digits = digits
luhn_digits (c ∷ s) none = none
luhn_digits (c ∷ s) (some digits) = luhn_digits s (luhn_step c digits)

unfoldable pub luhn_value : Bool → ℕ → ℕ
luhn_value double d = if double then (if ltb 9 (d * 2) then d * 2 - 9 else d * 2) else d

-- the second loop, from the last digit to the first
unfoldable pub luhn_sum : Bool → List ℕ → ℕ
luhn_sum double [] = 0
luhn_sum double (d ∷ ds) = luhn_value double d + luhn_sum (not double) ds

unfoldable pub luhn_checksum : Option (List ℕ) → Bool
luhn_checksum none = false
luhn_checksum (some digits) =
    if ltb (length digits) 13 || ltb 19 (length digits)
    then false
    else eqb (luhn_sum false digits % 10) 0

unfoldable pub luhn_valid : Bytes → Bool
luhn_valid s = luhn_checksum (luhn_digits s (some []))

-- The loop of `ipv4Valid`: the octets closed, and the value and the digits of the open one.
pub record Octets : Type 0 where
  pub octet_count : ℕ
  pub value : ℕ
  pub digits_in_octet : ℕ

-- what a dot and the end of the text do
unfoldable pub close_octet : Octets → Option Octets
close_octet o =
    if eqb o.digits_in_octet 0
    then none
    else if ltb 255 o.value
    then none
    else if ltb 4 (o.octet_count + 1)
    then none
    else some record { octet_count = o.octet_count + 1; value = 0; digits_in_octet = 0 }

unfoldable pub ipv4_step : ℕ → Octets → Option Octets
ipv4_step c o =
    if eqb c b'.'
    then close_octet o
    else if not (is_digit c)
    then none
    else if ltb 3 (o.digits_in_octet + 1)
    then none
    else some
        record o { value = o.value * 10 + (c - b'0'); digits_in_octet = o.digits_in_octet + 1 }

unfoldable pub ipv4_loop : Bytes → Option Octets → Option Octets
ipv4_loop s none = none
ipv4_loop [] (some o) = close_octet o
ipv4_loop (c ∷ s) (some o) = ipv4_loop s (ipv4_step c o)

unfoldable pub finish : Option Octets → Bool
finish none = false
finish (some o) = eqb o.octet_count 4

unfoldable pub ipv4_valid : Bytes → Bool
ipv4_valid s =
    if is_empty s
    then false
    else finish (ipv4_loop s (some record { octet_count = 0; value = 0; digits_in_octet = 0 }))
