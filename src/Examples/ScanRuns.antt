-- ===== src/Examples/ScanRuns.antt =====
-- internal/scan, run.
use datafog.Prelude.{◌≡◌, refl, true, false, [], ◌∷◌}
use datafog.Strings.{Bytes}
use datafog.Scan.Validators.{is_digit, luhn_valid, ipv4_valid}
use datafog.Scan.Luhn.{luhn_valid_replaced}
use datafog.Scan.Address.{is_address, ipv4_valid_lem}

-- the card number `4111 1111-1111 1111` but for its first digit
abbrev card_rest : Bytes
card_rest =
    b'1' ∷ b'1' ∷ b'1' ∷ b' ' ∷ b'1' ∷ b'1' ∷ b'1' ∷ b'1' ∷ b'-' ∷ b'1' ∷ b'1' ∷ b'1' ∷ b'1' ∷ b' '
    ∷ b'1' ∷ b'1' ∷ b'1' ∷ b'1' ∷ []

card_valid : luhn_valid (b'4' ∷ card_rest) ≡ true
unfolding luhn_valid datafog.Scan.Validators.luhn_checksum datafog.Scan.Validators.luhn_digits
    datafog.Scan.Validators.luhn_step is_digit datafog.Scan.Validators.luhn_sum
    datafog.Scan.Validators.luhn_value
card_valid = refl

luhn_example : luhn_valid (b'7' ∷ card_rest) ≡ false
unfolding is_digit
luhn_example = luhn_valid_replaced [] card_rest b'4' b'7' refl refl (λ e. cc) card_valid

-- `10.0.0.256`
abbrev wrong_address : Bytes
wrong_address = b'1' ∷ b'0' ∷ b'.' ∷ b'0' ∷ b'.' ∷ b'0' ∷ b'.' ∷ b'2' ∷ b'5' ∷ b'6' ∷ []

address_example : ipv4_valid wrong_address ≡ is_address wrong_address
address_example = ipv4_valid_lem wrong_address
