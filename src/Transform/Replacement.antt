-- ===== src/Transform/Replacement.antt =====
-- What a finding is replaced by.
use Prim.Native.Char.{code}
use datafog.Prelude.{
  ℕ, ◌+◌, ◌/◌, ◌%◌, String, ◌≡◌, [], ◌∷◌, ◌++◌, ltb, length, take, replicate, if◌then◌else◌,
}
use datafog.Strings.{Unicode, Bytes, to_upper}
use datafog.Models.{TransformMode}

-- `hex.EncodeToString(sha256.Sum256(value))`: 64 hexadecimal digits
pub record Digest : Type 0 where
  pub hex : Bytes → Bytes
  pub length-hex : (value : Bytes) → length (hex value) ≡ 64

-- the UTF-8 of one code point
utf8_char : ℕ → Bytes
utf8_char n =
    if ltb n 0x80
    then n ∷ []
    else if ltb n 0x800
    then (0xc0 + n / 64) ∷ (0x80 + n % 64) ∷ []
    else if ltb n 0x10000
    then (0xe0 + n / 4096) ∷ (0x80 + n / 64 % 64) ∷ (0x80 + n % 64) ∷ []
    else (0xf0 + n / 262144) ∷ (0x80 + n / 4096 % 64) ∷ (0x80 + n / 64 % 64) ∷ (0x80 + n % 64) ∷ []

-- `[]byte(s)`
unfoldable pub utf8 : String → Bytes
unfolding utf8_char
utf8 String.[] = []
utf8 (String.◌∷◌ c s) = utf8_char (code c) ++ utf8 s

module _ ⦃d : Digest⦄ where
  unfoldable pub deterministic_prefix : Bytes → Bytes
  deterministic_prefix value = take 8 (d.hex value)

  unfoldable pub deterministic_hash : Bytes → Bytes
  deterministic_hash value = d.hex value

  unfoldable pub replacement_for_mode : TransformMode → Bytes → Bytes
  unfolding deterministic_prefix deterministic_hash utf8
  replacement_for_mode TransformMode.tokenize value = utf8 "TOK-" ++ deterministic_prefix value
  replacement_for_mode TransformMode.anonymize value = utf8 "anon-" ++ deterministic_prefix value
  replacement_for_mode TransformMode.redact value = utf8 "[REDACTED]"
  replacement_for_mode TransformMode.mask value = replicate (length value) b'*'
  replacement_for_mode TransformMode.replace value = utf8 "[REPLACED]"
  replacement_for_mode TransformMode.hash value = deterministic_hash value
  replacement_for_mode (TransformMode.other _) value = utf8 "[FILTERED]"

module _ ⦃u : Unicode⦄ ⦃d : Digest⦄ where
  unfoldable pub replacement_for_mode_with_type : TransformMode → String → Bytes → Bytes
  unfolding replacement_for_mode
  replacement_for_mode_with_type TransformMode.replace entity_type value =
      utf8 "["
      ++ (utf8 (to_upper entity_type) ++ (utf8 "_" ++ (deterministic_prefix value ++ utf8 "]")))
  replacement_for_mode_with_type mode entity_type value = replacement_for_mode mode value
