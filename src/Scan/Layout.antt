-- ===== src/Scan/Layout.antt =====
-- Where the tokens of a text stand.
use Prim.Native.Char.{Char}
use datafog.Prelude.{
  ℕ, zero, suc, ◌+◌, ◌≤◌, ◌<◌, String, true, Option, none, some, List, [], ◌∷◌, ◌≡◌, refl, ap, sym,
  ◌∙◌, inl, inr, arith, ltb, eqb, length, length-append, Bool-cases,
}
use datafog.Strings.{Bytes, is_space}
use datafog.Scan.Tokens.{
  Encoding, rune_count, take_runes, TokenInfo, skip_spaces, take_word, is_punctuation,
  cons_unless_punctuation, trim_punctuation, add_token, put_token, encode, byte_offset,
  tokenize_from, tokenize,
}

count-skip_spaces : (s : String) → (skip_spaces s).0 + rune_count (skip_spaces s).1 ≡ rune_count s
unfolding skip_spaces
count-skip_spaces String.[] = refl
count-skip_spaces (String.◌∷◌ c s) = elim (Bool-cases (is_space c)) [
  | inl e ↦ rw e (omega (arith, count-skip_spaces s))
  | inr e ↦ rw e (omega arith)
]

count-take_word :
    (s : String) → rune_count (take_word s).0 + rune_count (take_word s).1 ≡ rune_count s
unfolding take_word
count-take_word String.[] = refl
count-take_word (String.◌∷◌ c s) = elim (Bool-cases (is_space c)) [
  | inl e ↦ rw e (omega arith)
  | inr e ↦ rw e (omega (arith, count-take_word s))
]

-- behind the space stands a word
word-skip_spaces :
    (s : String) → 0 < rune_count (skip_spaces s).1 → 0 < rune_count (take_word (skip_spaces s).1).0
unfolding skip_spaces take_word
word-skip_spaces String.[] h = absurd (omega arith)
word-skip_spaces (String.◌∷◌ c s) h = elim (Bool-cases (is_space c)) [
  | inl e ↦ rw e (word-skip_spaces s (rw e at h))
  | inr e ↦ rw e (rw e (omega arith))
]

count-cons : (c : Char) (s : String) → rune_count (cons_unless_punctuation c s) ≤ suc (rune_count s)
unfolding cons_unless_punctuation
count-cons c String.[] = elim (Bool-cases (is_punctuation c)) [
  | inl e ↦ rw e (omega arith)
  | inr e ↦ rw e (omega arith)
]
count-cons c (String.◌∷◌ d s) = omega arith

count-trim : (s : String) → rune_count (trim_punctuation s) ≤ rune_count s
unfolding trim_punctuation
count-trim String.[] = omega arith
count-trim (String.◌∷◌ c s) = omega (arith, count-cons c (trim_punctuation s), count-trim s)

put_token_ends :
    (offset : ℕ → ℕ) (start : ℕ) (word : String) (o : Option (List TokenInfo))
    → (ts : List TokenInfo) × (o ≡ some ts)
    → (ts : List TokenInfo) × (put_token offset start word o ≡ some ts)
put_token_ends offset start word none (ts, h) = cc
put_token_ends offset start word (some us) h = (add_token offset start word us, refl)

tokenize_from_ends :
    (offset : ℕ → ℕ) (fuel i : ℕ) (rest : String)
    → rune_count rest ≤ fuel
    → (ts : List TokenInfo) × (tokenize_from offset fuel i rest ≡ some ts)
unfolding tokenize_from
tokenize_from_ends offset zero i rest h =
    let empty : eqb (rune_count rest) 0 ≡ true = ground (arith, h) in rw empty ([], refl)
tokenize_from_ends offset (suc fuel) i rest h =
    elim (Bool-cases (eqb (rune_count (skip_spaces rest).1) 0)) [
      | inl e ↦ rw e ([], refl)
      | inr e ↦
          let word = take_word (skip_spaces rest).1 in
          let shorter : rune_count word.1 ≤ fuel = ground (
            arith,
            h,
            e,
            word-skip_spaces rest,
            count-take_word (skip_spaces rest).1,
            count-skip_spaces rest,
          ) in
          rw e (put_token_ends offset _ _ _ (tokenize_from_ends offset fuel _ word.1 shorter))
    ]

-- Tokens of a text of `hi` bytes, one behind the other from `lo` on, none of them empty.
unfoldable pub Laid : ℕ → ℕ → List TokenInfo → Type 0
Laid hi lo [] = Unit
Laid hi lo (tok ∷ rest) =
    (lo ≤ tok.start) × (tok.start < tok.end) × (tok.end ≤ hi) × Laid hi tok.end rest

pub Laid-weaken : (hi lo low : ℕ) (ts : List TokenInfo) → low ≤ lo → Laid hi lo ts → Laid hi low ts
unfolding Laid
Laid-weaken hi lo low [] h laid = tt
Laid-weaken hi lo low (tok ∷ rest) h (a, b, c, d) = (omega arith, b, c, d)

LaidOption : ℕ → ℕ → Option (List TokenInfo) → Type 0
LaidOption hi lo none = Unit
LaidOption hi lo (some ts) = Laid hi lo ts

module _ (offset : ℕ → ℕ) (n hi : ℕ) (grows : (a b : ℕ) → a < b → b ≤ n → offset a < offset b)
    (within : (b : ℕ) → b ≤ n → offset b ≤ hi) where
  grows_le : (a b : ℕ) → a ≤ b → b ≤ n → offset a ≤ offset b
  grows_le a b h k = elim (Bool-cases (ltb a b)) [
    | inl e ↦ omega (arith, grows a b (ground (arith, e)) k)
    | inr e ↦ let same : a ≡ b = ground (arith, h, e) in omega (arith, ap offset same)
  ]

  add_token-Laid :
      (i start k : ℕ) (word : String) (ts : List TokenInfo)
      → i ≤ start
      → rune_count word ≤ k
      → start + k ≤ n
      → Laid hi (offset (start + k)) ts
      → Laid hi (offset i) (add_token offset start word ts)
  unfolding Laid
  add_token-Laid i start k String.[] ts a b c laid =
      Laid-weaken hi _ _ ts (grows_le i (start + k) (omega arith) c) laid
  add_token-Laid i start k (String.◌∷◌ ch s) ts a b c laid = (
    grows_le i start a (omega arith),
    grows start _ (omega arith) (omega arith),
    within _ (omega arith),
    Laid-weaken hi _ _ ts (grows_le _ (start + k) (omega arith) c) laid,
  )

  put_token-Laid :
      (i start k : ℕ) (word : String) (o : Option (List TokenInfo))
      → i ≤ start
      → rune_count word ≤ k
      → start + k ≤ n
      → LaidOption hi (offset (start + k)) o
      → LaidOption hi (offset i) (put_token offset start word o)
  unfolding LaidOption
  put_token-Laid i start k word none a b c laid = tt
  put_token-Laid i start k word (some ts) a b c laid = add_token-Laid i start k word ts a b c laid

  tokenize_from-Laid :
      (fuel i : ℕ) (rest : String)
      → i + rune_count rest ≤ n
      → LaidOption hi (offset i) (tokenize_from offset fuel i rest)
  unfolding tokenize_from LaidOption Laid
  tokenize_from-Laid zero i rest h = elim (Bool-cases (eqb (rune_count rest) 0)) [
    | inl e ↦ rw e tt
    | inr e ↦ rw e tt
  ]
  tokenize_from-Laid (suc fuel) i rest h =
      let spaces = skip_spaces rest in
      let word = take_word spaces.1 in
      let counted = count-skip_spaces rest in
      let parted = count-take_word spaces.1 in
      elim (Bool-cases (eqb (rune_count spaces.1) 0)) [
        | inl e ↦ rw e tt
        | inr e ↦ rw e (
            put_token-Laid i (i + spaces.0) (rune_count word.0) _ _ (omega arith)
              (count-trim word.0) (omega (arith, counted, parted))
              (tokenize_from-Laid fuel (i + spaces.0 + rune_count word.0) word.1
                (omega (arith, counted, parted))))
      ]

module _ ⦃e : Encoding⦄ where
  -- The loop of `tokenize` ends on every text: each round takes at least one rune.
  pub tokenize_ends : (text : Bytes) → (ts : List TokenInfo) × (tokenize text ≡ some ts)
  unfolding tokenize
  tokenize_ends text = tokenize_from_ends _ _ 0 (e.runes text) (omega arith)

  encode-grows :
      ((c : Char) → 0 < length (e.utf8 c))
      → (a b : ℕ) (s : String) → a < b
      → b ≤ rune_count s
      → length (encode (take_runes a s)) < length (encode (take_runes b s))
  unfolding encode
  encode-grows some_byte a zero s h k = absurd (omega arith)
  encode-grows some_byte a (suc b) String.[] h k = absurd (omega arith)
  encode-grows some_byte zero (suc b) (String.◌∷◌ c s) h k =
      omega (arith, length-append (e.utf8 c) (encode (take_runes b s)), some_byte c)
  encode-grows some_byte (suc a) (suc b) (String.◌∷◌ c s) h k = omega (
    arith,
    length-append (e.utf8 c) (encode (take_runes a s)),
    length-append (e.utf8 c) (encode (take_runes b s)),
    encode-grows some_byte a b s (omega arith) (omega arith),
  )

  take_all : (n : ℕ) (s : String) → rune_count s ≤ n → take_runes n s ≡ s
  take_all zero String.[] h = refl
  take_all zero (String.◌∷◌ c s) h = absurd (omega arith)
  take_all (suc n) String.[] h = refl
  take_all (suc n) (String.◌∷◌ c s) h = ap (String.◌∷◌ c) (take_all n s (omega arith))

  byte_offset_lem :
      (text : Bytes) (n : ℕ)
      → encode (e.runes text) ≡ text
      → byte_offset text n ≡ length (encode (take_runes n (e.runes text)))
  unfolding byte_offset
  byte_offset_lem text n valid = elim (Bool-cases (ltb n (rune_count (e.runes text)))) [
    | inl h ↦ rw h refl
    | inr h ↦ rw (h, take_all n (e.runes text) (ground (arith, h))) (ap length (sym valid))
  ]

  byte_offset_all :
      (text : Bytes)
      → encode (e.runes text) ≡ text
      → byte_offset text (rune_count (e.runes text)) ≡ length text
  byte_offset_all text valid =
      byte_offset_lem text _ valid
      ∙ ap (λ s. length (encode s)) (take_all _ (e.runes text) (omega arith))
      ∙ ap length valid

  byte_offset-grows :
      (text : Bytes)
      → ((c : Char) → 0 < length (e.utf8 c))
      → encode (e.runes text) ≡ text
      → (a b : ℕ) → a < b
      → b ≤ rune_count (e.runes text)
      → byte_offset text a < byte_offset text b
  byte_offset-grows text some_byte valid a b h k = omega (
    arith,
    byte_offset_lem text a valid,
    byte_offset_lem text b valid,
    encode-grows some_byte a b (e.runes text) h k,
  )

  byte_offset_within :
      (text : Bytes)
      → ((c : Char) → 0 < length (e.utf8 c))
      → encode (e.runes text) ≡ text
      → (b : ℕ) → b ≤ rune_count (e.runes text)
      → byte_offset text b ≤ length text
  byte_offset_within text some_byte valid b k =
      elim (Bool-cases (ltb b (rune_count (e.runes text)))) [
        | inl h ↦ omega (
          arith,
          byte_offset-grows text some_byte valid b (rune_count (e.runes text)) (ground (arith, h))
              (omega arith),
          byte_offset_all text valid,
        )
        | inr h ↦
            let same : b ≡ rune_count (e.runes text) = ground (arith, h, k) in
            omega (arith, ap (byte_offset text) same, byte_offset_all text valid)
      ]

  -- The tokens of valid UTF-8 stand in it one behind the other, none of them empty.
  pub tokenize-Laid :
      (text : Bytes) (ts : List TokenInfo)
      → ((c : Char) → 0 < length (e.utf8 c))
      → encode (e.runes text) ≡ text
      → tokenize text ≡ some ts
      → Laid (length text) 0 ts
  unfolding tokenize LaidOption
  tokenize-Laid text ts some_byte valid h =
      let laid : LaidOption (length text) (byte_offset text 0) (tokenize text) =
        tokenize_from-Laid (byte_offset text) (rune_count (e.runes text)) (length text)
          (byte_offset-grows text some_byte valid) (byte_offset_within text some_byte valid) _ 0
          (e.runes text) (omega arith) in
      Laid-weaken (length text) (byte_offset text 0) 0 ts (omega arith) (rw h at laid)
