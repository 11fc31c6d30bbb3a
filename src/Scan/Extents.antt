-- ===== src/Scan/Extents.antt =====
-- Where the findings of the recogniser stand.
use datafog.Prelude.{
  ℕ, zero, suc, ◌≤◌, ◌<◌, String, Bool, true, false, not, ◌&&◌, Option, none, some, List, [], ◌∷◌,
  ◌≡◌, refl, ap, inl, inr, ◌⊎◌, arith, ltb, leb, is_empty, length, contains, if◌then◌else◌,
}
use Prim.Native.Char.{Char}
use mathlib.Core.Path.{subst}
use datafog.Prelude.Int.{pos}
use datafog.Strings.{Unicode, Bytes, to_lower}
use datafog.Models.{ScanFinding}
use datafog.Scan.Filters.{should_run_ner_for_filter}
use datafog.Scan.Tokens.{Encoding, TokenInfo, encode}
use datafog.Scan.Dictionaries.{
  common_first_names, org_suffixes, person_triggers, location_triggers, well_known_locations,
}
use datafog.Scan.Layout.{Laid, Laid-weaken, tokenize-Laid, tokenize_ends}
use datafog.Scan.Ner.{
  slice, last_end, last_token, build_span_text, finding, Wanted, is_title_case, gather, org_finding,
  classify, add_finding, scan_tokens, scan_all, scan_ner_with_filter, scan_ner, wanted,
}

-- the end of the first `n` tokens
end_after : ℕ → ℕ → List TokenInfo → ℕ
end_after lo zero ts = lo
end_after lo (suc n) [] = lo
end_after lo (suc n) (tok ∷ rest) = end_after tok.end n rest

either_branch :
    (b c : Bool) (x y : List TokenInfo)
    → ((if b then x else (if c then x else y)) ≡ x) ⊎ ((if b then x else (if c then x else y)) ≡ y)
either_branch true c x y = inl refl
either_branch false true x y = inl refl
either_branch false false x y = inr refl

Laid-behind :
    (hi lo : ℕ) (tok : TokenInfo) (rest : List TokenInfo)
    → Laid hi lo (tok ∷ rest)
    → Laid hi lo rest
unfolding Laid
Laid-behind hi lo tok rest (a, b, c, d) = Laid-weaken hi tok.end lo rest (omega arith) d

module _ (text : Bytes) where
  -- a finding on bytes of the text, from `lo` on and up to `end`, that carries these bytes
  unfoldable pub IsFound : ℕ → ℕ → ScanFinding → Type 0
  IsFound lo end f =
      (start : ℕ) × (f.start ≡ pos start)
      × (f.end ≡ pos end)
      × (lo ≤ start)
      × (start < end)
      × (end ≤ length text)
      × (f.value ≡ slice text start end)

  -- findings one behind the other, from `lo` on
  unfoldable pub InOrder : ℕ → List ScanFinding → Type 0
  InOrder lo [] = Unit
  InOrder lo (f ∷ fs) = (end : ℕ) × IsFound lo end f × InOrder end fs

  InOrder-weaken : (lo low : ℕ) (fs : List ScanFinding) → low ≤ lo → InOrder lo fs → InOrder low fs
  unfolding InOrder IsFound
  InOrder-weaken lo low [] h k = tt
  InOrder-weaken lo low (f ∷ fs) h (end, (start, a, b, c, d, e, g), later) =
      (end, (start, a, b, omega arith, d, e, g), later)

  span_ends :
      (lo : ℕ) (tok : TokenInfo) (more : List TokenInfo)
      → Laid (length text) lo (tok ∷ more)
      → (tok.start < last_end tok more) × (last_end tok more ≤ length text)
  unfolding Laid
  span_ends lo tok [] (a, b, c, d) = (b, c)
  span_ends lo tok (next ∷ more) (a, b, c, d) =
      let (later, within) = span_ends tok.end next more d in (omega (arith, d.0), within)

  finding-IsFound :
      (entity_type : String) (confidence lo : ℕ) (tok : TokenInfo) (more : List TokenInfo)
      → Laid (length text) lo (tok ∷ more)
      → IsFound lo (last_end tok more) (finding entity_type confidence text tok more)
  unfolding IsFound build_span_text Laid
  finding-IsFound entity_type confidence lo tok more laid =
      let (some_byte, within) = span_ends lo tok more laid in
      let inside : ltb (length text) (last_end tok more) ≡ false = ground (arith, within) in
      let filled : leb (last_end tok more) tok.start ≡ false = ground (arith, some_byte) in
      (tok.start, refl, refl, laid.0, some_byte, within, rw (inside, filled) refl)

  IsFoundOption : ℕ → ℕ → Option ScanFinding → Type 0
  IsFoundOption lo end none = Unit
  IsFoundOption lo end (some f) = IsFound lo end f

  five_branches :
      (a b c d g : Bool) (lo end : ℕ) (f1 f2 f3 f4 f5 : ScanFinding)
      → IsFound lo end f1
      → IsFound lo end f2
      → IsFound lo end f3
      → IsFound lo end f4
      → IsFound lo end f5
      → IsFoundOption lo end (
          if a
          then some f1
          else (if b
              then some f2
              else (if c then some f3 else (if d then some f4 else (if g then some f5 else none)))))
  unfolding IsFoundOption
  five_branches true b c d g lo end f1 f2 f3 f4 f5 h1 h2 h3 h4 h5 = h1
  five_branches false true c d g lo end f1 f2 f3 f4 f5 h1 h2 h3 h4 h5 = h2
  five_branches false false true d g lo end f1 f2 f3 f4 f5 h1 h2 h3 h4 h5 = h3
  five_branches false false false true g lo end f1 f2 f3 f4 f5 h1 h2 h3 h4 h5 = h4
  five_branches false false false false true lo end f1 f2 f3 f4 f5 h1 h2 h3 h4 h5 = h5
  five_branches false false false false false lo end f1 f2 f3 f4 f5 h1 h2 h3 h4 h5 = tt

  if-IsFound :
      (b : Bool) (lo end : ℕ) (f g : ScanFinding)
      → IsFound lo end f
      → IsFound lo end g
      → IsFound lo end (if b then f else g)
  if-IsFound true lo end f g h k = h
  if-IsFound false lo end f g h k = k

  add_finding-InOrder :
      (o : Option ScanFinding) (skipped lo end next : ℕ) (later : ℕ → List ScanFinding)
      → IsFoundOption lo end o
      → lo ≤ next
      → InOrder next (later 0)
      → InOrder end (later skipped)
      → InOrder lo (add_finding o skipped later)
  unfolding IsFoundOption InOrder
  add_finding-InOrder none skipped lo end next later found h k l = InOrder-weaken next lo _ h k
  add_finding-InOrder (some f) skipped lo end next later found h k l = (end, found, l)

  if-InOrder :
      (b : Bool) (lo : ℕ) (fs gs : List ScanFinding)
      → InOrder lo fs
      → InOrder lo gs
      → InOrder lo (if b then fs else gs)
  if-InOrder true lo fs gs h k = h
  if-InOrder false lo fs gs h k = k

  module _ ⦃u : Unicode⦄ ⦃e : Encoding⦄ where
    gather-cases :
        (next : TokenInfo) (rest : List TokenInfo)
        → (gather (next ∷ rest) ≡ next ∷ gather rest) ⊎ (gather (next ∷ rest) ≡ [])
    unfolding gather
    gather-cases next rest = either_branch _ _ _ _

    gather_nil-Laid : (hi lo : ℕ) → Laid hi lo (gather [])
    unfolding Laid gather
    gather_nil-Laid hi lo = tt

    gather-Laid : (hi lo : ℕ) (rest : List TokenInfo) → Laid hi lo rest → Laid hi lo (gather rest)
    unfolding Laid
    gather-Laid hi lo [] laid = gather_nil-Laid hi lo
    gather-Laid hi lo (next ∷ rest) (a, b, c, d) = elim (gather-cases next rest) [
      | inl e ↦ rw e (a, b, c, gather-Laid hi next.end rest d)
      | inr e ↦ rw e tt
    ]

    gather_nil :
        (tok : TokenInfo) → end_after tok.end (length (gather [])) [] ≡ last_end tok (gather [])
    unfolding end_after gather
    gather_nil tok = refl

    end_after-gather :
        (tok : TokenInfo) (rest : List TokenInfo)
        → end_after tok.end (length (gather rest)) rest ≡ last_end tok (gather rest)
    unfolding end_after
    end_after-gather tok [] = gather_nil tok
    end_after-gather tok (next ∷ rest) = elim (gather-cases next rest) [
      | inl e ↦ rw e (end_after-gather next rest)
      | inr e ↦ rw e refl
    ]

    org_finding-IsFound :
        (initial : Bool) (lo : ℕ) (tok : TokenInfo) (more : List TokenInfo)
        → Laid (length text) lo (tok ∷ more)
        → IsFound lo (last_end tok more) (org_finding text initial tok more)
    unfolding org_finding
    org_finding-IsFound initial lo tok [] laid = finding-IsFound _ _ lo tok [] laid
    org_finding-IsFound initial lo tok (next ∷ more) laid =
        let first_lower = to_lower tok.text in
        if-IsFound
          (initial
            && (not (contains first_lower common_first_names)
                && not (contains first_lower org_suffixes)))
          lo _ _ _
          (finding-IsFound "organization" 650 lo next more
            (Laid-behind (length text) lo tok (next ∷ more) laid))
          (finding-IsFound "organization" 650 lo tok (next ∷ more) laid)

    classify-IsFound :
        (want : Wanted) (prev : String) (initial : Bool) (lo : ℕ) (tok : TokenInfo)
        (more : List TokenInfo)
        → Laid (length text) lo (tok ∷ more)
        → IsFoundOption lo (last_end tok more) (classify text want prev initial tok more)
    unfolding classify IsFoundOption
    classify-IsFound want prev initial lo tok more laid =
        let found : (entity_type : String) (confidence : ℕ)
            → IsFound lo (last_end tok more) (finding entity_type confidence text tok more) =
          λ entity_type confidence. finding-IsFound entity_type confidence lo tok more laid in
        let org =
          want.organization && contains (to_lower (last_token tok more).text) org_suffixes in
        let titled = want.person && contains prev person_triggers in
        let named =
          want.person && (not (is_empty more) && contains (to_lower tok.text) common_first_names) in
        let known =
          want.location
          && contains (to_lower (e.runes (build_span_text text tok more))) well_known_locations in
        let placed = want.location && contains prev location_triggers in
        five_branches org titled named known placed lo _ _ _ _ _ _
          (org_finding-IsFound initial lo tok more laid) (found "person" 800) (found "person" 700)
          (found "location" 800) (found "location" 650)

    scan_tokens-InOrder :
        (want : Wanted) (skipped lo : ℕ) (prev : Option TokenInfo) (ts : List TokenInfo)
        → Laid (length text) lo ts
        → InOrder (end_after lo skipped ts) (scan_tokens text want skipped prev ts)
    unfolding scan_tokens end_after InOrder Laid
    scan_tokens-InOrder want zero lo prev [] laid = tt
    scan_tokens-InOrder want (suc n) lo prev [] laid = tt
    scan_tokens-InOrder want (suc n) lo prev (tok ∷ rest) (a, b, c, d) =
        scan_tokens-InOrder want n tok.end (some tok) rest d
    scan_tokens-InOrder want zero lo prev (tok ∷ rest) (a, b, c, d) =
        let more = gather rest in
        let later : ℕ → List ScanFinding = λ n. scan_tokens text want n (some tok) rest in
        let next = scan_tokens-InOrder want 0 tok.end (some tok) rest d in
        let behind : InOrder (last_end tok more) (later (length more)) =
          subst (λ end. InOrder end (later (length more))) (end_after-gather tok rest)
            (scan_tokens-InOrder want (length more) tok.end (some tok) rest d) in
        if-InOrder (is_title_case tok.text) lo _ _
          (add_finding-InOrder _ (length more) lo (last_end tok more) tok.end later
            (classify-IsFound want _ _ lo tok more
              (a, b, c, gather-Laid (length text) tok.end rest d))
            (omega arith) next behind)
          (InOrder-weaken tok.end lo _ (omega arith) next)

unfoldable pub IsScanned : Bytes → Option (List ScanFinding) → Type 0
IsScanned text o = (fs : List ScanFinding) × (o ≡ some fs) × InOrder text 0 fs

if-IsScanned :
    (text : Bytes) (b : Bool) (o : Option (List ScanFinding))
    → IsScanned text o
    → (fs : List ScanFinding) × ((if b then some [] else o) ≡ some fs) × InOrder text 0 fs
unfolding IsScanned InOrder
if-IsScanned text true o h = ([], refl, tt)
if-IsScanned text false o h = h

pub scan_with-IsScanned :
    ⦃u : Unicode⦄ ⦃e : Encoding⦄ (text : Bytes) (ner_enabled : Bool) (requested : List String)
    → ((c : Char) → 0 < length (e.utf8 c))
    → encode (e.runes text) ≡ text
    → IsScanned text (scan_ner_with_filter ner_enabled text requested)
unfolding IsScanned scan_ner_with_filter end_after
scan_with-IsScanned ⦃u⦄ ⦃e⦄ text ner_enabled requested some_byte valid =
    let (ts, tokens) = tokenize_ends text in
    let laid = tokenize-Laid text ts some_byte valid tokens in
    let found = scan_tokens-InOrder text (wanted requested) 0 0 none ts laid in
    if-IsScanned text (not ner_enabled) _ (
      if-IsScanned text (not (is_empty requested) && not (should_run_ner_for_filter requested)) _ (
        scan_tokens text (wanted requested) 0 none ts,
        ap (scan_all text (wanted requested)) tokens,
        found,
      ))

-- Every finding of the recogniser stands in valid UTF-8 text, is not empty, carries the bytes between
-- its offsets, and begins where the one before it has ended or later; and the recogniser returns.
pub scan_ner-InOrder :
    ⦃u : Unicode⦄ ⦃e : Encoding⦄ (text : Bytes) (ner_enabled : Bool) (entity_filter : List String)
    → ((c : Char) → 0 < length (e.utf8 c))
    → encode (e.runes text) ≡ text
    → (fs : List ScanFinding) × (scan_ner ner_enabled text entity_filter ≡ some fs)
      × InOrder text 0 fs
unfolding scan_ner
scan_ner-InOrder ⦃u⦄ ⦃e⦄ text ner_enabled entity_filter some_byte valid =
    if-IsScanned text (not ner_enabled) _ (scan_with-IsScanned text ner_enabled _ some_byte valid)
