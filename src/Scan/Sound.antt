-- ===== src/Scan/Sound.antt =====
-- What holds of every finding of `ScanText`.
use Prim.Native.Char.{Char}
use datafog.Prelude.{
  ℕ, String, Bool, true, false, not, ◌||◌, Option, none, some, List, [], ◌∷◌, ◌++◌, ◌≡◌,
  if◌then◌else◌, refl, ap, sym, ◌∙◌, length, ◌≤◌, ◌<◌, arith, All, All-append,
}
use datafog.Prelude.Int.{ℤ, pos, pos_part, is_negative, ltb_ℤ}
use datafog.Strings.{Unicode, Bytes}
use datafog.Models.{ScanFinding}
use datafog.Scan.Filters.{requested_entity_set, should_run_entity_type, should_run_ner_for_filter}
use datafog.Scan.Tokens.{Encoding, encode}
use datafog.Scan.Ner.{slice}
use datafog.Scan.Extents.{IsFound, InOrder, IsScanned, scan_with-IsScanned}
use datafog.Scan.Detector.{
  default_scan_entity_types, validate, match_finding, keep, match_findings, pattern_findings,
  append_found, scan_text,
}

-- a match of a regular expression: a range of the text
unfoldable pub IsMatch : Bytes → List ℤ → Type 0
IsMatch text idx =
    (start : ℕ) × (end : ℕ) × (idx ≡ pos start ∷ pos end ∷ []) × (start ≤ end) × (end ≤ length text)

-- a finding on a range of the text that carries its bytes
pub IsOnText : Bytes → ScanFinding → Type 0
IsOnText text f =
    (start : ℕ) × (end : ℕ) × (f.start ≡ pos start)
    × (f.end ≡ pos end)
    × (start ≤ end)
    × (end ≤ length text)
    × (f.value ≡ slice text start end)

-- such a finding of an entity type, which its validator accepts
pub IsOfType : Bytes → String → ScanFinding → Type 0
IsOfType text entity_type f =
    IsOnText text f × (f.entity_type ≡ entity_type) × (validate entity_type f.value ≡ true)

IsOfTypeOption : Bytes → String → Option ScanFinding → Type 0
IsOfTypeOption text entity_type none = Unit
IsOfTypeOption text entity_type (some f) = IsOfType text entity_type f

if-IsOfTypeOption :
    (text : Bytes) (entity_type : String) (b : Bool) (o : Option ScanFinding)
    → (b ≡ false → IsOfTypeOption text entity_type o)
    → IsOfTypeOption text entity_type (if b then none else o)
unfolding IsOfTypeOption
if-IsOfTypeOption text entity_type true o h = tt
if-IsOfTypeOption text entity_type false o h = h refl

not-false : (b : Bool) → not b ≡ false → b ≡ true
not-false true h = refl
not-false false h = sym h

match_finding-IsOfType :
    (text : Bytes) (entity_type : String) (idx : List ℤ)
    → IsMatch text idx
    → IsOfTypeOption text entity_type (match_finding text entity_type idx)
unfolding match_finding IsMatch IsOfTypeOption IsOfType IsOnText
match_finding-IsOfType text entity_type [] h = tt
match_finding-IsOfType text entity_type (a ∷ []) h = tt
match_finding-IsOfType text entity_type (a ∷ b ∷ c ∷ more) h = tt
match_finding-IsOfType text entity_type (a ∷ b ∷ []) (start, end, same, ordered, within) =
    let first : a ≡ pos start = cc in
    let second : b ≡ pos end = cc in
    let value = slice text (pos_part a) (pos_part b) in
    if-IsOfTypeOption text entity_type (is_negative a || ltb_ℤ b a) _ λ _.
      if-IsOfTypeOption text entity_type (not (validate entity_type value)) _ λ valid. (
        (
          start,
          end,
          first,
          second,
          ordered,
          within,
          ap (λ z. slice text (pos_part z) (pos_part b)) first
              ∙ ap (λ z. slice text start (pos_part z)) second,
        ),
        refl,
        not-false _ valid,
      )

keep-All :
    (text : Bytes) (entity_type : String) (o : Option ScanFinding) (fs : List ScanFinding)
    → IsOfTypeOption text entity_type o
    → All (IsOfType text entity_type) fs
    → All (IsOfType text entity_type) (keep o fs)
unfolding IsOfTypeOption
keep-All text entity_type none fs h k = k
keep-All text entity_type (some f) fs h k = (h, k)

match_findings-All :
    (text : Bytes) (entity_type : String) (idxs : List (List ℤ))
    → All (IsMatch text) idxs
    → All (IsOfType text entity_type) (match_findings text entity_type idxs)
unfolding match_findings
match_findings-All text entity_type [] h = tt
match_findings-All text entity_type (idx ∷ idxs) (h, hs) =
    keep-All text entity_type _ _ (match_finding-IsOfType text entity_type idx h)
      (match_findings-All text entity_type idxs hs)

All-map :
    {P Q : ScanFinding → Type 0} (fs : List ScanFinding)
    → ((f : ScanFinding) → P f → Q f)
    → All P fs
    → All Q fs
All-map [] h k = tt
All-map (f ∷ fs) h (k, ks) = (h f k, All-map fs h ks)

InOrder-All :
    (text : Bytes) (lo : ℕ) (fs : List ScanFinding) → InOrder text lo fs → All (IsOnText text) fs
unfolding InOrder IsFound IsOnText
InOrder-All text lo [] h = tt
InOrder-All text lo (f ∷ fs) (end, (start, a, b, c, d, e, g), later) =
    ((start, end, a, b, omega arith, e, g), InOrder-All text end fs later)

-- a finding on the text that is asked for and that its validator accepts
abbrev pub IsAsked : Bytes → List String → ScanFinding → Type 0
IsAsked text requested f =
    IsOnText text f
    × (validate f.entity_type f.value ≡ true)
    × (should_run_entity_type requested f.entity_type ≡ true)

if-All :
    (P : ScanFinding → Type 0) (b : Bool) (fs gs : List ScanFinding)
    → (b ≡ true → All P fs)
    → All P gs
    → All P (if b then fs ++ gs else gs)
if-All P true fs gs h k = All-append _ fs gs (h refl) k
if-All P false fs gs h k = k

module _ (find_all : String → Bytes → List (List ℤ)) (text : Bytes)
    (matches : (entity_type : String) → All (IsMatch text) (find_all entity_type text)) where
  -- If each expression finds ranges of the text, every finding of the expressions is one on the text
  -- that carries its bytes, of an entity type that is asked for, with a value that the validator of
  -- that type accepts.
  pattern_findings-All :
      (requested entity_types : List String)
      → All (IsAsked text requested) (pattern_findings find_all text requested entity_types)
  unfolding pattern_findings IsOfType
  pattern_findings-All requested [] = tt
  pattern_findings-All requested (entity_type ∷ entity_types) =
      if-All _ (should_run_entity_type requested entity_type) _ _
        (λ asked.
          All-map _
            (λ f (on_text, same, valid). (
              on_text,
              ap (λ t. validate t f.value) same ∙ valid,
              ap (should_run_entity_type requested) same ∙ asked,
            ))
            (match_findings-All text entity_type _ (matches entity_type)))
        (pattern_findings-All requested entity_types)

  IsSound : Option (List ScanFinding) → Type 0
  IsSound o = (fs : List ScanFinding) × (o ≡ some fs) × All (IsOnText text) fs

  append_found-IsSound :
      (fs : List ScanFinding) (o : Option (List ScanFinding))
      → All (IsOnText text) fs
      → IsScanned text o
      → IsSound (append_found fs o)
  unfolding IsSound IsScanned
  append_found-IsSound fs o h (more, e, k) =
      (fs ++ more, ap (append_found fs) e, All-append _ fs more h (InOrder-All text 0 more k))

  if-IsSound :
      (b : Bool) (fs : List ScanFinding) (o : Option (List ScanFinding))
      → All (IsOnText text) fs
      → IsSound o
      → IsSound (if b then some fs else o)
  unfolding IsSound
  if-IsSound true fs o h k = (fs, refl, h)
  if-IsSound false fs o h k = k

  -- On valid UTF-8, if each expression finds ranges of the text, `ScanText` returns, and every finding
  -- is on a range of the text and carries its bytes.
  pub scan_text-All :
      ⦃u : Unicode⦄ ⦃e : Encoding⦄ (ner_enabled : Bool) (entity_filter : List String)
      → ((c : Char) → 0 < length (e.utf8 c))
      → encode (e.runes text) ≡ text
      → (fs : List ScanFinding) × (scan_text find_all ner_enabled text entity_filter ≡ some fs)
        × All (IsOnText text) fs
  unfolding scan_text IsSound
  scan_text-All ⦃u⦄ ⦃e⦄ ner_enabled entity_filter some_byte valid =
      let requested = requested_entity_set entity_filter in
      let found =
        All-map _ (λ f k. k.0) (pattern_findings-All requested default_scan_entity_types) in
      if-IsSound (not (should_run_ner_for_filter requested)) _ _ found (
        append_found-IsSound _ _ found
          (scan_with-IsScanned text ner_enabled requested some_byte valid))
