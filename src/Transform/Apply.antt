-- ===== src/Transform/Apply.antt =====
-- `ApplyTransforms`.
use Prim.Native.Nat.{Ordering}
use Prim.Native.String
use Prim.Native.String.{compare}
use datafog.Prelude.{
  ℕ, ◌+◌, String, Bool, true, false, not, ◌||◌, none, some, List, [], ◌∷◌, ◌++◌, length, is_empty,
  take, drop, select, Dict, lookup, insert, has_key, contains, if◌then◌else◌,
}
use datafog.Prelude.Int.{ℤ, pos, pos_part, is_negative, ltb_ℤ}
use datafog.Prelude.Sort.{stable_sort}
use datafog.Strings.{Unicode, Bytes, join}
use datafog.Models.{ScanFinding, TransformMode, TransformStep, TransformStats}
use datafog.Transform.Replacement.{Digest, replacement_for_mode_with_type}

-- a later step for a type overwrites an earlier one
unfoldable pub mode_map_from : List TransformStep → Dict TransformMode → Dict TransformMode
mode_map_from [] m = m
mode_map_from (step ∷ rest) m = mode_map_from rest (insert step.entity_type step.mode m)

unfoldable pub mode_map : List TransformStep → Dict TransformMode
unfolding mode_map_from
mode_map steps = mode_map_from steps []

-- a == b
abbrev equal_ℤ : ℤ → ℤ → Bool
equal_ℤ a b = not (ltb_ℤ a b || ltb_ℤ b a)

-- `less` of the sort: from the back of the text to its front
abbrev pub later : ScanFinding → ScanFinding → Bool
later a b = if equal_ℤ a.start b.start then ltb_ℤ b.end a.end else ltb_ℤ b.start a.start

abbrev pub is_planned : Dict TransformMode → ScanFinding → Bool
is_planned modes f = has_key f.entity_type modes

unfoldable pub prepare : Dict TransformMode → List ScanFinding → List ScanFinding
prepare modes findings = stable_sort later (select (is_planned modes) findings)

-- `modeMap[finding.EntityType]`; the zero value is the empty string
abbrev pub mode_of : Dict TransformMode → ScanFinding → TransformMode
mode_of modes f = elim (lookup f.entity_type modes) [ none ↦ TransformMode.other "" | some m ↦ m ]

abbrev pub mode_text : TransformMode → String
mode_text TransformMode.mask = "mask"
mode_text TransformMode.tokenize = "tokenize"
mode_text TransformMode.anonymize = "anonymize"
mode_text TransformMode.redact = "redact"
mode_text TransformMode.replace = "replace"
mode_text TransformMode.hash = "hash"
mode_text (TransformMode.other s) = s

-- `appliedModes[k] = true`, on the keys
abbrev add_key : String → List String → List String
add_key k keys = if contains k keys then keys else k ∷ keys

abbrev string_less : String → String → Bool
string_less s t = elim (compare s t) [ Ordering.lt ↦ true | _ ↦ false ]

-- The variables of the loop.
pub record Progress : Type 0 where
  pub bytes : Bytes
  pub applied_modes : List String
  pub count : ℕ

-- the test by which a finding is passed over
abbrev pub is_out_of_range : ScanFinding → Bytes → Bool
is_out_of_range f bytes =
    is_negative f.start || ltb_ℤ (pos (length bytes)) f.end || not (ltb_ℤ f.start f.end)

pub record Transformed : Type 0 where
  pub output : Bytes
  pub stats : TransformStats

abbrev unchanged : Bytes → Transformed
unchanged input = record {
  output = input;
  stats = record { entities_transformed = 0; modes_applied = "" };
}

module _ ⦃u : Unicode⦄ ⦃d : Digest⦄ where
  abbrev pub replacement : Dict TransformMode → ScanFinding → Bytes
  replacement modes f = replacement_for_mode_with_type (mode_of modes f) f.entity_type f.value

  -- one round of the loop
  unfoldable pub apply_finding : Dict TransformMode → ScanFinding → Progress → Progress
  apply_finding modes f p = if is_out_of_range f p.bytes then p else record {
    bytes =
        take (pos_part f.start) p.bytes ++ (replacement modes f ++ drop (pos_part f.end) p.bytes);
    applied_modes =
        add_key (String.◌++◌ f.entity_type (String.◌++◌ ":" (mode_text (mode_of modes f))))
          p.applied_modes;
    count = p.count + 1;
  }

  unfoldable pub apply_findings : Dict TransformMode → List ScanFinding → Progress → Progress
  apply_findings modes [] p = p
  apply_findings modes (f ∷ fs) p = apply_findings modes fs (apply_finding modes f p)

  finish : Progress → Transformed
  finish p = record {
    output = p.bytes;
    stats = record {
      entities_transformed = p.count;
      modes_applied = join (stable_sort string_less p.applied_modes) ",";
    };
  }

  unfoldable pub apply_transforms : Bytes → List ScanFinding → List TransformStep → Transformed
  unfolding finish
  apply_transforms input findings steps =
      let modes = mode_map steps in
      if is_empty findings
      then unchanged input
      else if is_empty (select (is_planned modes) findings)
      then unchanged input
      else finish (
          apply_findings modes (prepare modes findings)
            (record { bytes = input; applied_modes = []; count = 0 }))
