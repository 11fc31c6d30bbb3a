-- ===== src/Transform/Mask.antt =====
-- Plans that only mask.
use datafog.Prelude.{
  ℕ, ◌+◌, ◌≤◌, ◌<◌, Bool-cases, true, ◌≡◌, refl, inl, inr, List, [], ◌∷◌, ◌++◌, arith, some, length,
  take, drop, select, length-take, length-drop, length-append, length-replicate, replicate, String,
  Dict, lookup, insert, has_key, lookup-insert, ◌==◌, All,
}
use datafog.Prelude.Int.{pos_part}
use datafog.Strings.{Unicode, Bytes}
use datafog.Models.{ScanFinding, TransformMode, TransformStep}
use datafog.Transform.Replacement.{Digest, replacement_for_mode_with_type}
use datafog.Transform.Apply.{
  Progress, mode_map_from, mode_map, mode_of, is_planned, is_out_of_range, apply_finding,
  apply_transforms,
}
use datafog.Transform.Keeps.{apply_transforms_inv}

-- The value is as long as the range that it was found in.
abbrev pub FillsRange : ScanFinding → Type 0
FillsRange f = pos_part f.start + length f.value ≡ pos_part f.end

abbrev pub IsMask : TransformStep → Type 0
IsMask step = step.mode ≡ TransformMode.mask

abbrev MasksOnly : Dict TransformMode → Type 0
MasksOnly modes =
    (k : String) (m : TransformMode) → lookup k modes ≡ some m → m ≡ TransformMode.mask

mode_map_from-MasksOnly :
    (steps : List TransformStep) (modes : Dict TransformMode)
    → All IsMask steps
    → MasksOnly modes
    → MasksOnly (mode_map_from steps modes)
unfolding mode_map_from
mode_map_from-MasksOnly [] modes h k = k
mode_map_from-MasksOnly (step ∷ steps) modes (e, h) k =
    mode_map_from-MasksOnly steps (insert step.entity_type step.mode modes) h
      (λ key m found. ground (arith, lookup-insert step.entity_type key step.mode modes, k key m))

has_key-lookup :
    {V : Type 0} (k : String) (m : Dict V) → has_key k m ≡ true → (v : V) × (lookup k m ≡ some v)
unfolding has_key lookup
has_key-lookup k [] h = cc
has_key-lookup k ((j, v) ∷ m) h = elim (Bool-cases (j == k)) [
  | inl e ↦ rw e (v, refl)
  | inr e ↦ rw e (has_key-lookup k m (rw e at h))
]

masked :
    (modes : Dict TransformMode) (fs : List ScanFinding)
    → MasksOnly modes
    → All FillsRange fs
    → All
        (λ f. (mode_of modes f ≡ TransformMode.mask) × FillsRange f)
        (select (is_planned modes) fs)
masked modes [] k h = tt
masked modes (f ∷ fs) k (r, h) = elim (Bool-cases (is_planned modes f)) [
  | inl e ↦
      let (m, found) = has_key-lookup f.entity_type modes e in
      rw e ((rw (found, mode_of) (k f.entity_type m found), r), masked modes fs k h)
  | inr e ↦ rw e (masked modes fs k h)
]

module _ ⦃u : Unicode⦄ ⦃d : Digest⦄ where
  keeps_length :
      (n : ℕ) (modes : Dict TransformMode) (f : ScanFinding) (p : Progress)
      → (mode_of modes f ≡ TransformMode.mask) × FillsRange f
      → length p.bytes ≡ n
      → length (apply_finding modes f p).bytes ≡ n
  unfolding apply_finding replacement_for_mode_with_type
  keeps_length n modes f p (e, r) h = elim (Bool-cases (is_out_of_range f p.bytes)) [
    | inl out ↦ rw out h
    | inr within ↦
        let s = pos_part f.start in
        let t = pos_part f.end in
        let room : (s < t) × (t ≤ length p.bytes) = (ground arith, ground arith) in
        rw (within, e)
          (omega (
            arith,
            length-append (take s p.bytes) (replicate (length f.value) b'*' ++ drop t p.bytes),
            length-append {A = ℕ} (replicate (length f.value) b'*') (drop t p.bytes),
            length-replicate {A = ℕ} (length f.value) b'*',
            length-take s p.bytes,
            length-drop t p.bytes,
          ))
  ]

  -- A plan that only masks keeps the length of the text, and so every offset behind a finding,
  -- whether findings overlap or not, if each value is as long as its range.
  apply_transforms_mask_length :
      (input : Bytes) (findings : List ScanFinding) (steps : List TransformStep)
      → All IsMask steps
      → All FillsRange findings
      → length (apply_transforms input findings steps).output ≡ length input
  unfolding mode_map
  apply_transforms_mask_length input findings steps masks fill =
      apply_transforms_inv (λ bytes. length bytes ≡ length input)
        (λ modes f. (mode_of modes f ≡ TransformMode.mask) × FillsRange f)
        (keeps_length (length input)) input findings steps
        (masked (mode_map steps) findings
          (mode_map_from-MasksOnly steps [] masks (unfold lookup in λ k m e. cc)) fill)
        refl
