-- ===== src/Transform/Keeps.antt =====
-- What any findings leave alone, also those that overlap or lie outside the text.
use datafog.Prelude.{
  ℕ, ◌≤◌, Bool-cases, ◌≡◌, refl, inl, inr, List, [], ◌∷◌, arith, length, is_empty, take, select,
  length-take, take-append, take-take, Dict, All, All-select,
}
use datafog.Prelude.Int.{pos_part}
use datafog.Prelude.Sort.{stable_sort-All}
use datafog.Strings.{Unicode, Bytes}
use datafog.Models.{ScanFinding, TransformMode, TransformStep}
use datafog.Transform.Replacement.{Digest}
use datafog.Transform.Apply.{
  Progress, mode_map, later, is_planned, prepare, is_out_of_range, apply_finding, apply_findings,
  apply_transforms,
}

module _ ⦃u : Unicode⦄ ⦃d : Digest⦄ where
  -- An invariant of the text that one replacement keeps holds of the output.
  module _ (I : Bytes → Type 0) (Q : Dict TransformMode → ScanFinding → Type 0)
      (keep : (modes : Dict TransformMode) (f : ScanFinding) (p : Progress)
        → Q modes f
        → I p.bytes
        → I (apply_finding modes f p).bytes) where
    apply_findings_inv :
        (modes : Dict TransformMode) (fs : List ScanFinding) (p : Progress)
        → All (Q modes) fs
        → I p.bytes
        → I (apply_findings modes fs p).bytes
    unfolding apply_findings
    apply_findings_inv modes [] p q h = h
    apply_findings_inv modes (f ∷ fs) p (q, qs) h =
        apply_findings_inv modes fs (apply_finding modes f p) qs (keep modes f p q h)

    pub apply_transforms_inv :
        (input : Bytes) (findings : List ScanFinding) (steps : List TransformStep)
        → All (Q (mode_map steps)) (select (is_planned (mode_map steps)) findings)
        → I input
        → I (apply_transforms input findings steps).output
    unfolding apply_transforms
    apply_transforms_inv input findings steps q h =
        let modes = mode_map steps in
        elim (Bool-cases (is_empty findings)) [
          | inl e ↦ rw e h
          | inr e ↦ elim (Bool-cases (is_empty (select (is_planned modes) findings))) [
            | inl d ↦ rw (e, d) h
            | inr d ↦
                rw (e, d)
                  (apply_findings_inv modes (prepare modes findings) _
                    (prepare-All modes findings q) h)
          ]
        ]
      where
        prepare-All :
            (modes : Dict TransformMode) (fs : List ScanFinding)
            → All (Q modes) (select (is_planned modes) fs)
            → All (Q modes) (prepare modes fs)
        prepare-All modes fs = unfold prepare in stable_sort-All later (Q modes) _

  keeps_front :
      (m : ℕ) (front : Bytes) (modes : Dict TransformMode) (f : ScanFinding) (p : Progress)
      → m ≤ pos_part f.start
      → take m p.bytes ≡ front
      → take m (apply_finding modes f p).bytes ≡ front
  unfolding apply_finding
  keeps_front m front modes f p h e = elim (Bool-cases (is_out_of_range f p.bytes)) [
    | inl out ↦ rw out e
    | inr within ↦
        let s = pos_part f.start in
        let room : s ≤ length p.bytes = (ground arith) in
        rw
          (
            within,
            take-append m (take s p.bytes) _ (omega (arith, length-take s p.bytes)),
            take-take m s p.bytes h,
          )
          e
  ]

  -- The first bytes of a text, as many as stand in front of all findings, are kept, whether the
  -- findings overlap or not.
  apply_transforms_front :
      (input : Bytes) (findings : List ScanFinding) (steps : List TransformStep) (m : ℕ)
      → All (λ f. m ≤ pos_part f.start) findings
      → take m (apply_transforms input findings steps).output ≡ take m input
  apply_transforms_front input findings steps m h =
      apply_transforms_inv (λ bytes. take m bytes ≡ take m input) (λ _ f. m ≤ pos_part f.start)
        (keeps_front m (take m input)) input findings steps (All-select _ _ findings h) refl
