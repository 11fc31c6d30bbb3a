-- ===== src/Transform/Render.antt =====
-- Findings that do not overlap are replaced one by one, and the text between them is kept.
use datafog.Prelude.{
  ℕ, ◌+◌, ◌≤◌, ◌<◌, Bool-cases, true, false, ◌≡◌, ◌∙◌, refl, ◌⊎◌, inl, inr, List, [], ◌∷◌, ◌++◌,
  append_assoc, append-nil, arith, length, is_empty, take, drop, select, length-take, length-append,
  take-append, drop-append, sym, Dict, All, AllPairs, All-select, AllPairs-select,
}
use datafog.Prelude.Int.{pos_part, neg_part, ◌≤ℤ◌}
use datafog.Prelude.Sort.{
  IsSorted, stable_sort, stable_sort-IsSorted, stable_sort-All, stable_sort-AllPairs,
}
use datafog.Strings.{Unicode, Bytes}
use datafog.Models.{ScanFinding, TransformMode, TransformStep}
use datafog.Transform.Replacement.{Digest}
use datafog.Transform.Apply.{
  Progress, mode_map, later, is_planned, prepare, replacement, is_out_of_range, apply_finding,
  apply_findings, apply_transforms,
}

-- The finding covers at least one byte of a text of `n` bytes.
pub record IsWithin (n : ℕ) (f : ScanFinding) : Type 0 where
  pub start : neg_part f.start ≡ 0
  pub order : pos_part f.start < pos_part f.end
  pub end : pos_part f.end ≤ n

-- No byte belongs to both.
abbrev pub IsDisjoint : ScanFinding → ScanFinding → Type 0
IsDisjoint f g = (f.end ≤ℤ g.start) ⊎ (g.end ≤ℤ f.start)

-- from the back to the front, each finding ending before the one behind it
abbrev IsDescending : ℕ → List ScanFinding → Type 0
IsDescending n [] = Unit
IsDescending n (f ∷ fs) = IsWithin n f × IsDescending (pos_part f.start) fs

in_range :
    (n : ℕ) (f : ScanFinding) (bytes : Bytes)
    → IsWithin n f
    → n ≤ length bytes
    → is_out_of_range f bytes ≡ false
in_range n f bytes w h = ground arith

module _ ⦃u : Unicode⦄ ⦃d : Digest⦄ (modes : Dict TransformMode) where
  -- The text with the findings replaced, the last of them first in the list.
  abbrev pub render : List ScanFinding → Bytes → Bytes
  render [] bytes = bytes
  render (f ∷ fs) bytes =
      render fs (take (pos_part f.start) bytes)
      ++ (replacement modes f ++ drop (pos_part f.end) bytes)

  apply_finding_step :
      (n : ℕ) (f : ScanFinding) (p : Progress)
      → IsWithin n f
      → n ≤ length p.bytes
      → ((apply_finding modes f p).bytes
          ≡ take (pos_part f.start) p.bytes
            ++ (replacement modes f ++ drop (pos_part f.end) p.bytes))
        × ((apply_finding modes f p).count ≡ p.count + 1)
  unfolding apply_finding
  apply_finding_step n f p w h = rw (in_range n f p.bytes w h) (refl, refl)

  -- what stands behind the findings does not matter to them
  apply_findings-append :
      (fs : List ScanFinding) (p : Progress) (xs ys : Bytes)
      → p.bytes ≡ xs ++ ys
      → IsDescending (length xs) fs
      → ((apply_findings modes fs p).bytes ≡ render fs xs ++ ys)
        × ((apply_findings modes fs p).count ≡ p.count + length fs)
  unfolding apply_findings
  apply_findings-append [] p xs ys e h = (e, omega arith)
  apply_findings-append (f ∷ fs) p xs ys e (w, h) =
      let s = pos_part f.start in
      let t = pos_part f.end in
      let new = replacement modes f in
      let behind : Bytes = (new ++ drop t xs) ++ ys in
      let fits : length xs ≤ length p.bytes = (rw e (omega (arith, length-append xs ys))) in
      let (bytes, count) = apply_finding_step (length xs) f p w fits in
      let cut : (apply_finding modes f p).bytes ≡ take s xs ++ behind =
        bytes
        ∙ (rw (e, take-append s xs ys (omega arith), drop-append t xs ys w.end, append_assoc)) in
      let shorter : length (take s xs) ≡ s = omega (arith, length-take s xs) in
      let (same, total) =
        apply_findings-append fs (apply_finding modes f p) (take s xs) behind cut (rw shorter h) in
      (
        same ∙ sym (append_assoc (render fs (take s xs)) (new ++ drop t xs) ys),
        omega (arith, total, count),
      )

later_flip : (x y : ScanFinding) → later y x ≡ true → later x y ≡ false
later_flip x y h = ground arith

later_chain : (x y z : ScanFinding) → later y x ≡ false → later z y ≡ false → later z x ≡ false
later_chain x y z h k = ground arith

-- Sorted findings that do not overlap descend.
descend :
    (n : ℕ) (fs : List ScanFinding)
    → All (IsWithin n) fs
    → AllPairs IsDisjoint fs
    → IsSorted later fs
    → IsDescending n fs
descend n [] w d s = tt
descend n (f ∷ fs) (wf, w) (df, d) (sf, s) =
    (wf, descend (pos_part f.start) fs (narrow fs w df sf) d s)
  where
    narrow :
        (gs : List ScanFinding)
        → All (IsWithin n) gs
        → All (IsDisjoint f) gs
        → All (λ g. later g f ≡ false) gs
        → All (IsWithin (pos_part f.start)) gs
    narrow [] _ _ _ = tt
    narrow (g ∷ gs) (v, vs) (e, es) (l, ls) = (ground arith, narrow gs vs es ls)

nil_of_is_empty {ℓ} : {A : Type ℓ} (xs : List A) → is_empty xs ≡ true → xs ≡ []
nil_of_is_empty [] h = refl
nil_of_is_empty (x ∷ xs) h = cc

IsDisjoint-sym : (f g : ScanFinding) → IsDisjoint f g → IsDisjoint g f
IsDisjoint-sym f g (inl h) = inr h
IsDisjoint-sym f g (inr h) = inl h

prepare-IsDescending :
    (modes : Dict TransformMode) (n : ℕ) (findings : List ScanFinding)
    → All (IsWithin n) findings
    → AllPairs IsDisjoint findings
    → IsDescending n (prepare modes findings)
unfolding prepare
prepare-IsDescending modes n findings w d =
    let fs = select (is_planned modes) findings in
    descend n (stable_sort later fs)
      (stable_sort-All later (IsWithin n) fs (All-select (IsWithin n) _ findings w))
      (stable_sort-AllPairs later IsDisjoint IsDisjoint-sym fs
        (AllPairs-select IsDisjoint _ findings d))
      (stable_sort-IsSorted later later_flip later_chain fs)

module _ ⦃u : Unicode⦄ ⦃d : Digest⦄ where
  -- Of findings that lie in the text and do not overlap, every one whose type the plan names is
  -- replaced by its replacement, all other bytes stay as they are and where they are, and the
  -- count is that of the findings replaced.
  pub apply_transforms-render :
      (input : Bytes) (findings : List ScanFinding) (steps : List TransformStep)
      → All (IsWithin (length input)) findings
      → AllPairs IsDisjoint findings
      → ((apply_transforms input findings steps).output
          ≡ render (mode_map steps) (prepare (mode_map steps) findings) input)
        × ((apply_transforms input findings steps).stats.entities_transformed
            ≡ length (prepare (mode_map steps) findings))
  unfolding apply_transforms prepare stable_sort
  apply_transforms-render input [] steps w e = (refl, refl)
  apply_transforms-render input (f ∷ fs) steps w e =
      let modes = mode_map steps in
      let planned = select (is_planned modes) (f ∷ fs) in
      let p : Progress = record { bytes = input; applied_modes = []; count = 0 } in
      let (same, total) =
        apply_findings-append modes (prepare modes (f ∷ fs)) p input [] (sym (append-nil input))
          (prepare-IsDescending modes (length input) (f ∷ fs) w e) in
      elim (Bool-cases (is_empty planned)) [
        | inl none_planned ↦ rw (none_planned, nil_of_is_empty planned none_planned) (refl, refl)
        | inr some_planned ↦ rw some_planned (same ∙ append-nil _, omega (arith, total))
      ]
