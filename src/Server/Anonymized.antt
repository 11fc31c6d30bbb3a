-- ===== src/Server/Anonymized.antt =====
-- What handleAnonymize makes of the findings, and what a repeated request gets.
use mathlib.Core.Path.{subst}
use datafog.Prelude.{
  String, Bool, true, false, some, List, [], ◌∷◌, ◌≡◌, refl, ap, ◌∙◌, ◌==◌, Dict, lookup, insert,
  has_key, contains, length, select, All, AllPairs, arith, lookup-insert, eq_iff, Bool-cases, inl,
  inr,
}
use datafog.Prelude.Sort.{stable_sort, length-stable_sort}
use datafog.Strings.{Unicode, Bytes}
use datafog.Models.{ScanFinding, TransformMode, AnonymizeRequest, Policy}
use datafog.Transform.Replacement.{Digest}
use datafog.Transform.Apply.{mode_map_from, mode_map, later, is_planned, prepare, mode_of}
use datafog.Transform.Render.{IsWithin, IsDisjoint, render, apply_transforms-render}
use datafog.Server.Decide.{Wire}
use datafog.Server.Handlers.{Payloads, anonymize_plan, findings_or_scan, anonymize_response}

abbrev IsAnonymized : String → Dict TransformMode → Type 0
IsAnonymized k modes = lookup k modes ≡ some TransformMode.anonymize

insert-IsAnonymized :
    (j k : String) (modes : Dict TransformMode)
    → IsAnonymized k modes
    → IsAnonymized k (insert j TransformMode.anonymize modes)
insert-IsAnonymized j k modes h =
    lookup-insert j k TransformMode.anonymize modes ∙ ground (arith, h)

insert_here :
    (k : String) (modes : Dict TransformMode)
    → IsAnonymized k (insert k TransformMode.anonymize modes)
insert_here k modes =
    let same : (k == k) ≡ true = (eq_iff k k).1 refl in
    lookup-insert k k TransformMode.anonymize modes ∙ (rw same refl)

-- a step of the plan takes nothing back
plan_keeps :
    (k : String) (seen : List String) (fs : List ScanFinding) (modes : Dict TransformMode)
    → IsAnonymized k modes
    → IsAnonymized k (mode_map_from (anonymize_plan seen fs) modes)
unfolding mode_map_from anonymize_plan
plan_keeps k seen [] modes h = h
plan_keeps k seen (f ∷ fs) modes h = elim (Bool-cases (contains f.entity_type seen)) [
  | inl e ↦ rw e (plan_keeps k seen fs modes h)
  | inr e ↦ rw e (
      plan_keeps k (f.entity_type ∷ seen) fs (insert f.entity_type TransformMode.anonymize modes)
        (insert-IsAnonymized f.entity_type k modes h))
]

covered :
    (j : String) (seen : List String) (modes : Dict TransformMode)
    → ((k : String) → contains k seen ≡ true → IsAnonymized k modes)
    → (k : String) → contains k (j ∷ seen) ≡ true
    → IsAnonymized k (insert j TransformMode.anonymize modes)
unfolding contains
covered j seen modes h k c = elim (Bool-cases (j == k)) [
  | inl e ↦
      subst (λ x. IsAnonymized x (insert j TransformMode.anonymize modes)) ((eq_iff j k).0 e)
        (insert_here j modes)
  | inr e ↦ insert-IsAnonymized j k modes (h k (rw e at c))
]

has_key-lookup :
    (k : String) (modes : Dict TransformMode) → IsAnonymized k modes → has_key k modes ≡ true
unfolding has_key lookup
has_key-lookup k [] h = cc
has_key-lookup k ((j, m) ∷ modes) h = elim (Bool-cases (j == k)) [
  | inl e ↦ rw e refl
  | inr e ↦ rw e (has_key-lookup k modes (rw e at h))
]

select-All :
    (p : ScanFinding → Bool) (fs : List ScanFinding) → All (λ f. p f ≡ true) fs → select p fs ≡ fs
select-All p [] h = refl
select-All p (f ∷ fs) (h, hs) = rw h (ap (◌∷◌ f) (select-All p fs hs))

All-IsAnonymized :
    (modes : Dict TransformMode) (fs : List ScanFinding)
    → All (λ f. IsAnonymized f.entity_type modes) fs
    → All (λ f. is_planned modes f ≡ true) fs
      × All (λ f. mode_of modes f ≡ TransformMode.anonymize) fs
All-IsAnonymized modes [] h = (tt, tt)
All-IsAnonymized modes (f ∷ fs) (h, hs) =
    let (planned, mode) = All-IsAnonymized modes fs hs in
    ((has_key-lookup f.entity_type modes h, planned), (rw (mode_of, h) refl, mode))

plan_seen :
    (seen : List String) (f : ScanFinding) (fs : List ScanFinding)
    → contains f.entity_type seen ≡ true
    → anonymize_plan seen fs ≡ anonymize_plan seen (f ∷ fs)
unfolding anonymize_plan
plan_seen seen f fs e = rw e refl

plan_new :
    (seen : List String) (f : ScanFinding) (fs : List ScanFinding)
    → contains f.entity_type seen ≡ false
    → record { entity_type = f.entity_type; mode = TransformMode.anonymize }
        ∷ anonymize_plan (f.entity_type ∷ seen) fs
      ≡ anonymize_plan seen (f ∷ fs)
unfolding anonymize_plan
plan_new seen f fs e = rw e refl

plan_covers :
    (seen : List String) (fs : List ScanFinding) (modes : Dict TransformMode)
    → ((k : String) → contains k seen ≡ true → IsAnonymized k modes)
    → All (λ f. IsAnonymized f.entity_type (mode_map_from (anonymize_plan seen fs) modes)) fs
unfolding mode_map_from
plan_covers seen [] modes h = tt
plan_covers seen (f ∷ fs) modes h = elim (Bool-cases (contains f.entity_type seen)) [
  | inl e ↦
      subst (λ plan. All (λ g. IsAnonymized g.entity_type (mode_map_from plan modes)) (f ∷ fs))
        (plan_seen seen f fs e)
        (plan_keeps f.entity_type seen fs modes (h f.entity_type e), plan_covers seen fs modes h)
  | inr e ↦
      let more = insert f.entity_type TransformMode.anonymize modes in
      subst (λ plan. All (λ g. IsAnonymized g.entity_type (mode_map_from plan modes)) (f ∷ fs))
        (plan_new seen f fs e)
        (
          plan_keeps f.entity_type (f.entity_type ∷ seen) fs more (insert_here f.entity_type modes),
          plan_covers (f.entity_type ∷ seen) fs more (covered f.entity_type seen modes h),
        )
]

no_type_seen : (k : String) → contains k [] ≡ true → IsAnonymized k []
unfolding contains
no_type_seen k h = cc

module _ ⦃u : Unicode⦄ ⦃d : Digest⦄ (wire : Wire) (payloads : Payloads)
    (scan : Bytes → List String → List ScanFinding) where
  -- If the findings, those of the request or else the scanner's, lie in the text and do not overlap,
  -- `handleAnonymize` answers with the text in which every one of them is replaced, each by the
  -- replacement of the mode anonymize, and with their number.
  pub anonymize_response-render :
      (policy : Policy) (req : AnonymizeRequest)
      → let fs = findings_or_scan scan req.text req.findings in
        let modes = mode_map (anonymize_plan [] fs) in
        let res = anonymize_response wire payloads scan policy req in
        All (IsWithin (length req.text)) fs
        → AllPairs IsDisjoint fs
        → (res.output ≡ render modes (stable_sort later fs) req.text)
          × (res.stats.entities_transformed ≡ length fs)
          × All (λ f. mode_of modes f ≡ TransformMode.anonymize) fs
  unfolding anonymize_response prepare mode_map
  anonymize_response-render policy req w e =
      let fs = findings_or_scan scan req.text req.findings in
      let modes = mode_map (anonymize_plan [] fs) in
      let (planned, mode) = All-IsAnonymized modes fs (plan_covers [] fs [] no_type_seen) in
      let (output, count) = apply_transforms-render req.text fs (anonymize_plan [] fs) w e in
      let all : prepare modes fs ≡ stable_sort later fs =
        ap (stable_sort later) (select-All (is_planned modes) fs planned) in
      (
        output ∙ ap (λ x. render modes x req.text) all,
        count ∙ ap length all ∙ length-stable_sort later fs,
        mode,
      )
