-- ===== src/Examples/TransformRuns.antt =====
-- internal/transform/transform.go, run.
use datafog.Prelude.{◌≡◌, refl, inr, arith, length, All, AllPairs}
use datafog.Strings.{ascii_tables}
use datafog.Transform.Apply.{mode_map, prepare, apply_transforms}
use datafog.Transform.Render.{IsWithin, IsDisjoint, render, apply_transforms-render}
use datafog.Examples.{zero_digest, sample_text, sample_findings, sample_plan}

pub sample_findings-IsWithin : All (IsWithin (length sample_text)) sample_findings
sample_findings-IsWithin = (
  record { start = refl; order = omega arith; end = omega arith },
  (record { start = refl; order = omega arith; end = omega arith }, tt),
)

pub sample_findings-IsDisjoint : AllPairs IsDisjoint sample_findings
sample_findings-IsDisjoint = ((inr (omega arith), tt), (tt, tt))

render_example :
    ((apply_transforms ⦃u = ascii_tables⦄ ⦃d = zero_digest⦄ sample_text sample_findings
        sample_plan).output
      ≡ render ⦃u = ascii_tables⦄ ⦃d = zero_digest⦄
          (mode_map sample_plan)
          (prepare (mode_map sample_plan) sample_findings)
          sample_text)
    × ((apply_transforms ⦃u = ascii_tables⦄ ⦃d = zero_digest⦄ sample_text sample_findings
          sample_plan).stats.entities_transformed
        ≡ length (prepare (mode_map sample_plan) sample_findings))
render_example =
    apply_transforms-render ⦃u = ascii_tables⦄ ⦃d = zero_digest⦄ sample_text sample_findings
      sample_plan sample_findings-IsWithin sample_findings-IsDisjoint
