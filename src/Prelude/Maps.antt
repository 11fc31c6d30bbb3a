-- ===== src/Prelude/Maps.antt =====
-- Go's maps with string keys, as association lists. A map's `range` yields its entries in no fixed
-- order: here it is the order of the list, and a theorem about every list is one about every order.
use Prim.Native.String.{String}
use mathlib.Core.Path.{◌≡◌, refl}
use mathlib.Core.Bool.{Bool, true, false}
use mathlib.Core.Option.{Option, none, some}
use mathlib.Core.List.{List, [], ◌∷◌}
use native.Mathlib.Omega.{arith}
use text.Mathlib.Text.{◌==◌}
use text.Mathlib.TextEquality.{eq_iff}
use package.datafog.Prelude.Tests.{if◌then◌else◌}

abbrev pub Dict {ℓ} : Type ℓ → Type ℓ
Dict V = List (String × V)

module _ {ℓ} {V : Type ℓ} where
  -- v, ok := m[k]
  unfoldable pub lookup : String → Dict V → Option V
  lookup k [] = none
  lookup k ((j, v) ∷ m) = if j == k then some v else lookup k m

  -- m[k] = v
  unfoldable pub insert : String → V → Dict V → Dict V
  insert key value [] = (key, value) ∷ []
  insert key value ((first, old) ∷ rest) =
      let later = insert key value rest in
      if first == key then (key, value) ∷ rest else (first, old) ∷ later

  -- _, ok := m[k]
  unfoldable pub has_key : String → Dict V → Bool
  has_key k [] = false
  has_key k ((j, v) ∷ m) = if j == k then true else has_key k m

  -- delete(m, k)
  unfoldable pub delete : String → Dict V → Dict V
  delete k [] = []
  delete k ((j, v) ∷ m) = let rest = delete k m in if j == k then rest else (j, v) ∷ rest

  -- Deleting one key leaves the others.
  pub lookup-delete :
      (deleted asked : String) (dict : Dict V)
      → lookup asked (delete deleted dict) ≡ (if deleted == asked then none else lookup asked dict)
  unfolding delete lookup
  lookup-delete deleted asked [] = ground arith
  lookup-delete deleted asked ((first, old) ∷ rest) = ground (
    arith,
    lookup-delete deleted asked rest,
    eq_iff first asked,
    eq_iff first deleted,
    eq_iff deleted asked,
  )

  -- Writing one key leaves the others.
  pub lookup-insert :
      (written asked : String) (value : V) (dict : Dict V)
      → lookup asked (insert written value dict)
        ≡ (if written == asked then some value else lookup asked dict)
  unfolding insert lookup
  lookup-insert written asked value [] = refl
  lookup-insert written asked value ((first, old) ∷ rest) = ground (
    arith,
    lookup-insert written asked value rest,
    eq_iff first asked,
    eq_iff first written,
    eq_iff written asked,
  )

  pub has_key-insert :
      (written asked : String) (value : V) (dict : Dict V)
      → has_key asked (insert written value dict)
        ≡ (if written == asked then true else has_key asked dict)
  unfolding insert has_key
  has_key-insert written asked value [] = refl
  has_key-insert written asked value ((first, old) ∷ rest) = ground (
    arith,
    has_key-insert written asked value rest,
    eq_iff first asked,
    eq_iff first written,
    eq_iff written asked,
  )

-- A `map[string]struct{}` or a slice searched for a string.
unfoldable pub contains : String → List String → Bool
contains k [] = false
contains k (j ∷ s) = if j == k then true else contains k s
