-- ===== src/Adapters.antt =====
-- internal/adapters/registry.go, on a system that is not Windows.
pub mod Table
pub mod Matching
pub use Table.{Spec, default_adapters}
use Prim.Native.Char.{Char, code}
use Prim.Native.String
use datafog.Prelude.{
  String, Bool, true, false, not, ◌&&◌, ◌||◌, Option, none, some, List, [], ◌∷◌, ◌==◌, eqb,
  is_empty, Dict, lookup, insert, if◌then◌else◌,
}
use datafog.Strings.{Unicode, to_lower, trim_space}
use datafog.Strings.Path.{base}

-- strings.TrimSuffix(s, suffix)
unfoldable pub trim_suffix : String → String → String
trim_suffix String.[] suffix = String.[]
trim_suffix (String.◌∷◌ c s) suffix =
    let rest = String.◌∷◌ c (trim_suffix s suffix) in
    if String.◌∷◌ c s == suffix then String.[] else rest

module _ ⦃u : Unicode⦄ where
  -- the two loops of `init`
  add_aliases : String → List String → Dict String → Dict String
  add_aliases canonical [] m = m
  add_aliases canonical (alias ∷ rest) m =
      add_aliases canonical rest (insert (to_lower alias) canonical m)

  add_specs : List Spec → Dict String → Dict String
  add_specs [] m = m
  add_specs (spec ∷ rest) m =
      add_specs rest (
        add_aliases spec.canonical spec.aliases (insert (to_lower spec.canonical) spec.canonical m))

  unfoldable pub canonical_by_alias : Dict String
  unfolding add_specs add_aliases
  canonical_by_alias = add_specs default_adapters []

  unfoldable pub canonical : String → Option String
  canonical value = lookup (to_lower value) canonical_by_alias

  unfoldable pub normalize : String → String
  normalize raw =
      let raw' = trim_space raw in
      if raw' == "" then "" else trim_space (trim_suffix (to_lower (base raw')) ".exe")

  -- `canonical, _ := Canonical(value)`: "" where the value is not registered
  unfoldable pub canonical_or_empty : String → String
  canonical_or_empty value = elim (canonical value) [ none ↦ "" | some c ↦ c ]

  unfoldable pub resolve : String → String → String
  resolve raw command =
      let normalized = if normalize raw == "" then normalize command else normalize raw in
      if normalized == ""
      then ""
      else elim (canonical normalized) [ none ↦ normalized | some c ↦ c ]

  -- one round of the loop of `MatchesAdapter`
  unfoldable pub matches_target : String → String → Bool
  matches_target tool target =
      let tool_canonical = canonical_or_empty (to_lower tool) in
      let tool_lower = to_lower tool in
      let target_lower = to_lower target in
      let target_canonical = canonical_or_empty target_lower in
      tool_lower == target_lower
      || (not (tool_canonical == "") && tool_canonical == target_canonical)
      || (not (tool_canonical == "") && tool_canonical == target_lower)
      || tool_lower == target_canonical

  any_target : String → List String → Bool
  any_target tool [] = false
  any_target tool (target ∷ rest) =
      if matches_target tool target then true else any_target tool rest

  unfoldable pub matches_adapter : String → List String → Bool
  unfolding any_target matches_target
  matches_adapter tool targets = if is_empty targets then true else any_target tool targets
