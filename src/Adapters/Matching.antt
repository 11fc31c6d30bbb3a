-- ===== src/Adapters/Matching.antt =====
-- What adapter matching accepts: tools of the same adapter, up to aliases and case.
use datafog.Prelude.{
  String, Bool, Option-cases, true, false, not, ◌&&◌, ◌≡◌, ◌≢◌, ◌↔◌, refl, inl, inr, List, [], ◌∷◌,
  none, some, arith, ◌==◌, eq_iff, all, Dict, lookup, insert,
}
use datafog.Strings.{Unicode, to_lower}
use datafog.Adapters.{
  Spec, default_adapters, canonical, canonical_by_alias, canonical_or_empty, matches_adapter,
  matches_target,
}

module _ {ℓ} {V : Type ℓ} (p : V → Bool) where
  value_of_lookup :
      (k : String) (m : Dict V) (v : V)
      → all (λ e. p e.1) m ≡ true
      → lookup k m ≡ some v
      → p v ≡ true
  unfolding lookup
  value_of_lookup k [] v h e = cc
  value_of_lookup k ((j, w) ∷ m) v h e = ground (arith, value_of_lookup k m v)

module _ ⦃u : Unicode⦄ where
  -- the name stands for itself
  is_fixed : String → Bool
  is_fixed name = elim (canonical name) [ none ↦ false | some c ↦ c == name && not (name == "") ]

  table_is_fixed : all (λ e. is_fixed e.1) canonical_by_alias ≡ true
  unfolding is_fixed canonical canonical_by_alias to_lower lookup insert
  table_is_fixed = refl

  canonical_fixed :
      (value name : String)
      → canonical value ≡ some name
      → (canonical name ≡ some name) × (name ≢ "")
  unfolding is_fixed canonical
  canonical_fixed value name e =
      let fixed =
        value_of_lookup is_fixed (to_lower value) canonical_by_alias name table_is_fixed e in
      elim (Option-cases (canonical name)) [
        | inl n ↦ ground (arith, fixed, n)
        | inr (c, n) ↦
            (ground (arith, fixed, n, eq_iff c name), ground (arith, fixed, n, eq_iff name ""))
      ]

  -- The adapter that a tool or a target stands for: the registered name, or its own in lower case.
  abbrev pub adapter_name : String → String
  adapter_name tool = elim (canonical (to_lower tool)) [ none ↦ to_lower tool | some c ↦ c ]

  or_empty_none : (v : String) → canonical v ≡ none → canonical_or_empty v ≡ ""
  unfolding canonical_or_empty
  or_empty_none v e = rw (e, canonical_or_empty)

  or_empty_some : (v c : String) → canonical v ≡ some c → canonical_or_empty v ≡ c
  unfolding canonical_or_empty
  or_empty_some v c e = rw (e, canonical_or_empty)

  -- A tool with a name matches a target exactly if both stand for one adapter.
  matches_target_iff :
      (tool target : String)
      → to_lower tool ≢ ""
      → (matches_target tool target ≡ true) ↔ (adapter_name tool ≡ adapter_name target)
  unfolding matches_target
  matches_target_iff tool target h =
      let x = to_lower tool in
      let y = to_lower target in
      let cx = canonical_or_empty x in
      let cy = canonical_or_empty y in
      elim (Option-cases (canonical x)) [
        | inl e ↦ elim (Option-cases (canonical y)) [
          | inl f ↦ ground (
            arith,
            e,
            f,
            or_empty_none x e,
            or_empty_none y f,
            eq_iff x y,
            eq_iff cx "",
            eq_iff cx cy,
            eq_iff cx y,
            eq_iff x cy,
          )
          | inr (b, f) ↦ ground (
            arith,
            e,
            f,
            or_empty_none x e,
            or_empty_some y b f,
            eq_iff x y,
            eq_iff cx "",
            eq_iff cx cy,
            eq_iff cx y,
            eq_iff x cy,
            canonical_fixed y b f,
          )
        ]
        | inr (a, e) ↦ elim (Option-cases (canonical y)) [
          | inl f ↦ ground (
            arith,
            e,
            f,
            or_empty_some x a e,
            or_empty_none y f,
            eq_iff x y,
            eq_iff cx "",
            eq_iff cx cy,
            eq_iff cx y,
            eq_iff x cy,
            canonical_fixed x a e,
          )
          | inr (b, f) ↦ ground (
            arith,
            e,
            f,
            or_empty_some x a e,
            or_empty_some y b f,
            eq_iff x y,
            eq_iff cx "",
            eq_iff cx cy,
            eq_iff cx y,
            eq_iff x cy,
            canonical_fixed x a e,
            canonical_fixed y b f,
          )
        ]
      ]

  lower_nil : to_lower "" ≡ ""
  unfolding to_lower
  lower_nil = refl

  -- A tool without a name matches a list of adapters whose first is not registered.
  pub matches_adapter_unnamed :
      (target : String) (rest : List String)
      → canonical (to_lower target) ≡ none
      → matches_adapter "" (target ∷ rest) ≡ true
  unfolding matches_adapter
  matches_adapter_unnamed target rest h =
      let cy = canonical_or_empty (to_lower target) in
      ground (arith, or_empty_none (to_lower target) h, lower_nil, eq_iff (to_lower "") cy)

  abbrev pub is_alias_of : String → String → Bool
  is_alias_of name alias = elim (canonical alias) [ none ↦ false | some c ↦ c == name ]

  -- Every name and alias of the registry leads to the adapter that lists it: no alias of one adapter
  -- hides that of another.
  aliases_resolve :
      all
        (λ (spec : Spec).
          is_alias_of spec.canonical spec.canonical
          && all (is_alias_of spec.canonical) spec.aliases)
        default_adapters
      ≡ true
  unfolding canonical canonical_by_alias to_lower lookup insert
  aliases_resolve = refl
