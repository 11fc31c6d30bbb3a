-- ===== src/Examples/AdapterRuns.antt =====
-- internal/adapters, run.
use datafog.Prelude.{
  String, Bool, ◌≡◌, ◌≢◌, ◌↔◌, refl, sym, ◌∙◌, true, none, List, [], ◌∷◌, ◌==◌, eq_iff, arith, all,
  ◌&&◌,
}
use datafog.Strings.{ascii_tables, to_lower}
use datafog.Adapters.{canonical, matches_target, matches_adapter}
use datafog.Adapters.Matching.{matches_adapter_unnamed}

unregistered : canonical ⦃u = ascii_tables⦄ (to_lower ⦃u = ascii_tables⦄ "no-such-tool") ≡ none
unfolding canonical datafog.Prelude.lookup datafog.Adapters.canonical_by_alias
    datafog.Prelude.insert to_lower
unregistered = refl

unnamed_example : matches_adapter ⦃u = ascii_tables⦄ "" ("no-such-tool" ∷ []) ≡ true
unnamed_example = matches_adapter_unnamed ⦃u = ascii_tables⦄ "no-such-tool" [] unregistered
