-- ===== src/Strings/Laws.antt =====
-- What the other parts use of the string operations.

use datafog.Prelude.{String, ◌≡◌, refl, true, arith}
use datafog.Strings.{Unicode, ascii_tables, to_lower, trim_space, equal_fold, has_prefix}

pub has_prefix_refl : (s : String) → has_prefix s s ≡ true
unfolding has_prefix
has_prefix_refl String.[] = refl
has_prefix_refl (String.◌∷◌ c s) = ground (arith, has_prefix_refl s)

module _ ⦃u : Unicode⦄ where
  -- Folding accepts equal texts, whatever the tables.
  pub equal_fold_refl : (s : String) → equal_fold s s ≡ true
  unfolding equal_fold
  equal_fold_refl String.[] = refl
  equal_fold_refl (String.◌∷◌ c s) = ground (arith, equal_fold_refl s)

lower_test : to_lower ⦃u = ascii_tables⦄ "  E-Mail " ≡ "  e-mail "
unfolding to_lower
lower_test = refl

trim_test : trim_space " \t e mail\n" ≡ "e mail"
unfolding trim_space
trim_test = refl

fold_test : equal_fold ⦃u = ascii_tables⦄ "BeArer" "bearER" ≡ true
unfolding equal_fold
fold_test = refl
