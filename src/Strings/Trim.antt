-- ===== src/Strings/Trim.antt =====
-- What strings.TrimSpace does to a text that is trimmed or put together.
use Prim.Native.Char.{Char}
use datafog.Prelude.{
  String, Bool, true, false, not, ◌≡◌, refl, ap, sym, ◌∙◌, arith, Bool-cases, inl, inr,
}
use datafog.Strings.{is_space, trim_left, trim_right, cons_unless_space, trim_space}
use datafog.Strings.Append.{◌<>◌}

-- not blank, and without space at its end
unfoldable pub ends_solid : String → Bool
ends_solid String.[] = false
ends_solid (String.◌∷◌ c String.[]) = not (is_space c)
ends_solid (String.◌∷◌ c (String.◌∷◌ d s)) = ends_solid (String.◌∷◌ d s)

cons-solid : (c : Char) (s : String) → is_space c ≡ false → cons_unless_space c s ≡ String.◌∷◌ c s
unfolding cons_unless_space
cons-solid c String.[] h = rw h refl
cons-solid c (String.◌∷◌ d s) h = refl

pub trim_right-append :
    (p v : String) → ends_solid p ≡ true → trim_right (p <> v) ≡ p <> trim_right v
unfolding ends_solid trim_right cons_unless_space
trim_right-append String.[] v h = cc
trim_right-append (String.◌∷◌ c String.[]) v h = cons-solid c (trim_right v) (ground arith)
trim_right-append (String.◌∷◌ c (String.◌∷◌ d s)) v h =
    rw (trim_right-append (String.◌∷◌ d s) v h) refl

trim_right-cons_unless_space :
    (c : Char) (t : String)
    → trim_right t ≡ t
    → trim_right (cons_unless_space c t) ≡ cons_unless_space c t
unfolding trim_right cons_unless_space
trim_right-cons_unless_space c String.[] h = elim (Bool-cases (is_space c)) [
  | inl e ↦ rw e refl
  | inr e ↦ rw e (rw e refl)
]
trim_right-cons_unless_space c (String.◌∷◌ d t) h = ap (cons_unless_space c) h

trim_right_idem : (s : String) → trim_right (trim_right s) ≡ trim_right s
unfolding trim_right
trim_right_idem String.[] = refl
trim_right_idem (String.◌∷◌ c s) = trim_right-cons_unless_space c (trim_right s) (trim_right_idem s)

trim_left-cons_unless_space :
    (c : Char) (t : String) → is_space c ≡ true → trim_left (cons_unless_space c t) ≡ trim_left t
unfolding trim_left cons_unless_space
trim_left-cons_unless_space c String.[] h = rw h refl
trim_left-cons_unless_space c (String.◌∷◌ d t) h = rw h refl

trim_left-solid :
    (c : Char) (s : String) → is_space c ≡ false → trim_left (String.◌∷◌ c s) ≡ String.◌∷◌ c s
unfolding trim_left
trim_left-solid c s h = rw h refl

trim_left-trim_right : (s : String) → trim_left (trim_right s) ≡ trim_right (trim_left s)
unfolding trim_left trim_right
trim_left-trim_right String.[] = refl
trim_left-trim_right (String.◌∷◌ c s) = elim (Bool-cases (is_space c)) [
  | inl e ↦ trim_left-cons_unless_space c (trim_right s) e ∙ trim_left-trim_right s ∙ (rw e refl)
  | inr e ↦
      ap trim_left (cons-solid c (trim_right s) e)
      ∙ trim_left-solid c (trim_right s) e
      ∙ sym (cons-solid c (trim_right s) e)
      ∙ (rw e refl)
]

pub trim_space-trim_right : (s : String) → trim_space (trim_right s) ≡ trim_space s
unfolding trim_space
trim_space-trim_right s = ap trim_right (trim_left-trim_right s) ∙ trim_right_idem (trim_left s)

pub trim_space_solid :
    (c : Char) (s : String)
    → is_space c ≡ false
    → trim_space (String.◌∷◌ c s) ≡ String.◌∷◌ c (trim_right s)
unfolding trim_space trim_right
trim_space_solid c s h = ap trim_right (trim_left-solid c s h) ∙ cons-solid c (trim_right s) h

-- without space in front
unfoldable pub starts_solid : String → Bool
starts_solid String.[] = false
starts_solid (String.◌∷◌ c s) = not (is_space c)

pub trim_space-append :
    (p v : String)
    → starts_solid p ≡ true
    → ends_solid p ≡ true
    → trim_space (p <> v) ≡ p <> trim_right v
unfolding starts_solid trim_space
trim_space-append String.[] v h k = cc
trim_space-append (String.◌∷◌ c p) v h k =
    ap trim_right (trim_left-solid c (p <> v) (ground arith))
    ∙ trim_right-append (String.◌∷◌ c p) v k

trim_left_idem : (s : String) → trim_left (trim_left s) ≡ trim_left s
unfolding trim_left
trim_left_idem String.[] = refl
trim_left_idem (String.◌∷◌ c s) = elim (Bool-cases (is_space c)) [
  | inl e ↦ rw e (trim_left_idem s)
  | inr e ↦ rw e (trim_left-solid c s e)
]

-- Trimming twice is trimming once.
pub trim_space_idem : (s : String) → trim_space (trim_space s) ≡ trim_space s
unfolding trim_space
trim_space_idem s = trim_space-trim_right (trim_left s) ∙ ap trim_right (trim_left_idem s)
