-- ===== src/Prelude/Sort.antt =====
-- `sort.SliceStable` with a `less` function: the one stable rearrangement that it documents, as
-- insertion from the right. An element goes in front of the first that is not less than it.
use Prim.Native.Nat.{suc}
use mathlib.Core.Path.{◌≡◌, refl}
use mathlib.Core.Bool.{Bool, true, false}
use mathlib.Core.List.{List, [], ◌∷◌, Perm}
use mathlib.Core.List.Perm
use native.Mathlib.Omega.{arith}
use package.datafog.Prelude.Tests.{if◌then◌else◌, Bool-cases}
use package.datafog.Prelude.Lists.{All, AllPairs, select, length}
use mathlib.Core.Logic.{inl, inr}

module _ {ℓ} {A : Type ℓ} (less : A → A → Bool) where
  unfoldable pub insert_stable : A → List A → List A
  insert_stable x [] = x ∷ []
  insert_stable x (y ∷ ys) =
      let rest = insert_stable x ys in if less y x then y ∷ rest else x ∷ (y ∷ ys)

  unfoldable pub stable_sort : List A → List A
  unfolding insert_stable
  stable_sort [] = []
  stable_sort (x ∷ xs) = insert_stable x (stable_sort xs)

  -- No element is less than one that stands before it.
  length-insert_stable : (x : A) (xs : List A) → length (insert_stable x xs) ≡ suc (length xs)
  unfolding insert_stable
  length-insert_stable x [] = refl
  length-insert_stable x (y ∷ ys) = ground (arith, length-insert_stable x ys)

  pub length-stable_sort : (xs : List A) → length (stable_sort xs) ≡ length xs
  unfolding stable_sort
  length-stable_sort [] = refl
  length-stable_sort (x ∷ xs) =
      omega (arith, length-insert_stable x (stable_sort xs), length-stable_sort xs)

  abbrev pub IsSorted : List A → Type 0
  IsSorted [] = Unit
  IsSorted (x ∷ xs) = All (λ y. less y x ≡ false) xs × IsSorted xs

  insert_stable-perm : (x : A) (ys : List A) → Perm (insert_stable x ys) (x ∷ ys)
  unfolding insert_stable
  insert_stable-perm x [] = Perm.refl _
  insert_stable-perm x (y ∷ ys) = elim (Bool-cases (less y x)) [
    | inl e ↦ rw e (Perm.trans (Perm.cons y (insert_stable-perm x ys)) (Perm.swap x y ys))
    | inr e ↦ rw e (Perm.refl _)
  ]

  pub stable_sort-perm : (xs : List A) → Perm (stable_sort xs) xs
  unfolding stable_sort
  stable_sort-perm [] = Perm.refl _
  stable_sort-perm (x ∷ xs) =
      Perm.trans (insert_stable-perm x (stable_sort xs)) (Perm.cons x (stable_sort-perm xs))

  insert_stable-All :
      (P : A → Type 0) (x : A) (ys : List A) → P x → All P ys → All P (insert_stable x ys)
  unfolding insert_stable
  insert_stable-All P x [] p h = (p, tt)
  insert_stable-All P x (y ∷ ys) p (q, h) = ground (arith, insert_stable-All P x ys p h)

  pub stable_sort-All : (P : A → Type 0) (xs : List A) → All P xs → All P (stable_sort xs)
  unfolding stable_sort
  stable_sort-All P [] h = tt
  stable_sort-All P (x ∷ xs) (p, h) =
      insert_stable-All P x (stable_sort xs) p (stable_sort-All P xs h)

  module _ (R : A → A → Type 0) (swap : (x y : A) → R x y → R y x) where
    insert_stable-AllPairs :
        (x : A) (ys : List A) → All (R x) ys → AllPairs R ys → AllPairs R (insert_stable x ys)
    unfolding insert_stable
    insert_stable-AllPairs x [] h k = (tt, tt)
    insert_stable-AllPairs x (y ∷ ys) (p, h) (q, k) = elim (Bool-cases (less y x)) [
      | inl e ↦ rw e (insert_stable-All (R y) x ys (swap x y p) q, insert_stable-AllPairs x ys h k)
      | inr e ↦ rw e ((p, h), (q, k))
    ]

    pub stable_sort-AllPairs : (xs : List A) → AllPairs R xs → AllPairs R (stable_sort xs)
    unfolding stable_sort
    stable_sort-AllPairs [] h = tt
    stable_sort-AllPairs (x ∷ xs) (p, h) =
        insert_stable-AllPairs x (stable_sort xs) (stable_sort-All (R x) xs p)
          (stable_sort-AllPairs xs h)

  module _ (flip : (x y : A) → less y x ≡ true → less x y ≡ false)
      (chain : (x y z : A) → less y x ≡ false → less z y ≡ false → less z x ≡ false) where
    All-chain :
        (x y : A) (zs : List A)
        → less y x ≡ false
        → All (λ z. less z y ≡ false) zs
        → All (λ z. less z x ≡ false) zs
    All-chain x y [] h k = tt
    All-chain x y (z ∷ zs) h (k, ks) = (chain x y z h k, All-chain x y zs h ks)

    insert_stable-IsSorted : (x : A) (ys : List A) → IsSorted ys → IsSorted (insert_stable x ys)
    unfolding insert_stable
    insert_stable-IsSorted x [] s = (tt, tt)
    insert_stable-IsSorted x (y ∷ ys) (h, s) = elim (Bool-cases (less y x)) [
      | inl e ↦ rw e (
        insert_stable-All (λ z. less z y ≡ false) x ys (flip x y e) h,
        insert_stable-IsSorted x ys s,
      )
      | inr e ↦ rw e ((e, All-chain x y ys e h), (h, s))
    ]

    pub stable_sort-IsSorted : (xs : List A) → IsSorted (stable_sort xs)
    unfolding stable_sort
    stable_sort-IsSorted [] = tt
    stable_sort-IsSorted (x ∷ xs) =
        insert_stable-IsSorted x (stable_sort xs) (stable_sort-IsSorted xs)

  module _ (q : A → Bool) (tied : (x y : A) → q x ≡ true → q y ≡ true → less y x ≡ false) where
    select-insert_stable : (x : A) (ys : List A) → select q (insert_stable x ys) ≡ select q (x ∷ ys)
    unfolding insert_stable
    select-insert_stable x [] = refl
    select-insert_stable x (y ∷ ys) = ground (arith, select-insert_stable x ys, tied x y)

    -- Elements none of which is less than another keep their order.
    pub select-stable_sort : (xs : List A) → select q (stable_sort xs) ≡ select q xs
    unfolding stable_sort
    select-stable_sort [] = refl
    select-stable_sort (x ∷ xs) =
        ground (arith, select-insert_stable x (stable_sort xs), select-stable_sort xs)
