-- ===== src/Common/Sort.antt =====
-- `sorted` by a key, as an insertion sort on a test of order.
use mathlib.Core.Path.{◌≡◌, refl}
use mathlib.Core.Bool.{Bool, true, false}
use mathlib.Core.Logic.{inl, inr}
use mathlib.Core.List.{List, [], ◌∷◌}
use matrades.Common.Tests.{if◌then◌else◌, Bool-cases}
use matrades.Common.Lists.{All, All-map}

-- `sorted`, which is stable, by a test of order on the keys.
module _ {ℓ} {A : Type ℓ} (le : A → A → Bool) where
  abbrev pub insert_by : A → List A → List A
  insert_by x [] = x ∷ []
  insert_by x (y ∷ ys) = if le x y then x ∷ y ∷ ys else y ∷ insert_by x ys

  unfoldable pub sorted_by : List A → List A
  sorted_by [] = []
  sorted_by (x ∷ xs) = insert_by x (sorted_by xs)

module _ {A : Type 0} (le : A → A → Bool) where
  All-insert_by : (P : A → Type 0) (x : A) (l : List A) → P x → All P l → All P (insert_by le x l)
  All-insert_by P x [] p h = (p, tt)
  All-insert_by P x (y ∷ l) p (q, h) = elim (Bool-cases (le x y)) [
    | inl t ↦ rw t (p, (q, h))
    | inr t ↦ rw t (q, All-insert_by P x l p h)
  ]

  pub All-sorted_by : (P : A → Type 0) (l : List A) → All P l → All P (sorted_by le l)
  unfolding sorted_by
  All-sorted_by P [] h = tt
  All-sorted_by P (x ∷ l) (p, h) = All-insert_by P x (sorted_by le l) p (All-sorted_by P l h)

  -- The head of a sorted list is at most every element.
  abbrev pub IsFirst : List A → List A → Type 0
  IsFirst l [] = l ≡ []
  IsFirst l (h ∷ t) = All (λ y. le h y ≡ true) l

  module _ (trans : (a b c : A) → le a b ≡ true → le b c ≡ true → le a c ≡ true)
      (total : (a b : A) → le a b ≡ false → le b a ≡ true) (same : (a : A) → le a a ≡ true) where
    insert_by-IsFirst : (x : A) (l s : List A) → IsFirst l s → IsFirst (x ∷ l) (insert_by le x s)
    insert_by-IsFirst x l [] h = rw h (same x, tt)
    insert_by-IsFirst x l (y ∷ s) h = elim (Bool-cases (le x y)) [
      | inl t ↦ rw t (same x, All-map l (λ z q. trans x y z t q) h)
      | inr t ↦ rw t (total x y t, h)
    ]

    pub sorted_by-IsFirst : (l : List A) → IsFirst l (sorted_by le l)
    unfolding sorted_by
    sorted_by-IsFirst [] = refl
    sorted_by-IsFirst (x ∷ l) = insert_by-IsFirst x l (sorted_by le l) (sorted_by-IsFirst l)
