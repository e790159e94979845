-- ===== src/Common/Lists.antt =====
-- Lists measured by native numbers, under the library's names, and predicates on lists.
use Prim.Native.Nat.{ℕ, suc, ◌+◌}
use mathlib.Core.Path.{◌≡◌, refl, sym, ◌∙◌}
use mathlib.Core.Bool.{Bool, true, false, ◌&&◌, ◌||◌, false≢true}
use mathlib.Core.Logic.{inl, inr}
use mathlib.Core.List.{List, [], ◌∷◌, ◌++◌, Memᴰ, map}
use native.Mathlib.Omega.{arith}
use matrades.Common.Tests.{if◌then◌else◌, Bool-cases}

module _ {ℓ} {A : Type ℓ} where
  abbrev pub length : List A → ℕ
  length [] = 0
  length (x ∷ xs) = suc (length xs)

  -- `[x for x in xs if test(x)]`
  abbrev pub filter : (A → Bool) → List A → List A
  filter test [] = []
  filter test (x ∷ xs) = if test x then x ∷ filter test xs else filter test xs

  abbrev pub any : (A → Bool) → List A → Bool
  any test [] = false
  any test (x ∷ xs) = test x || any test xs

  abbrev pub all : (A → Bool) → List A → Bool
  all test [] = true
  all test (x ∷ xs) = test x && all test xs

  -- A predicate by recursion computes to tuples, which the tactics read and build.
  abbrev pub All {κ} : (A → Type κ) → List A → Type κ
  All P [] = Unit
  All P (x ∷ xs) = P x × All P xs

  pub length-append : (xs ys : List A) → length (xs ++ ys) ≡ length xs + length ys
  length-append [] ys = omega arith
  length-append (x ∷ xs) ys = omega (arith, length-append xs ys)

  pub All-append {κ} : (P : A → Type κ) (xs ys : List A) → All P xs → All P ys → All P (xs ++ ys)
  All-append P [] ys p q = q
  All-append P (x ∷ xs) ys (p, ps) q = (p, All-append P xs ys ps q)

-- What holds of a filtered list holds of the elements that pass, and only they are in it.
module _ {ℓ} {A : Type ℓ} where
  pub All-filter {κ} :
      (P : A → Type κ) (test : A → Bool) (xs : List A)
      → All P (filter test xs)
      → All (λ x. test x ≡ true → P x) xs
  All-filter P test [] h = tt
  All-filter P test (x ∷ xs) h = elim (Bool-cases (test x)) [
    | inl e ↦
        let h' : All P (x ∷ filter test xs) = rw e at h in (λ _. h'.0, All-filter P test xs h'.1)
    | inr e ↦ (λ t. absurd (false≢true (sym e ∙ t)), All-filter P test xs (rw e at h))
  ]

  pub Memᴰ-filter :
      (test : A → Bool) {x : A} (xs : List A)
      → Memᴰ x (filter test xs)
      → Memᴰ x xs × (test x ≡ true)
  Memᴰ-filter test [] m = elim m [ ]
  Memᴰ-filter test {x = y} (x ∷ xs) m = elim (Bool-cases (test x)) [
    | inl e ↦ in_cons e (Memᴰ-filter test xs) (rw e at m)
    | inr e ↦ let (n, t) = Memᴰ-filter test xs (rw e at m) in (Memᴰ.tail n, t)
  ]
    where
      in_cons :
          test x ≡ true
          → (Memᴰ y (filter test xs) → Memᴰ y xs × (test y ≡ true))
          → Memᴰ y (x ∷ filter test xs)
          → Memᴰ y (x ∷ xs) × (test y ≡ true)
      in_cons e ih (Memᴰ.head p) = (Memᴰ.head p, rw p e)
      in_cons e ih (Memᴰ.tail n) = let (n', t) = ih n in (Memᴰ.tail n', t)

module _ {ℓ} {A : Type ℓ} where
  pub All-map {κ ι} :
      {P : A → Type κ} {Q : A → Type ι} (xs : List A) → ((x : A) → P x → Q x) → All P xs → All Q xs
  All-map [] f h = tt
  All-map (x ∷ xs) f (p, ps) = (f x p, All-map xs f ps)

  pub All-zip {κ ι} :
      (P : A → Type κ) (Q : A → Type ι) (xs : List A)
      → All P xs
      → All Q xs
      → All (λ x. P x × Q x) xs
  All-zip P Q [] h k = tt
  All-zip P Q (x ∷ xs) (p, ps) (q, qs) = ((p, q), All-zip P Q xs ps qs)

  pub filter-nil :
      (test : A → Bool) (xs : List A) → filter test xs ≡ [] → All (λ x. test x ≡ false) xs
  filter-nil test [] e = tt
  filter-nil test (x ∷ xs) e = elim (Bool-cases (test x)) [
    | inl t ↦ absurd (cons_ne_nil (sym (rw t at e)))
    | inr t ↦ (t, filter-nil test xs (rw t at e))
  ]
    where
      cons_ne_nil : {a : A} {l : List A} → ¬ ([] ≡ a ∷ l)
      cons_ne_nil p = cc

  pub nil-filter :
      (test : A → Bool) (xs : List A) → All (λ x. test x ≡ false) xs → filter test xs ≡ []
  nil-filter test [] h = refl
  nil-filter test (x ∷ xs) (t, h) = rw t (nil-filter test xs h)

module _ {ℓ κ} {A : Type ℓ} {B : Type κ} where
  pub All-of-map {ι} :
      (P : B → Type ι) (f : A → B) (xs : List A) → All P (map f xs) → All (λ x. P (f x)) xs
  All-of-map P f [] h = tt
  All-of-map P f (x ∷ xs) (p, ps) = (p, All-of-map P f xs ps)

module _ {ℓ} {A : Type ℓ} where
  pub All-split {κ} : (P : A → Type κ) (xs ys : List A) → All P (xs ++ ys) → All P xs × All P ys
  All-split P [] ys h = (tt, h)
  All-split P (x ∷ xs) ys (p, ps) = let (l, r) = All-split P xs ys ps in ((p, l), r)
