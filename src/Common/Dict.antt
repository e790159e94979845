-- ===== src/Common/Dict.antt =====
-- A Python dict: an association list in insertion order, over any key with an equality test.
use matrades.Common.Tests.{if◌then◌else◌, Bool-cases}
use matrades.Common.Lists.{length}
use Prim.Native.Nat.{suc}
use mathlib.Core.Logic.{inl, inr}
use matrades.Common.Keys.{Eq}
use mathlib.Core.Path.{◌≡◌, refl}
use mathlib.Core.Option.{Option, none, some}
use mathlib.Core.List.{List, [], ◌∷◌}
use native.Mathlib.Omega.{arith}

abbrev pub Dict {ℓ κ} : Type ℓ → Type κ → Type (ℓ ⊔ κ)
Dict K V = List (K × V)

module _ {ℓ κ} {K : Type ℓ} {V : Type κ} ⦃e' : Eq K⦄ where
  -- `d.get(k)`
  abbrev pub lookup : K → Dict K V → Option V
  lookup k [] = none
  lookup k ((j, v) ∷ d) = if e'.beq j k then some v else lookup k d

  -- `d[k] = v` keeps the place of a key that is there, and appends a new one.
  abbrev pub insert : K → V → Dict K V → Dict K V
  insert k v [] = (k, v) ∷ []
  insert k v ((j, w) ∷ d) = if e'.beq j k then (j, v) ∷ d else (j, w) ∷ insert k v d

  pub lookup-insert :
      (k j : K) (v : V) (d : Dict K V)
      → lookup j (insert k v d) ≡ (if e'.beq k j then some v else lookup j d)
  lookup-insert k j v [] = refl
  lookup-insert k j v ((i, w) ∷ d) =
      ground (arith, e'.beq_iff k j, e'.beq_iff i k, e'.beq_iff i j, lookup-insert k j v d)

  pub lookup-insert_self : (k : K) (v : V) (d : Dict K V) → lookup k (insert k v d) ≡ some v
  lookup-insert_self k v d = ground (arith, lookup-insert k k v d, (e'.beq_iff k k).1 refl)

  pub length-insert :
      (k : K) (v : V) (d : Dict K V) → lookup k d ≡ none → length (insert k v d) ≡ suc (length d)
  length-insert k v [] e = omega arith
  length-insert k v ((j, w) ∷ d) e = elim (Bool-cases (e'.beq j k)) [
    | inl t ↦ absurd (some-ne-none (rw t at e))
    | inr t ↦ rw t (omega (arith, length-insert k v d (rw t at e)))
  ]
    where
      some-ne-none : {u : V} → ¬ (some u ≡ none)
      some-ne-none h = cc

abbrev pub values {ℓ κ} : {K : Type ℓ} {V : Type κ} → Dict K V → List V
values [] = []
values ((k, v) ∷ d) = v ∷ values d
