-- ===== src/Risk/Sizing.antt =====
-- Sizes that a risk budget allows (modules/risk/position_sizing.py, financial_math.py): they fit the
-- budget, are whole steps, and are the largest such.
use native.Mathlib.Nat.{div-mul-le_self, lt-div-mul-add, mul-le-mul_right}
use matrades.Common.{
  ℕ, ◌+◌, ◌*◌, ◌/◌, ◌≤◌, ◌<◌, min, ◌≡◌, refl, sym, ◌∙◌, List, [], ◌∷◌, arith, All, All-map,
}
use matrades.Common.Int.{ℤ, pos, pos_part, ◌≤ℤ◌, min_ℤ, max_ℤ, minimum}
use matrades.Common.Result.{ok, >>=-eq-ok, ok-injective}
use matrades.Domain.{round_down}
use matrades.Risk.Financial.{size_for_risk, compliant_size}

min_le : (a b : ℤ) → (min_ℤ a b ≤ℤ a) × (min_ℤ a b ≤ℤ b)
min_le a b = ground arith

pub minimum_le : (v : ℤ) (vs : List ℤ) → All (λ w. minimum v vs ≤ℤ w) (v ∷ vs)
minimum_le v [] = (omega arith, tt)
minimum_le v (w ∷ vs) =
    let (h, t) = minimum_le (min_ℤ v w) vs in
    let (p, q) = min_le v w in (omega (arith, h, p), (omega (arith, h, q), t))

steps_fit : (n d i : ℕ) → n / (d * i) * i * d ≤ n
steps_fit n d i = omega (arith, div-mul-le_self n (d * i))

lt_next_step : (n d i : ℕ) → 0 < d * i → n < (n / (d * i) * i + i) * d
lt_next_step n d i h = omega (arith, lt-div-mul-add {a = n} h)

size_for_risk-pos :
    (budget per_unit increment : ℕ)
    → 0 < per_unit
    → 0 < increment
    → 0 < budget
    → size_for_risk (pos budget) (pos per_unit) (pos increment)
      ≡ ok (budget / (per_unit * increment) * increment)
unfolding size_for_risk round_down
size_for_risk-pos budget per_unit increment hp hi hb = ground arith

-- A size for a risk budget costs no more than the budget, is a whole number of increments, and one
-- increment more would cost more than the budget.
pub size_for_risk_largest :
    (budget per_unit increment : ℕ) {size : ℕ}
    → 0 < per_unit
    → 0 < increment
    → 0 < budget
    → size_for_risk (pos budget) (pos per_unit) (pos increment) ≡ ok size
    → (size * per_unit ≤ budget)
      × (budget < (size + increment) * per_unit)
      × ((k : ℕ) × (size ≡ k * increment))
size_for_risk_largest budget per_unit increment hp hi hb e =
    let p = ok-injective (sym e ∙ size_for_risk-pos budget per_unit increment hp hi hb) in
    rw p (
      steps_fit budget per_unit increment,
      lt_next_step budget per_unit increment (grind arith),
      (budget / (per_unit * increment), refl),
    )

size_for_risk-le :
    (budget : ℤ) (per_unit increment : ℕ) {size : ℕ}
    → 0 < increment
    → size_for_risk budget (pos per_unit) (pos increment) ≡ ok size
    → size * per_unit ≤ pos_part budget
unfolding size_for_risk round_down
size_for_risk-le budget per_unit increment hi e =
    ground (arith, steps_fit (pos_part budget) per_unit increment)

budget_le : (m v : ℤ) → m ≤ℤ v → pos_part (max_ℤ (pos 0) m) ≤ pos_part v
budget_le m v h = ground arith

-- The compliant size is at most the requested one, and its loss fits each remaining capacity that is
-- not negative.
pub compliant_size-fits :
    (requested per_unit increment : ℕ) (c : ℤ) (cs : List ℤ) {size : ℕ}
    → 0 < increment
    → compliant_size requested per_unit (c ∷ cs) increment ≡ ok size
    → (size ≤ requested) × All (λ v. size * per_unit ≤ pos_part v) (c ∷ cs)
unfolding compliant_size
compliant_size-fits requested per_unit increment c cs {size} hi e =
    let (s, f, g) =
      >>=-eq-ok (size_for_risk (max_ℤ (pos 0) (minimum c cs)) (pos per_unit) (pos increment)) _ e in
    let le = size_for_risk-le (max_ℤ (pos 0) (minimum c cs)) per_unit increment hi f in
    let q = ok-injective g in
    (
      omega (arith, q),
      All-map (c ∷ cs)
          (λ v h.
            omega
              (arith, le, budget_le (minimum c cs) v h, mul-le-mul_right per_unit (at_most s q)))
          (minimum_le c cs),
    )
  where
    at_most : (s : ℕ) → min requested s ≡ size → size ≤ s
    at_most s q = omega (arith, q)

next_step_costs : (n d i : ℕ) → 0 < d → 0 < i → n < (n / (d * i) * i + i) * d
next_step_costs n d i hd hi = lt_next_step n d i (grind arith)

-- One increment more than a positive size for a budget costs more than the budget.
size_for_risk-next :
    (budget : ℤ) (per_unit increment : ℕ) {size : ℕ}
    → size_for_risk budget (pos per_unit) (pos increment) ≡ ok size
    → 0 < size
    → pos_part budget < (size + increment) * per_unit
unfolding size_for_risk round_down
size_for_risk-next budget per_unit increment e h =
    ground (arith, next_step_costs (pos_part budget) per_unit increment)

le_minimum : (b v : ℤ) (vs : List ℤ) → All (λ w. b ≤ℤ w) (v ∷ vs) → b ≤ℤ minimum v vs
le_minimum b v [] (h, t) = h
le_minimum b v (w ∷ vs) (h, (k, t)) = le_minimum b (min_ℤ v w) vs (both b v w h k, t)
  where
    both : (b v w : ℤ) → b ≤ℤ v → b ≤ℤ w → b ≤ℤ min_ℤ v w
    both b v w h k = ground arith

-- Where a positive compliant size is below the requested one, one increment more does not fit all the
-- capacities.
pub compliant_size-next :
    (requested per_unit increment : ℕ) (c : ℤ) (cs : List ℤ) {size : ℕ}
    → compliant_size requested per_unit (c ∷ cs) increment ≡ ok size
    → 0 < size
    → size < requested
    → ¬ All (λ v. pos ((size + increment) * per_unit) ≤ℤ v) (c ∷ cs)
unfolding compliant_size
compliant_size-next requested per_unit increment c cs {size} e h less all =
    let (s, f, g) =
      >>=-eq-ok (size_for_risk (max_ℤ (pos 0) (minimum c cs)) (pos per_unit) (pos increment)) _ e in
    let same : s ≡ size = is_fit s (ok-injective g) in
    let over = size_for_risk-next (max_ℤ (pos 0) (minimum c cs)) per_unit increment f (rw same h) in
    let under =
      below ((size + increment) * per_unit) (minimum c cs)
        (le_minimum (pos ((size + increment) * per_unit)) c cs all) in
    let over' : pos_part (max_ℤ (pos 0) (minimum c cs)) < (size + increment) * per_unit =
      rw same at over in
    omega (arith, over', under)
  where
    is_fit : (s : ℕ) → min requested s ≡ size → s ≡ size
    is_fit s q = omega (arith, q, less)

    below : (n : ℕ) (m : ℤ) → pos n ≤ℤ m → n ≤ pos_part (max_ℤ (pos 0) m)
    below n m k = ground arith
