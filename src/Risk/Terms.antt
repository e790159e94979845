-- ===== src/Risk/Terms.antt =====
-- The broker's live terms (modules/risk/live_terms.py): which volumes it takes. Quantities are not negative.
use native.Mathlib.Nat.{mod-add-div', le-div_iff_mul-le, div-mul-le_self, mul-le-mul_right, one-mul}
use matrades.Common.{
  ℕ, ◌*◌, ◌/◌, ◌%◌, ◌≤◌, ◌<◌, ◌≡◌, ◌↔◌, refl, sym, inl, inr, false, not, ◌||◌, Option, arith, ltb,
  nat_beq, Bool-cases,
}
use matrades.Common.Int.{ℤ, pos, leb_ℤ}
use matrades.Common.Result.{
  Result, ok, err, raise_if, ◌>>◌, ◌>>=◌, guards_iff, raise_if-passed, raise_if-pass, >>=-eq-ok,
  ok-injective,
}
use matrades.Domain.{QuantityUnit, RiskError, round_down}

pub record LiveTradeTerms : Type 0 where
  pub account_currency : ℕ
  pub price_currency : ℕ
  pub quantity_unit : QuantityUnit
  pub contract_multiplier : ℤ
  pub tick_size : ℤ
  pub tick_value : Option ℤ
  pub quantity_minimum : ℕ
  pub quantity_maximum : ℕ
  pub quantity_step : ℕ
  pub specification_version_id : ℕ

-- `ValueError` with its cause, and the `InvalidOperation` of a remainder by zero.
pub data TermsError : Type 0 where
  outside_bounds off_step invalid_operation : TermsError
  risk : RiskError → TermsError

abbrev pub check_step : ℕ → ℕ → Result TermsError (Unit {0})
check_step size step =
    raise_if (nat_beq step 0) TermsError.invalid_operation
    >> raise_if (not (nat_beq (size % step) 0)) TermsError.off_step
    >> ok tt

unfoldable pub validate_size : LiveTradeTerms → ℕ → Result TermsError (Unit {0})
validate_size t size =
    raise_if (ltb size t.quantity_minimum || ltb t.quantity_maximum size) TermsError.outside_bounds
    >> check_step size t.quantity_step

abbrev pub rounded : Result RiskError ℕ → Result TermsError ℕ
rounded (ok n) = ok n
rounded (err e) = err (TermsError.risk e)

unfoldable pub maximum_stepped_size : LiveTradeTerms → Result TermsError ℕ
unfolding validate_size round_down
maximum_stepped_size t = rounded (round_down t.quantity_maximum 1 (pos t.quantity_step)) >>= λ size.
    (validate_size t size >>= λ _. ok size)

-- A volume that the broker takes: within its bounds, and a whole number of steps.
abbrev pub IsTradable : LiveTradeTerms → ℕ → Type 0
IsTradable t size =
    (t.quantity_minimum ≤ size)
    × (size ≤ t.quantity_maximum)
    × (0 < t.quantity_step)
    × (size % t.quantity_step ≡ 0)

pub validate_size_iff :
    (t : LiveTradeTerms) (size : ℕ) → (validate_size t size ≡ ok tt) ↔ IsTradable t size
unfolding validate_size
validate_size_iff t size =
    let steps =
      guards_iff (nat_beq t.quantity_step 0) (not (nat_beq (size % t.quantity_step) 0))
        TermsError.invalid_operation TermsError.off_step (ok tt) in
    (
      (λ h.
          let (bounds, rest) = raise_if-passed _ _ (check_step size t.quantity_step) h in
          let (a, b, c) = steps.0 rest in
          let (low, high) = within t.quantity_minimum t.quantity_maximum size bounds in
          (low, high, not_zero t.quantity_step a, whole (size % t.quantity_step) b)),
      (λ (low, high, step, even).
          raise_if-pass _ _ (check_step size t.quantity_step)
            (inside t.quantity_minimum t.quantity_maximum size low high)
            (steps.1 (zero_not t.quantity_step step, ground arith, refl))),
    )
  where
    within : (a b n : ℕ) → (ltb n a || ltb b n) ≡ false → (a ≤ n) × (n ≤ b)
    within a b n h = ground arith

    inside : (a b n : ℕ) → a ≤ n → n ≤ b → (ltb n a || ltb b n) ≡ false
    inside a b n h k = ground arith

    not_zero : (n : ℕ) → nat_beq n 0 ≡ false → 0 < n
    not_zero n h = ground arith

    zero_not : (n : ℕ) → 0 < n → nat_beq n 0 ≡ false
    zero_not n h = ground arith

    whole : (n : ℕ) → not (nat_beq n 0) ≡ false → n ≡ 0
    whole n h = ground arith

-- No whole number of steps under a bound is above the bound's whole steps.
steps_below :
    (bound step size : ℕ) → 0 < step → size ≤ bound → size % step ≡ 0 → size ≤ bound / step * step
steps_below bound step size h le even =
    let fewer =
      (le-div_iff_mul-le {x = size / step} {y = bound} h).1
        (omega (arith, div-mul-le_self size step)) in
    omega (arith, mod-add-div' size step, even, mul-le-mul_right step fewer)

rounded-ok :
    (bound step n : ℕ) → rounded (round_down bound 1 (pos step)) ≡ ok n → n ≡ bound / step * step
unfolding round_down
rounded-ok bound step n e = elim (Bool-cases (leb_ℤ (pos step) (pos 0))) [
  | inl t ↦ absurd (no_size (rw t at e))
  | inr t ↦ sym (ok-injective (rw (t, one-mul step) at e))
]
  where
    no_size : ¬ (
        ◌≡◌ {A = Result TermsError ℕ}
          (err (TermsError.risk RiskError.increment_not_positive))
          (ok n))
    no_size h = cc

-- The maximum stepped size is a volume the broker takes, and no other volume that it takes is larger.
pub maximum_stepped_size_largest :
    (t : LiveTradeTerms) (size : ℕ)
    → maximum_stepped_size t ≡ ok size
    → (validate_size t size ≡ ok tt) × ((other : ℕ) → validate_size t other ≡ ok tt → other ≤ size)
unfolding maximum_stepped_size
maximum_stepped_size_largest t size e =
    let (n, f, g) =
      >>=-eq-ok (rounded (round_down t.quantity_maximum 1 (pos t.quantity_step))) _ e in
    let (u, valid, same) = >>=-eq-ok (validate_size t n) (λ u. ok n) g in
    let steps = rounded-ok t.quantity_maximum t.quantity_step n f in
    rw (← ok-injective same) (
      valid,
      λ other h.
          let (low, high, step, even) = (validate_size_iff t other).0 h in
          rw steps (steps_below t.quantity_maximum t.quantity_step other step high even),
    )
