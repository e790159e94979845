-- ===== src/Backtest/Costs.antt =====
-- The costs of a trade by its instrument type (modules/backtesting/costs.py).
use matrades.Common.{◌≡◌, inl, inr, Bool, true, false, [], ◌∷◌, arith, if◌then◌else◌, Bool-cases}
use matrades.Common.Int.{ℤ, pos, ◌+ℤ◌, ◌≤ℤ◌, ltb_ℤ, minimum, sum_from, int_laws}
use matrades.Common.Result.{Result, ok, err, ok-injective}
use matrades.Domain.{InstrumentType}
use matrades.Risk.Sizing.{minimum_le}

pub record TradingCosts : Type 0 where
  pub spread : ℤ
  pub commission : ℤ
  pub slippage : ℤ
  pub swap : ℤ
  pub funding : ℤ

unfoldable pub total_costs : TradingCosts → ℤ
total_costs c = sum_from (pos 0) (c.spread ∷ c.commission ∷ c.slippage ∷ c.swap ∷ c.funding ∷ [])

pub data CostError : Type 0 where
  negative_costs : CostError

abbrev pub is_cfd : InstrumentType → Bool
is_cfd InstrumentType.cfd = true
is_cfd InstrumentType.spot = false
is_cfd InstrumentType.futures = false

unfoldable pub type_aware_costs : InstrumentType → ℤ → ℤ → ℤ → ℤ → ℤ → Result CostError TradingCosts
type_aware_costs instrument_type spread commission slippage financing funding =
    if ltb_ℤ (minimum spread (commission ∷ slippage ∷ financing ∷ funding ∷ [])) (pos 0)
    then err CostError.negative_costs
    else ok (record {
      spread = spread;
      commission = commission;
      slippage = slippage;
      swap = if is_cfd instrument_type then financing else pos 0;
      funding = funding;
    })

-- Costs that are returned are not negative, each and in all, and financing is charged for a CFD alone.
pub type_aware_costs-total :
    (instrument_type : InstrumentType) (spread commission slippage financing funding : ℤ)
    (c : TradingCosts)
    → type_aware_costs instrument_type spread commission slippage financing funding ≡ ok c
    → (pos 0 ≤ℤ total_costs c)
      × (total_costs c
          ≡ spread
            +ℤ commission
            +ℤ slippage
            +ℤ (if is_cfd instrument_type then financing else pos 0)
            +ℤ funding)
unfolding type_aware_costs total_costs
type_aware_costs-total instrument_type spread commission slippage financing funding c e =
    let costs = commission ∷ slippage ∷ financing ∷ funding ∷ [] in
    let (a, (b, (d, (f, (g, u))))) = minimum_le spread costs in
    elim (Bool-cases (ltb_ℤ (minimum spread costs) (pos 0))) [
      | inl t ↦ absurd (no_costs (rw t at e))
      | inr t ↦
          let least = not_negative (minimum spread costs) t in
          rw (← ok-injective (rw t at e)) (
            sums spread commission slippage funding
              (if is_cfd instrument_type then financing else pos 0) (at_least _ _ least a)
              (at_least _ _ least b) (at_least _ _ least d) (at_least _ _ least g)
              (chosen (is_cfd instrument_type) (at_least _ _ least f)))
    ]
  where
    no_costs : ¬ (◌≡◌ {A = Result CostError TradingCosts} (err CostError.negative_costs) (ok c))
    no_costs h = cc

    not_negative : (v : ℤ) → ltb_ℤ v (pos 0) ≡ false → pos 0 ≤ℤ v
    not_negative v h = ground arith

    at_least : (v w : ℤ) → pos 0 ≤ℤ v → v ≤ℤ w → pos 0 ≤ℤ w
    at_least v w p q = omega arith

    chosen : (t : Bool) → pos 0 ≤ℤ financing → pos 0 ≤ℤ (if t then financing else pos 0)
    chosen true h = h
    chosen false h = omega arith

    sums :
        (a b d f s : ℤ)
        → pos 0 ≤ℤ a
        → pos 0 ≤ℤ b
        → pos 0 ≤ℤ d
        → pos 0 ≤ℤ f
        → pos 0 ≤ℤ s
        → (pos 0 ≤ℤ pos 0 +ℤ a +ℤ b +ℤ d +ℤ s +ℤ f)
          × (pos 0 +ℤ a +ℤ b +ℤ d +ℤ s +ℤ f ≡ a +ℤ b +ℤ d +ℤ s +ℤ f)
    sums a b d f s p q r t v = (omega (int_laws, p, q, r, t, v), omega int_laws)
