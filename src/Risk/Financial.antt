-- ===== src/Risk/Financial.antt =====
-- Drawdown, loss for one unit, sizes for a risk budget, reserved risk and trade capacity
-- (modules/risk/drawdown.py, financial_math.py, position_sizing.py, reserved_risk.py,
-- trade_capacity.py).
use matrades.Common.{
  ℕ, ◌+◌, ◌-◌, ◌*◌, ◌/◌, min, Bool, true, false, ◌||◌, Option, none, some, List, [], ◌∷◌, leb,
  nat_beq, if◌then◌else◌,
}
use matrades.Common.Int.{
  ℤ, pos, pos_part, ◌+ℤ◌, ◌-ℤ◌, neg_ℤ, leb_ℤ, ltb_ℤ, abs_ℤ, min_ℤ, max_ℤ, minimum,
}
use matrades.Common.Result.{Result, ok, err, ◌>>=◌}
use matrades.Domain.{InstrumentType, RiskError, round_down}
use matrades.Risk.Models.{OpenPositionRisk, Direction}

-- `max(Decimal("0"), value)`
abbrev pub clip : ℤ → ℕ
clip v = pos_part v

unfoldable pub total_drawdown : ℤ → ℤ → ℕ
total_drawdown starting_balance current_equity = clip (starting_balance -ℤ current_equity)

-- The percentage as an exact quotient: numerator and denominator.
unfoldable pub drawdown_percentage : ℤ → ℤ → Result RiskError (ℕ × ℕ)
unfolding total_drawdown
drawdown_percentage starting_balance current_equity =
    if leb_ℤ starting_balance (pos 0)
    then err RiskError.starting_balance_not_positive
    else ok (total_drawdown starting_balance current_equity * 100, pos_part starting_balance)

unfoldable pub daily_loss : ℤ → ℤ → ℕ
daily_loss realized_daily_pnl floating_pnl =
    clip (neg_ℤ (realized_daily_pnl +ℤ min_ℤ floating_pnl (pos 0)))

unfoldable pub conservative_entry : Direction → ℤ → ℤ → Result RiskError ℤ
conservative_entry direction bid ask =
    if leb_ℤ bid (pos 0) || leb_ℤ ask (pos 0) || ltb_ℤ ask bid
    then err RiskError.invalid_quote
    else ok (elim direction [ Direction.buy ↦ ask | Direction.sell ↦ bid ])

unfoldable pub loss_per_unit : ℤ → ℤ → ℤ → ℤ → Result RiskError ℕ
loss_per_unit entry stop contract_size conversion_rate =
    if leb_ℤ (minimum entry (stop ∷ contract_size ∷ conversion_rate ∷ [])) (pos 0)
    then err RiskError.terms_not_positive
    else ok (abs_ℤ (entry -ℤ stop) * pos_part contract_size * pos_part conversion_rate)

unfoldable pub size_for_risk : ℤ → ℤ → ℤ → Result RiskError ℕ
unfolding round_down
size_for_risk risk_budget per_unit_loss increment =
    if leb_ℤ risk_budget (pos 0) || leb_ℤ per_unit_loss (pos 0)
    then ok 0
    else round_down (pos_part risk_budget) (pos_part per_unit_loss) increment

-- The loss of a futures contract. The quantum of rates is such that the division is exact.
unfoldable pub futures_loss : ℕ → Option ℤ → Option ℤ → ℤ → Result RiskError ℕ
futures_loss distance (some tick_size) (some tick_value) conversion_rate =
    if leb_ℤ tick_size (pos 0) || leb_ℤ tick_value (pos 0)
    then err RiskError.futures_ticks_missing
    else ok (distance * pos_part tick_value * pos_part conversion_rate / pos_part tick_size)
futures_loss _ _ _ _ = err RiskError.futures_ticks_missing

abbrev pub is_futures : InstrumentType → Bool
is_futures InstrumentType.futures = true
is_futures _ = false

unfoldable pub type_aware_loss_per_unit :
    InstrumentType → ℤ → ℤ → ℤ → Option ℤ → Option ℤ → ℤ → Result RiskError ℕ
unfolding futures_loss
type_aware_loss_per_unit instrument_type entry stop multiplier tick_size tick_value rate =
    let distance = abs_ℤ (entry -ℤ stop) in
    if leb_ℤ rate (pos 0) || leb_ℤ multiplier (pos 0)
    then err RiskError.multiplier_not_positive
    else if leb distance 0
    then err RiskError.entry_equals_stop
    else if is_futures instrument_type
    then futures_loss distance tick_size tick_value rate
    else ok (distance * pos_part multiplier * pos_part rate)

unfoldable pub notional_exposure : ℤ → ℤ → ℤ → Result RiskError ℕ
notional_exposure price quantity multiplier =
    if leb_ℤ (minimum price (quantity ∷ multiplier ∷ [])) (pos 0)
    then err RiskError.quantity_not_positive
    else ok (pos_part price * pos_part quantity * pos_part multiplier)

unfoldable pub compliant_size : ℕ → ℕ → List ℤ → ℕ → Result RiskError ℕ
unfolding size_for_risk
compliant_size requested_size risk_per_unit [] increment = ok requested_size
compliant_size requested_size risk_per_unit (c ∷ cs) increment = do
  let budget = max_ℤ (pos 0) (minimum c cs)
  size ← size_for_risk budget (pos risk_per_unit) (pos increment)
  ok (min requested_size size)

unfoldable pub compliant_typed_size :
    ℕ → ℤ → InstrumentType → ℤ → ℤ → ℤ → ℤ → Option ℤ → Option ℤ → ℤ → Result RiskError ℕ
unfolding type_aware_loss_per_unit size_for_risk
compliant_typed_size requested_size budget type entry stop increment multiplier ts tv rate = do
  per_unit ← type_aware_loss_per_unit type entry stop multiplier ts tv rate
  size ← size_for_risk budget (pos per_unit) increment
  ok (min requested_size size)

-- The loop of `reserved_risk`; `none` is the exception for a position without a stop.
unfoldable pub reserved_from : Bool → ℕ → List OpenPositionRisk → Option ℕ
reserved_from include total [] = some total
reserved_from include total (p ∷ ps) = elim p.remaining_loss_to_stop [
  | none ↦ none
  | some loss ↦
      let gross = total + clip loss in
      reserved_from include (if include then gross - clip p.unrealized_pnl else gross) ps
]

unfoldable pub reserved_risk : List OpenPositionRisk → Bool → Option ℕ
unfolding reserved_from
reserved_risk positions include = reserved_from include 0 positions

-- `int(max(Decimal("0"), remaining) // candidate_risk)`
abbrev risk_slots : ℤ → ℕ → ℕ
risk_slots remaining candidate_risk = clip remaining / candidate_risk

unfoldable pub additional_trade_capacity : ℕ → ℕ → ℤ → ℕ → Option ℤ → ℕ
additional_trade_capacity static_max open_trades remaining candidate_risk correlated =
    let slots = static_max - open_trades in
    if nat_beq slots 0 || nat_beq candidate_risk 0
    then 0
    else min slots (elim correlated [
      | none ↦ risk_slots remaining candidate_risk
      | some c ↦ min (risk_slots remaining candidate_risk) (risk_slots c candidate_risk)
    ])
