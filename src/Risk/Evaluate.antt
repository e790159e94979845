-- ===== src/Risk/Evaluate.antt =====
-- `RiskEngine.evaluate` (modules/risk/engine.py), put together from the stages of `Engine`.
pub mod Cases
pub mod Bounds
pub mod Largest
pub mod Authority
pub mod Decision
pub mod Breakeven
use matrades.Common.{ℕ, ◌+◌, max, Option, none, some, List, [], ◌∷◌, ◌++◌, map, length, not}
use matrades.Common.Int.{ℤ, pos, ◌+ℤ◌, minimum, sum_from}
use matrades.Common.Text.{codes}
use matrades.Common.Result.{Result, ok, err, raise_if, ◌>>=◌, ◌>>◌}
use matrades.Domain.{RiskError}
use matrades.Policy.{strictest_applicable}
use matrades.Risk.Models.{
  CandidateTrade, RiskContext, finite, infinity, Reason, Limiting, RiskResult,
}
use matrades.Risk.Financial.{
  type_aware_loss_per_unit, compliant_size, reserved_risk, additional_trade_capacity,
}
use matrades.Risk.Exposure.{Exposure, position_exposure, aggregate_exposure, all_finite}
use matrades.Risk.Checks.{
  validate_typed_candidate, validate_specification_authority, limit_from_source,
}
use matrades.Risk.Engine.{
  Limits, Required, Room, room_of, required_limits, blocked, missing_authority, violations,
  other_capacities, net, limiting_sources, decide, notional_of, approved_risk, requested_risk,
}

-- The result for a size that the capacities allow, from the decision on. `RiskSnapshot` refuses an
-- exposure that is not finite.
unfoldable pub report :
    RiskContext
    → CandidateTrade
    → Limits
    → Room
    → ℤ
    → Exposure
    → Exposure
    → ℕ
    → Result RiskError RiskResult
unfolding limiting_sources
report ctx c limits room existing base exposures size = do
  let (decision, approved, reason) = decide ctx c size
  let capacities = other_capacities ctx limits room base
  notional ← notional_of c approved
  raise_if (not (all_finite base)) RiskError.not_finite
  ok (record {
    decision = decision;
    approved_size = approved;
    reason = reason;
    limiting_constraints =
        limiting_sources limits (strictest_applicable ctx.constraints)
        ++ violations exposures ctx.correlation_caps;
    snapshot = record {
      account = ctx.account;
      current_drawdown = room.drawdown;
      daily_drawdown = room.used_daily;
      maximum_allowed_drawdown = room.allowed_dd;
      prop_firm_drawdown_limit = limit_from_source ctx (codes "prop");
      internal_drawdown_limit = limit_from_source ctx (codes "internal");
      remaining_drawdown = room.remaining_dd;
      daily_loss_remaining = room.remaining_daily;
      existing_open_risk = room.existing;
      existing_correlated_exposure = base;
      candidate_trade_risk = approved_risk c size;
      portfolio_risk_after_trade = finite (existing +ℤ pos (approved_risk c size));
      remaining_portfolio_risk_capacity = room.remaining_portfolio;
      open_trades = length ctx.positions;
      max_concurrent_trades = ctx.static_max_concurrent_trades;
      additional_trade_capacity =
          additional_trade_capacity ctx.static_max_concurrent_trades (length ctx.positions)
            (minimum (pos room.remaining_dd) capacities)
            (max (approved_risk c size) (requested_risk c)) none;
      identity = some c.identity;
      notional_exposure = notional;
      margin_required = c.margin_required;
      financing_cost = c.financing_cost;
    };
  })

-- The size that every capacity allows, net of the fixed costs.
unfoldable pub sized : RiskContext → CandidateTrade → Limits → Room → Exposure → Result RiskError ℕ
sized ctx c limits room base =
    compliant_size c.requested_size c.risk_per_unit
      (net c.financing_cost (pos room.remaining_dd)
        ∷ map (net c.financing_cost) (other_capacities ctx limits room base))
      c.size_increment

-- From the risk already taken on.
unfoldable pub evaluate_existing :
    RiskContext → CandidateTrade → Limits → ℤ → Result RiskError RiskResult
evaluate_existing ctx c limits existing = do
  let room = room_of ctx limits existing
  exposures ← aggregate_exposure ctx.positions c (pos (requested_risk c))
  base ← position_exposure ctx.positions
  size ← sized ctx c limits room base
  report ctx c limits room existing base exposures size

-- The room that is reported when an open position has no stop: the losses are computed, and the open
-- risk is infinite.
unfoldable pub unbounded_room : RiskContext → Limits → Room
unbounded_room ctx limits =
    let room = room_of ctx limits (pos 0) in
    record room { existing = infinity; remaining_portfolio = 0 }

-- From the required limits on.
unfoldable pub evaluate_limits : RiskContext → CandidateTrade → Limits → Result RiskError RiskResult
unfolding unbounded_room
evaluate_limits ctx c limits = elim (reserved_risk ctx.positions ctx.include_unrealized_profit) [
  | none ↦
      blocked ctx (unbounded_room ctx limits) Reason.unbounded_position
        (Limiting.unbounded_open_position ∷ [])
  | some reserved ↦
      evaluate_existing ctx c limits (pos reserved +ℤ sum_from (pos 0) ctx.active_reservations)
]

-- From the typed checks on, with the loss for one unit settled.
unfoldable pub evaluate_settled : RiskContext → CandidateTrade → Result RiskError RiskResult
evaluate_settled ctx c = elim (required_limits ctx) [
  | Required.complete limits ↦ evaluate_limits ctx c limits
  | Required.lacking ms ↦ missing_authority ctx ms
]

-- A typed candidate: its specification is checked, and its loss for one unit computed anew.
unfoldable pub evaluate_typed : RiskContext → CandidateTrade → Result RiskError RiskResult
evaluate_typed ctx c = elim c.identity.instrument_type [
  | none ↦ evaluate_settled ctx c
  | some type ↦ elim (validate_specification_authority ctx c) [
    | some m ↦ missing_authority ctx (m ∷ [])
    | none ↦
        type_aware_loss_per_unit type (pos c.entry_price) (pos c.stop_loss) c.contract_multiplier
          c.tick_size c.tick_value (pos 1)
        >>= λ rate. evaluate_settled ctx (record c { risk_per_unit = rate })
  ]
]

-- `RiskEngine.evaluate`
unfoldable pub evaluate : RiskContext → CandidateTrade → Result RiskError RiskResult
evaluate ctx c = elim (validate_typed_candidate c) [
  | some m ↦ missing_authority ctx (m ∷ [])
  | none ↦ evaluate_typed ctx c
]
