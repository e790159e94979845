-- ===== src/Tests/Risk.antt =====
-- Runs of the risk engine (modules/risk) on a small account, in quanta: equity 10000, a loss of 1 for
-- one quantum of quantity, and limits that leave room for 60 of the 100 that are requested.
use mathlib.Core.List.{Memᴰ}
use matrades.Common.{ℕ, ◌<◌, ◌≡◌, refl, inr, true, false, Option, none, some, List, [], ◌∷◌, arith}
use matrades.Common.Int.{ℤ, pos, ◌-ℤ◌, ◌+ℤ◌, neg_ℤ}
use matrades.Common.Dict.{lookup}
use matrades.Common.Text.{contains, lower}
use matrades.Common.Result.{ok, err}
use matrades.Domain.{RiskError, round_down}
use matrades.Accounts.{AccountSnapshot}
use matrades.Policy.{
  Enforcement, ConstraintKind, kind_eq, EffectiveConstraint, append_to, group_from, least,
  least_of_pool, strictest_of, pick_each, strictest_applicable,
}
use matrades.Policy.Strictest.{IsStrictest, strictest_applicable-IsStrictest}
use matrades.Risk.Models.{
  Direction, TypedIdentity, OpenPositionRisk, CandidateTrade, Group, RiskContext, RiskDecision,
  RiskSnapshot, RiskResult, Reason, Missing, Limiting, Extended,
}
use matrades.Risk.Financial.{
  total_drawdown, daily_loss, size_for_risk, notional_exposure, compliant_size, reserved_from,
  reserved_risk, additional_trade_capacity,
}
use matrades.Risk.Exposure.{
  add_extended, weigh, exposure_of, add_to, add_currencies, add_risk, position_risk, add_positions,
  position_exposure, aggregate_exposure, exceeds,
}
use matrades.Risk.Checks.{validate_typed_candidate, limit_from_source}
use matrades.Risk.Engine.{
  require, required_limits, drawdown_of, daily_of, room_of, blocked, nothing_left,
  missing_authority, correlation_remaining, violations, other_capacities, limiting_sources, decide,
}
use matrades.Risk.Evaluate.{
  report, sized, evaluate_existing, unbounded_room, evaluate_limits, evaluate_settled,
  evaluate_typed, evaluate,
}
use matrades.Risk.Evaluate.Cases.{IsBlocked}
use matrades.Risk.Evaluate.Authority.{IsAuthorized, evaluate-IsAuthorized}
use matrades.Risk.Evaluate.Decision.{IsRequired, IsReduced, evaluate-Agrees, evaluate-no_limit}
use matrades.Risk.Evaluate.Breakeven.{evaluate-raises}

abbrev account : AccountSnapshot
account = record {
  account_id = 1;
  starting_balance = pos 10000;
  current_balance = pos 10000;
  current_equity = pos 10000;
  floating_pnl = pos 0;
  realized_daily_pnl = pos 0;
  observed_at = 5;
  cash_balances = [];
}

abbrev constraint : ConstraintKind → ℕ → Enforcement → EffectiveConstraint
constraint kind value enforcement = record {
  kind = kind;
  value = pos value;
  source = [];
  source_version = 1;
  enforcement = enforcement;
}

abbrev constraints : List EffectiveConstraint
constraints =
    constraint ConstraintKind.max_total_drawdown 1000 Enforcement.hard
    ∷ constraint ConstraintKind.max_daily_loss 500 Enforcement.hard
    ∷ constraint ConstraintKind.max_portfolio_risk 300 Enforcement.soft
    ∷ constraint ConstraintKind.max_risk_per_trade 60 Enforcement.hard
    ∷ constraint ConstraintKind.max_risk_per_trade 40 Enforcement.soft
    ∷ []

abbrev untyped : TypedIdentity
untyped = record {
  asset_class = none;
  instrument_type = none;
  venue_instrument_id = none;
  futures_contract_id = none;
  specification_version_id = none;
  quantity_unit = none;
}

abbrev position : Option ℤ → OpenPositionRisk
position loss = record {
  position_id = 1;
  instrument = 2;
  direction = Direction.buy;
  market_category = 7;
  currency_exposures = [];
  remaining_loss_to_stop = loss;
  unrealized_pnl = pos 0;
  identity = untyped;
  underlying_id = none;
}

abbrev context : List EffectiveConstraint → List OpenPositionRisk → ℕ → RiskContext
context limits positions slots = record {
  account = account;
  constraints = limits;
  positions = positions;
  correlation_caps = (Group.category 7, pos 400) ∷ [];
  static_max_concurrent_trades = slots;
  include_unrealized_profit = false;
  instrument_specifications = [];
  current_source_cut_id = none;
  active_reservations = [];
  account_currency_verified = true;
}

abbrev candidate : CandidateTrade
candidate = record {
  instrument = 3;
  direction = Direction.sell;
  market_category = 7;
  requested_size = 100;
  entry_price = 20;
  stop_loss = 21;
  risk_per_unit = 1;
  size_increment = 10;
  currency_exposures = [];
  identity = untyped;
  contract_multiplier = pos 1;
  tick_size = none;
  tick_value = none;
  margin_required = 0;
  financing_cost = 0;
  underlying_id = none;
}

abbrev open_context : RiskContext
open_context = context constraints (position (some (pos 50)) ∷ []) 3

abbrev sources : List Limiting
sources = Limiting.source [] ∷ Limiting.source [] ∷ Limiting.source [] ∷ []

abbrev reduced_snapshot : RiskSnapshot
reduced_snapshot = record {
  account = account;
  current_drawdown = 0;
  daily_drawdown = 0;
  maximum_allowed_drawdown = pos 1000;
  prop_firm_drawdown_limit = none;
  internal_drawdown_limit = none;
  remaining_drawdown = 1000;
  daily_loss_remaining = 500;
  existing_open_risk = Extended.finite (pos 50);
  existing_correlated_exposure = (Group.category 7, Extended.finite (pos 50)) ∷ [];
  candidate_trade_risk = 60;
  portfolio_risk_after_trade = Extended.finite (pos 110);
  remaining_portfolio_risk_capacity = 250;
  open_trades = 1;
  max_concurrent_trades = 3;
  additional_trade_capacity = 0;
  identity = some untyped;
  notional_exposure = 1200;
  margin_required = 0;
  financing_cost = 0;
}

abbrev pub reduced : RiskResult
reduced = record {
  decision = RiskDecision.reduce_size;
  approved_size = 60;
  reason = Reason.reduced;
  limiting_constraints = sources;
  snapshot = reduced_snapshot;
}

evaluate-reduced : evaluate open_context candidate ≡ ok reduced
unfolding evaluate validate_typed_candidate evaluate_typed evaluate_settled required_limits require
    evaluate_limits evaluate_existing reserved_risk reserved_from sized report strictest_applicable
    append_to group_from least least_of_pool strictest_of pick_each total_drawdown daily_loss
    size_for_risk notional_exposure compliant_size additional_trade_capacity add_extended weigh
    exposure_of add_to add_currencies add_risk position_risk add_positions position_exposure
    aggregate_exposure exceeds limit_from_source drawdown_of daily_of room_of correlation_remaining
    violations other_capacities limiting_sources decide round_down ◌-ℤ◌ ◌+ℤ◌ neg_ℤ contains lower
evaluate-reduced = refl

evaluate-IsAuthorized_example : IsAuthorized open_context candidate reduced
evaluate-IsAuthorized_example =
    evaluate-IsAuthorized open_context candidate reduced (omega arith) evaluate-reduced
      (omega arith)

evaluate-Agrees_example :
    ((0 < 60) × (60 < 100))
    × (RiskDecision.reduce_size ≡ RiskDecision.reduce_size
        → IsReduced open_context candidate reduced)
evaluate-Agrees_example = evaluate-Agrees open_context candidate reduced evaluate-reduced

-- The same account with one slot, which its open position takes.
abbrev full_context : RiskContext
full_context = context constraints (position (some (pos 50)) ∷ []) 1

abbrev full : RiskResult
full = record {
  decision = RiskDecision.hard_block;
  approved_size = 0;
  reason = Reason.would_breach;
  limiting_constraints = sources;
  snapshot = record reduced_snapshot { max_concurrent_trades = 1; notional_exposure = 0 };
}

evaluate-of_full : evaluate full_context candidate ≡ ok full
unfolding evaluate validate_typed_candidate evaluate_typed evaluate_settled required_limits require
    evaluate_limits evaluate_existing reserved_risk reserved_from sized report strictest_applicable
    append_to group_from least least_of_pool strictest_of pick_each total_drawdown daily_loss
    size_for_risk notional_exposure compliant_size additional_trade_capacity add_extended weigh
    exposure_of add_to add_currencies add_risk position_risk add_positions position_exposure
    aggregate_exposure exceeds limit_from_source drawdown_of daily_of room_of correlation_remaining
    violations other_capacities limiting_sources decide round_down ◌-ℤ◌ ◌+ℤ◌ neg_ℤ contains lower
evaluate-of_full = refl

-- A position at break-even.
abbrev breakeven : OpenPositionRisk
breakeven = position (some (pos 0))

abbrev breakeven_context : RiskContext
breakeven_context = context constraints (breakeven ∷ []) 3

evaluate-at_breakeven : evaluate breakeven_context candidate ≡ err RiskError.not_finite
unfolding evaluate validate_typed_candidate evaluate_typed evaluate_settled required_limits require
    evaluate_limits evaluate_existing reserved_risk reserved_from sized report strictest_applicable
    append_to group_from least least_of_pool strictest_of pick_each total_drawdown daily_loss
    size_for_risk notional_exposure compliant_size additional_trade_capacity add_extended weigh
    exposure_of add_to add_currencies add_risk position_risk add_positions position_exposure
    aggregate_exposure exceeds limit_from_source drawdown_of daily_of room_of correlation_remaining
    violations other_capacities limiting_sources decide round_down ◌-ℤ◌ ◌+ℤ◌ neg_ℤ contains lower
evaluate-at_breakeven = refl

evaluate-raises_example : (error : RiskError) × (evaluate breakeven_context candidate ≡ err error)
evaluate-raises_example =
    evaluate-raises breakeven_context candidate breakeven (Memᴰ.head refl) (inr refl)

-- An account without limits.
abbrev bare_context : RiskContext
bare_context = context [] [] 3

abbrev blocked_result : RiskResult
blocked_result = record {
  decision = RiskDecision.hard_block;
  approved_size = 0;
  reason = Reason.authority_unavailable;
  limiting_constraints =
      Limiting.missing Missing.daily_loss_limit
      ∷ Limiting.missing Missing.portfolio_risk_limit
      ∷ Limiting.missing Missing.total_drawdown_limit
      ∷ [];
  snapshot = record reduced_snapshot {
    maximum_allowed_drawdown = pos 0;
    remaining_drawdown = 0;
    daily_loss_remaining = 0;
    existing_open_risk = Extended.finite (pos 0);
    existing_correlated_exposure = [];
    candidate_trade_risk = 0;
    portfolio_risk_after_trade = Extended.finite (pos 0);
    remaining_portfolio_risk_capacity = 0;
    open_trades = 0;
    identity = none;
    notional_exposure = 0;
  };
}

evaluate-bare : evaluate bare_context candidate ≡ ok blocked_result
unfolding evaluate validate_typed_candidate evaluate_typed evaluate_settled required_limits require
    evaluate_limits evaluate_existing reserved_risk reserved_from sized report strictest_applicable
    append_to group_from least least_of_pool strictest_of pick_each total_drawdown daily_loss
    size_for_risk notional_exposure compliant_size additional_trade_capacity add_extended weigh
    exposure_of add_to add_currencies add_risk position_risk add_positions position_exposure
    aggregate_exposure exceeds limit_from_source drawdown_of daily_of room_of correlation_remaining
    violations other_capacities limiting_sources decide round_down ◌-ℤ◌ ◌+ℤ◌ neg_ℤ contains lower
    missing_authority blocked nothing_left unbounded_room
evaluate-bare = refl

evaluate-no_limit_example : IsBlocked blocked_result
evaluate-no_limit_example =
    evaluate-no_limit bare_context candidate blocked_result ConstraintKind.max_daily_loss
      IsRequired.daily_loss refl evaluate-bare

-- A position without a stop.
abbrev unbounded_context : RiskContext
unbounded_context = context constraints (position none ∷ []) 3

evaluate-unbounded : evaluate unbounded_context candidate ≡ err RiskError.not_finite
unfolding evaluate validate_typed_candidate evaluate_typed evaluate_settled required_limits require
    evaluate_limits evaluate_existing reserved_risk reserved_from sized report strictest_applicable
    append_to group_from least least_of_pool strictest_of pick_each total_drawdown daily_loss
    size_for_risk notional_exposure compliant_size additional_trade_capacity add_extended weigh
    exposure_of add_to add_currencies add_risk position_risk add_positions position_exposure
    aggregate_exposure exceeds limit_from_source drawdown_of daily_of room_of correlation_remaining
    violations other_capacities limiting_sources decide round_down ◌-ℤ◌ ◌+ℤ◌ neg_ℤ contains lower
    missing_authority blocked nothing_left unbounded_room
evaluate-unbounded = refl

strictest_applicable-kept :
    lookup ConstraintKind.max_risk_per_trade (strictest_applicable constraints)
    ≡ some (constraint ConstraintKind.max_risk_per_trade 60 Enforcement.hard)
unfolding strictest_applicable append_to group_from least least_of_pool strictest_of pick_each
strictest_applicable-kept = refl

strictest_applicable-IsStrictest_example :
    IsStrictest ConstraintKind.max_risk_per_trade constraints
      (constraint ConstraintKind.max_risk_per_trade 60 Enforcement.hard)
strictest_applicable-IsStrictest_example =
    strictest_applicable-IsStrictest ConstraintKind.max_risk_per_trade constraints
      (constraint ConstraintKind.max_risk_per_trade 60 Enforcement.hard) strictest_applicable-kept

size_for_risk-run : size_for_risk (pos 100) (pos 3) (pos 10) ≡ ok 30
unfolding size_for_risk round_down
size_for_risk-run = refl

compliant_size-run : compliant_size 50 3 (pos 100 ∷ pos 70 ∷ []) 10 ≡ ok 20
unfolding compliant_size size_for_risk round_down
compliant_size-run = refl
