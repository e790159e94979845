-- ===== src/Risk/Engine.antt =====
-- `RiskEngine.evaluate` (modules/risk/engine.py), stage by stage: the typed checks, the required
-- limits, the risk already taken, and the size that the remaining capacities allow.
use matrades.Common.{
  ℕ, ◌+◌, ◌*◌, not, ◌&&◌, ◌||◌, Option, none, some, List, [], ◌∷◌, ◌++◌, map, length, filter, ltb,
  leb, if◌then◌else◌,
}
use matrades.Common.Int.{ℤ, pos, ◌-ℤ◌, beq_ℤ}
use matrades.Common.Text.{codes}
use matrades.Common.Dict.{Dict, lookup, values}
use matrades.Common.Result.{Result, ok, raise_if, ◌>>=◌, ◌>>◌}
use matrades.Domain.{RiskError}
use matrades.Policy.{ConstraintKind, kind_eq, EffectiveConstraint, strictest_applicable}
use matrades.Risk.Models.{
  CandidateTrade, Group, RiskContext, RiskDecision, Extended, finite, infinity, Reason, Missing,
  Limiting, RiskResult,
}
use matrades.Risk.Financial.{clip, total_drawdown, daily_loss, notional_exposure}
use matrades.Risk.Exposure.{
  Exposure, position_exposure, exposure_of, exceeds, is_finite, all_finite,
}
use matrades.Risk.Checks.{limit_from_source}

-- The limits that an evaluation uses; all but the last are required.
pub record Limits : Type 0 where
  pub total_drawdown : EffectiveConstraint
  pub daily_loss : EffectiveConstraint
  pub portfolio_risk : EffectiveConstraint
  pub risk_per_trade : Option EffectiveConstraint

pub data Required : Type 0 where
  complete : Limits → Required
  lacking : List Missing → Required

abbrev absent : Option EffectiveConstraint → Missing → List Missing
absent none m = m ∷ []
absent (some c) m = []

-- `sorted(kind.value for kind in required - limits.keys())`, or the limits.
unfoldable pub require :
    Option EffectiveConstraint
    → Option EffectiveConstraint
    → Option EffectiveConstraint
    → Option EffectiveConstraint
    → Required
require (some dd) (some daily) (some portfolio) trade = Required.complete (record {
  total_drawdown = dd;
  daily_loss = daily;
  portfolio_risk = portfolio;
  risk_per_trade = trade;
})
require dd daily portfolio trade = Required.lacking (
    absent daily Missing.daily_loss_limit
    ++ (absent portfolio Missing.portfolio_risk_limit ++ absent dd Missing.total_drawdown_limit))

abbrev pub limit : ConstraintKind → RiskContext → Option EffectiveConstraint
limit kind ctx = lookup kind (strictest_applicable ctx.constraints)

unfoldable pub required_limits : RiskContext → Required
unfolding require
required_limits ctx =
    require (limit ConstraintKind.max_total_drawdown ctx) (limit ConstraintKind.max_daily_loss ctx)
      (limit ConstraintKind.max_portfolio_risk ctx) (limit ConstraintKind.max_risk_per_trade ctx)

-- The losses so far and what each limit leaves.
pub record Room : Type 0 where
  pub drawdown : ℕ
  pub used_daily : ℕ
  pub allowed_dd : ℤ
  pub remaining_dd : ℕ
  pub remaining_daily : ℕ
  pub existing : Extended
  pub remaining_portfolio : ℕ

unfoldable pub drawdown_of : RiskContext → ℕ
drawdown_of ctx = total_drawdown ctx.account.starting_balance ctx.account.current_equity

unfoldable pub daily_of : RiskContext → ℕ
daily_of ctx = daily_loss ctx.account.realized_daily_pnl ctx.account.floating_pnl

-- `remaining_dd`, `remaining_daily` and `remaining_portfolio`, given the risk already taken.
unfoldable pub room_of : RiskContext → Limits → ℤ → Room
unfolding drawdown_of daily_of
room_of ctx limits existing = record {
  drawdown = drawdown_of ctx;
  used_daily = daily_of ctx;
  allowed_dd = limits.total_drawdown.value;
  remaining_dd = clip (limits.total_drawdown.value -ℤ pos (drawdown_of ctx));
  remaining_daily = clip (limits.daily_loss.value -ℤ pos (daily_of ctx));
  existing = finite existing;
  remaining_portfolio = clip (limits.portfolio_risk.value -ℤ existing);
}

-- `_blocked`: nothing is approved, and no capacity is left. `RiskSnapshot` refuses what is not finite.
unfoldable pub blocked : RiskContext → Room → Reason → List Limiting → Result RiskError RiskResult
blocked ctx room reason limiting = do
  base ← position_exposure ctx.positions
  raise_if (not (is_finite room.existing && all_finite base)) RiskError.not_finite
  ok (record {
    decision = RiskDecision.hard_block;
    approved_size = 0;
    reason = reason;
    limiting_constraints = limiting;
    snapshot = record {
      account = ctx.account;
      current_drawdown = room.drawdown;
      daily_drawdown = room.used_daily;
      maximum_allowed_drawdown = room.allowed_dd;
      prop_firm_drawdown_limit = limit_from_source ctx (codes "prop");
      internal_drawdown_limit = limit_from_source ctx (codes "internal");
      remaining_drawdown = room.remaining_dd;
      daily_loss_remaining = room.remaining_daily;
      existing_open_risk = room.existing;
      existing_correlated_exposure = base;
      candidate_trade_risk = 0;
      portfolio_risk_after_trade = room.existing;
      remaining_portfolio_risk_capacity = 0;
      open_trades = length ctx.positions;
      max_concurrent_trades = ctx.static_max_concurrent_trades;
      additional_trade_capacity = 0;
      identity = none;
      notional_exposure = 0;
      margin_required = 0;
      financing_cost = 0;
    };
  })

-- With no authority no capacity is left.
unfoldable pub nothing_left : RiskContext → Room
unfolding drawdown_of daily_of
nothing_left ctx = record {
  drawdown = drawdown_of ctx;
  used_daily = daily_of ctx;
  allowed_dd = pos 0;
  remaining_dd = 0;
  remaining_daily = 0;
  existing = finite (pos 0);
  remaining_portfolio = 0;
}

-- `_missing_authority`
unfoldable pub missing_authority : RiskContext → List Missing → Result RiskError RiskResult
unfolding nothing_left
missing_authority ctx ms =
    blocked ctx (nothing_left ctx) Reason.authority_unavailable (map Limiting.missing ms)

abbrev pub trade_cap : Option EffectiveConstraint → List ℤ
trade_cap none = []
trade_cap (some c) = c.value ∷ []

-- `max(Decimal("0"), cap - without_candidate)`
abbrev pub left_under : ℤ → Extended → ℕ
left_under cap (finite e) = clip (cap -ℤ e)
left_under cap infinity = 0

unfoldable pub correlation_remaining : Exposure → Dict Group ℤ → List ℤ
correlation_remaining base [] = []
correlation_remaining base ((group, cap) ∷ caps) =
    pos (left_under cap (exposure_of group base)) ∷ correlation_remaining base caps

unfoldable pub violations : Exposure → Dict Group ℤ → List Limiting
violations exposures [] = []
violations exposures ((group, cap) ∷ caps) =
    if exceeds (exposure_of group exposures) cap
    then Limiting.over_cap group ∷ violations exposures caps
    else violations exposures caps

-- All that `capacities` holds behind `remaining_dd`.
unfoldable pub other_capacities : RiskContext → Limits → Room → Exposure → List ℤ
unfolding correlation_remaining
other_capacities ctx limits room base =
    pos room.remaining_daily
    ∷ pos room.remaining_portfolio
    ∷ (trade_cap limits.risk_per_trade ++ correlation_remaining base ctx.correlation_caps)

-- `max(Decimal("0"), cap - candidate.financing_cost)`
abbrev pub net : ℕ → ℤ → ℤ
net financing cap = pos (clip (cap -ℤ pos financing))

unfoldable pub limiting_sources : Limits → Dict ConstraintKind EffectiveConstraint → List Limiting
limiting_sources l items =
    map (λ c. Limiting.source c.source)
      (filter
        (λ c.
          beq_ℤ c.value l.total_drawdown.value
          || (beq_ℤ c.value l.daily_loss.value || beq_ℤ c.value l.portfolio_risk.value))
        (values items))

-- The decision, the size that stays approved, and the reason.
unfoldable pub decide : RiskContext → CandidateTrade → ℕ → RiskDecision × ℕ × Reason
decide ctx c size =
    if leb size 0 || leb ctx.static_max_concurrent_trades (length ctx.positions)
    then (RiskDecision.hard_block, 0, Reason.would_breach)
    else if ltb size c.requested_size
    then (RiskDecision.reduce_size, size, Reason.reduced)
    else (RiskDecision.pass, size, Reason.fits)

abbrev pub notional_of : CandidateTrade → ℕ → Result RiskError ℕ
notional_of c size =
    if ltb 0 size
    then notional_exposure (pos c.entry_price) (pos size) c.contract_multiplier
    else ok 0

-- `size * risk_per_unit + (financing_cost if size > 0 else 0)`
abbrev pub approved_risk : CandidateTrade → ℕ → ℕ
approved_risk c size = size * c.risk_per_unit + (if ltb 0 size then c.financing_cost else 0)

abbrev pub requested_risk : CandidateTrade → ℕ
requested_risk c = c.requested_size * c.risk_per_unit + c.financing_cost
