-- ===== src/Risk/Models.antt =====
-- The models of the risk authority (modules/risk/models.py). A Decimal is a whole number of a quantum
-- that belongs to its dimension: prices, quantities, rates of loss (money for one unit of quantity)
-- and money, where the quantum of money is the product of those of quantity and rate. A value that
-- the models validate as positive or not negative is a natural number.
use matrades.Common.{ℕ, ◌≡◌, ◌↔◌, ◌<◌, Bool, true, false, Option, List, arith, Eq, nat_beq}
use matrades.Common.Int.{ℤ}
use matrades.Common.Dict.{Dict}
use matrades.Domain.{AssetClass, InstrumentType, QuantityUnit}
use matrades.Accounts.{AccountSnapshot}
use matrades.Policy.{EffectiveConstraint}

pub data Direction : Type 0 where
  buy sell : Direction

-- The instrument fields that a typed position or candidate carries beside its numbers.
pub record TypedIdentity : Type 0 where
  pub asset_class : Option AssetClass
  pub instrument_type : Option InstrumentType
  pub venue_instrument_id : Option ℕ
  pub futures_contract_id : Option ℕ
  pub specification_version_id : Option ℕ
  pub quantity_unit : Option QuantityUnit

pub record OpenPositionRisk : Type 0 where
  pub position_id : ℕ
  pub instrument : ℕ
  pub direction : Direction
  pub market_category : ℕ
  pub currency_exposures : Dict ℕ ℤ
  pub remaining_loss_to_stop : Option ℤ
  pub unrealized_pnl : ℤ
  pub identity : TypedIdentity
  pub underlying_id : Option ℕ

pub record CandidateTrade : Type 0 where
  pub instrument : ℕ
  pub direction : Direction
  pub market_category : ℕ
  pub requested_size : ℕ
  pub entry_price : ℕ
  pub stop_loss : ℕ
  pub risk_per_unit : ℕ
  pub size_increment : ℕ
  pub currency_exposures : Dict ℕ ℤ
  pub identity : TypedIdentity
  pub contract_multiplier : ℤ
  pub tick_size : Option ℤ
  pub tick_value : Option ℤ
  pub margin_required : ℕ
  pub financing_cost : ℕ
  pub underlying_id : Option ℕ

-- The `gt=0` constraints of the fields.
pub record IsValidated (c : CandidateTrade) : Type 0 where
  pub requested : 0 < c.requested_size
  pub entry : 0 < c.entry_price
  pub stop : 0 < c.stop_loss
  pub rate : 0 < c.risk_per_unit
  pub increment : 0 < c.size_increment

-- A key of the exposure maps: `category:X`, `underlying:X`, `currency:X`, or any other text, which
-- the engine only looks up.
pub data Group : Type 0 where
  category underlying currency other : ℕ → Group

abbrev pub group_beq : Group → Group → Bool
group_beq (Group.category a) (Group.category b) = nat_beq a b
group_beq (Group.underlying a) (Group.underlying b) = nat_beq a b
group_beq (Group.currency a) (Group.currency b) = nat_beq a b
group_beq (Group.other a) (Group.other b) = nat_beq a b
group_beq _ _ = false

pub group_iff : (a b : Group) → (group_beq a b ≡ true) ↔ (a ≡ b)
group_iff (Group.category a) (Group.category b) = ground arith
group_iff (Group.underlying a) (Group.underlying b) = ground arith
group_iff (Group.currency a) (Group.currency b) = ground arith
group_iff (Group.other a) (Group.other b) = ground arith
group_iff _ _ = ground arith

instance abbrev pub group_eq : Eq Group
group_eq = record { beq = group_beq; beq_iff = group_iff }

-- What the engine reads of an instrument specification; an empty cut identifier is `none`.
pub record Specification : Type 0 where
  pub is_valid : Bool
  pub source_cut_id : Option ℕ

pub record RiskContext : Type 0 where
  pub account : AccountSnapshot
  pub constraints : List EffectiveConstraint
  pub positions : List OpenPositionRisk
  pub correlation_caps : Dict Group ℤ
  pub static_max_concurrent_trades : ℕ
  pub include_unrealized_profit : Bool
  pub instrument_specifications : Dict ℕ Specification
  pub current_source_cut_id : Option ℕ
  pub active_reservations : List ℤ
  pub account_currency_verified : Bool

pub data RiskDecision : Type 0 where
  pass reduce_size hard_block : RiskDecision

-- A Decimal that may be `Decimal("Infinity")`; a model that is built of one refuses it.
pub data Extended : Type 0 where
  finite : ℤ → Extended
  infinity : Extended

-- The copied account fields stand in `account`, the copied instrument fields in `identity`.
pub record RiskSnapshot : Type 0 where
  pub account : AccountSnapshot
  pub current_drawdown : ℕ
  pub daily_drawdown : ℕ
  pub maximum_allowed_drawdown : ℤ
  pub prop_firm_drawdown_limit : Option ℤ
  pub internal_drawdown_limit : Option ℤ
  pub remaining_drawdown : ℕ
  pub daily_loss_remaining : ℕ
  pub existing_open_risk : Extended
  pub existing_correlated_exposure : Dict Group Extended
  pub candidate_trade_risk : ℕ
  pub portfolio_risk_after_trade : Extended
  pub remaining_portfolio_risk_capacity : ℕ
  pub open_trades : ℕ
  pub max_concurrent_trades : ℕ
  pub additional_trade_capacity : ℕ
  pub identity : Option TypedIdentity
  pub notional_exposure : ℕ
  pub margin_required : ℕ
  pub financing_cost : ℕ

-- The texts of `reasons`.
pub data Reason : Type 0 where
  authority_unavailable would_breach reduced fits unbounded_position : Reason
  currency_unavailable trade_limit_missing : Reason

-- What blocks an evaluation before any limit is computed.
pub data Missing : Type 0 where
  venue_instrument specification_version quantity_unit futures_contract futures_ticks : Missing
  effective_specification stale_specification source_cut_mismatch : Missing
  daily_loss_limit portfolio_risk_limit total_drawdown_limit : Missing

-- An entry of `limiting_constraints`: the source of a limit, an exposure group over its cap, a missing
-- authority, or an open position without a stop. The source sorts the entries and drops repetitions.
pub data Limiting : Type 0 where
  source : List ℕ → Limiting
  over_cap : Group → Limiting
  missing : Missing → Limiting
  unbounded_open_position : Limiting

pub record RiskResult : Type 0 where
  pub decision : RiskDecision
  pub approved_size : ℕ
  pub reason : Reason
  pub limiting_constraints : List Limiting
  pub snapshot : RiskSnapshot
