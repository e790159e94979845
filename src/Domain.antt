-- ===== src/Domain.antt =====
-- Value types shared by the deterministic services (packages/shared/domain_types.py). Identifiers
-- (UUIDs) and texts that are only compared are natural numbers; instants are whole microseconds.
use matrades.Common.{ℕ, ◌*◌, ◌/◌, if◌then◌else◌}
use matrades.Common.Int.{ℤ, pos, pos_part, leb_ℤ}
use matrades.Common.Result.{Result, ok, err}

pub data AssetClass : Type 0 where
  forex metals cryptocurrency stocks : AssetClass

pub data InstrumentType : Type 0 where
  spot cfd futures : InstrumentType

pub data QuantityUnit : Type 0 where
  units shares lots contracts : QuantityUnit

pub data ExecutionAction : Type 0 where
  place_order cancel_order set_or_change_stop_loss set_or_change_take_profit : ExecutionAction
  partial_close full_exit : ExecutionAction

pub data TradePlanState : Type 0 where
  constructed validating blocked ready authorized execution_pending executing : TradePlanState
  active expired cancelled revalidation_required : TradePlanState

pub data CommandState : Type 0 where
  created validating blocked authorized queued dispatching acknowledged : CommandState
  partially_applied applied rejected superseded outcome_unknown reconciling : CommandState
  no_effect_confirmed blocked_ambiguous expired : CommandState

pub data OutcomeCertainty : Type 0 where
  no_outcome uncertain confirmed : OutcomeCertainty

-- What the risk calculations raise: `ValueError` with its cause, the `InvalidOperation` of
-- `Decimal("0") * Decimal("Infinity")`, or pydantic's `ValidationError` for a Decimal that is not finite.
pub data RiskError : Type 0 where
  increment_not_positive invalid_quote terms_not_positive multiplier_not_positive : RiskError
  entry_equals_stop futures_ticks_missing quantity_not_positive : RiskError
  starting_balance_not_positive invalid_operation not_finite : RiskError

-- `round_down(value, increment)` at a value that is not negative, given as the exact quotient
-- `num / den`: `(value / increment)` without its fraction, times `increment`.
unfoldable pub round_down : ℕ → ℕ → ℤ → Result RiskError ℕ
round_down num den increment =
    if leb_ℤ increment (pos 0)
    then err RiskError.increment_not_positive
    else ok (num / (den * pos_part increment) * pos_part increment)
