-- ===== src/Trading/Models.antt =====
-- The models of modules/trading/models.py. A Decimal is a whole number of its dimension's quantum, and
-- a text or an identifier that is only compared or copied is a natural number.
pub mod Key
use matrades.Common.{
  ℕ, ◌≡◌, ◌↔◌, Bool, true, false, Option, some, List, [], ◌∷◌, arith, Eq, nat_beq, opt_beq, ◌&&◌,
  all, length, nat_eq,
}
use matrades.Common.Dict.{Dict, lookup}
use matrades.Domain.{
  AssetClass, InstrumentType, QuantityUnit, ExecutionAction, TradePlanState, CommandState,
  OutcomeCertainty,
}
use matrades.Risk.Models.{Direction, RiskResult}

-- `datetime` defaults that nothing reads (`effective_at`, `changed_at`) are not fields.
pub record ExecutionPermissionProfile : Type 0 where
  pub account_id : ℕ
  pub version : ℕ
  pub new_entry : Bool
  pub order_cancellation : Bool
  pub stop_loss_create_or_modify : Bool
  pub take_profit_create_or_modify : Bool
  pub partial_close : Bool
  pub full_exit : Bool
  pub reason : ℕ

unfoldable pub allows : ExecutionPermissionProfile → ExecutionAction → Bool
allows p ExecutionAction.place_order = p.new_entry
allows p ExecutionAction.cancel_order = p.order_cancellation
allows p ExecutionAction.set_or_change_stop_loss = p.stop_loss_create_or_modify
allows p ExecutionAction.set_or_change_take_profit = p.take_profit_create_or_modify
allows p ExecutionAction.partial_close = p.partial_close
allows p ExecutionAction.full_exit = p.full_exit

-- The pattern of `scope`.
pub data Scope : Type 0 where
  platform account : Scope

pub record KillSwitchState : Type 0 where
  pub scope : Scope
  pub active : Bool
  pub safety_epoch : ℕ
  pub account_id : Option ℕ
  pub reason : ℕ

-- `targets` is not empty: its first element and the rest.
pub record TradeConstruction : Type 0 where
  pub instrument : ℕ
  pub direction : Direction
  pub entry : ℕ
  pub stop_loss : ℕ
  pub first_target : ℕ
  pub later_targets : List ℕ
  pub invalidation : ℕ
  pub approved_size : ℕ
  pub quantity_unit : QuantityUnit
  pub asset_class : AssetClass
  pub instrument_type : InstrumentType
  pub venue_instrument_id : ℕ
  pub specification_version_id : ℕ
  pub futures_contract_id : Option ℕ

pub record ExecutionAuthorization : Type 0 where
  pub id : ℕ
  pub account_id : ℕ
  pub action : ExecutionAction
  pub permission_version : ℕ
  pub platform_safety_epoch : ℕ
  pub account_safety_epoch : ℕ
  pub authorization_digest : ℕ
  pub issued_at : ℕ
  pub expires_at : ℕ

pub record ExecutionAttempt : Type 0 where
  pub attempt : ℕ
  pub state : CommandState
  pub request_digest : ℕ
  pub response_digest : Option ℕ
  pub error_code : Option ℕ

-- The values that `requested_postcondition` holds: an enumeration, a text or identifier, a Decimal
-- written with `str`, a list of those, or `None`. The text of a Decimal depends on its number and on its
-- exponent, which is coded as a natural number: `1.0` and `1.00` are two texts.
pub data Value : Type 0 where
  direction : Direction → Value
  unit : QuantityUnit → Value
  text : ℕ → Value
  decimal : ℕ → ℕ → Value
  decimals : List ℕ → List ℕ → Value
  no_value : Value

abbrev pub numbers_beq : List ℕ → List ℕ → Bool
numbers_beq [] [] = true
numbers_beq (a ∷ xs) (b ∷ ys) = nat_beq a b && numbers_beq xs ys
numbers_beq [] (b ∷ ys) = false
numbers_beq (a ∷ xs) [] = false

numbers_iff : (xs ys : List ℕ) → (numbers_beq xs ys ≡ true) ↔ (xs ≡ ys)
numbers_iff [] [] = ground arith
numbers_iff (a ∷ xs) (b ∷ ys) = ground (arith, numbers_iff xs ys)
numbers_iff [] (b ∷ ys) = ground arith
numbers_iff (a ∷ xs) [] = ground arith

abbrev pub direction_beq : Direction → Direction → Bool
direction_beq Direction.buy Direction.buy = true
direction_beq Direction.sell Direction.sell = true
direction_beq _ _ = false

abbrev pub unit_beq : QuantityUnit → QuantityUnit → Bool
unit_beq QuantityUnit.units QuantityUnit.units = true
unit_beq QuantityUnit.shares QuantityUnit.shares = true
unit_beq QuantityUnit.lots QuantityUnit.lots = true
unit_beq QuantityUnit.contracts QuantityUnit.contracts = true
unit_beq _ _ = false

abbrev pub value_beq : Value → Value → Bool
value_beq (Value.direction a) (Value.direction b) = direction_beq a b
value_beq (Value.unit a) (Value.unit b) = unit_beq a b
value_beq (Value.text a) (Value.text b) = nat_beq a b
value_beq (Value.decimal a e) (Value.decimal b f) = nat_beq a b && nat_beq e f
value_beq (Value.decimals a e) (Value.decimals b f) = numbers_beq a b && numbers_beq e f
value_beq Value.no_value Value.no_value = true
value_beq _ _ = false

direction_iff : (a b : Direction) → (direction_beq a b ≡ true) ↔ (a ≡ b)
direction_iff a b = ground arith

unit_iff : (a b : QuantityUnit) → (unit_beq a b ≡ true) ↔ (a ≡ b)
unit_iff a b = ground arith

pub value_iff : (a b : Value) → (value_beq a b ≡ true) ↔ (a ≡ b)
value_iff (Value.direction a) (Value.direction b) = ground (arith, direction_iff a b)
value_iff (Value.unit a) (Value.unit b) = ground (arith, unit_iff a b)
value_iff (Value.text a) (Value.text b) = ground arith
value_iff (Value.decimal a e) (Value.decimal b f) = ground arith
value_iff (Value.decimals a e) (Value.decimals b f) =
    ground (arith, numbers_iff a b, numbers_iff e f)
value_iff _ _ = ground arith

instance abbrev pub value_eq : Eq Value
value_eq = record { beq = value_beq; beq_iff = value_iff }

-- `requested_postcondition`: a dict whose keys, texts that are only compared, are numbers. Those that
-- the source writes and reads are named in `Key`.
abbrev pub Postcondition : Type 0
Postcondition = Dict ℕ Value

-- `!=` of two dicts: the order of the keys does not count.
unfoldable pub postcondition_beq : Postcondition → Postcondition → Bool
postcondition_beq d e =
    nat_beq (length d) (length e) && all (λ p. opt_beq (lookup p.0 e) (some p.1)) d

pub record ExecutionCommand : Type 0 where
  pub id : ℕ
  pub account_id : ℕ
  pub action : ExecutionAction
  pub trade_plan_id : Option ℕ
  pub management_action_id : Option ℕ
  pub authorization_id : Option ℕ
  pub idempotency_key : ℕ
  pub requested_postcondition : Postcondition
  pub expected_broker_version : Option ℕ
  pub target_order_id : Option ℕ
  pub target_position_id : Option ℕ
  pub state : CommandState
  pub outcome_certainty : OutcomeCertainty
  pub attempts : List ExecutionAttempt
  pub broker_order_id : Option ℕ
  pub version : ℕ

-- The exponents of the Decimals that a plan holds, for their texts.
pub record Exponents : Type 0 where
  pub approved_size : ℕ
  pub entry : ℕ
  pub stop_loss : ℕ
  pub first_target : ℕ
  pub later_targets : List ℕ
  pub candidate_trade_risk : ℕ

-- The trade ticket is read only for its presence.
pub record TradePlan : Type 0 where
  pub id : ℕ
  pub owner_id : ℕ
  pub account_id : ℕ
  pub state : TradePlanState
  pub construction : TradeConstruction
  pub exponents : Exponents
  pub strategy_version_id : ℕ
  pub market_fingerprint_id : ℕ
  pub risk : RiskResult
  pub ticket : Option ℕ
  pub evidence_refs : List ℕ
  pub reservation_id : Option ℕ
  pub authorization : Option ExecutionAuthorization
  pub execution_command_id : Option ℕ
  pub expires_at : ℕ
  pub version : ℕ
