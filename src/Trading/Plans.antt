-- ===== src/Trading/Plans.antt =====
-- Trade Plans (modules/trading/trade_plans.py): how one is built from a risk result and a reservation,
-- and the transitions of its state.
pub mod Lifecycle
pub mod Reserved
use matrades.Common.{
  ℕ, ◌+◌, ◌≡◌, ◌≢◌, ◌⊎◌, refl, sym, ap, ◌∙◌, inl, inr, Bool, true, false, not, ◌||◌, Option, none,
  some, List, arith, nat_beq, if◌then◌else◌, Bool-cases,
}
use matrades.Common.Int.{ℤ, pos, ◌≤ℤ◌, ◌<ℤ◌}
use matrades.Common.Dict.{Dict, lookup}
use matrades.Common.Result.{Result, ok, err, ok-injective}
use matrades.Domain.{TradePlanState}
use matrades.Risk.Models.{RiskDecision, RiskResult}
use matrades.Risk.Reservations.Book.{Item, BookError, book_reserve}
use matrades.Trading.Models.{TradeConstruction, Exponents, TradePlan}

abbrev pub is_hard_block : RiskResult → Bool
is_hard_block r = elim r.decision [ RiskDecision.hard_block ↦ true | _ ↦ false ]

-- The arguments of `build_trade_plan` that it copies, and the fresh identifier of the plan.
-- `risk_exponent` is that of the approved size of the risk result.
pub record PlanRequest : Type 0 where
  pub plan_id : ℕ
  pub owner_id : ℕ
  pub account_id : ℕ
  pub construction : TradeConstruction
  pub exponents : Exponents
  pub risk_exponent : ℕ
  pub strategy_version_id : ℕ
  pub market_fingerprint_id : ℕ
  pub ticket : Option ℕ
  pub evidence_refs : List ℕ
  pub expires_at : ℕ

-- The plan before a reservation is bound to it. Where the sizes are equal the copy changes nothing.
unfoldable pub construct_plan : PlanRequest → RiskResult → TradePlan
construct_plan q risk = record {
  id = q.plan_id;
  owner_id = q.owner_id;
  account_id = q.account_id;
  state = if is_hard_block risk then TradePlanState.blocked else TradePlanState.ready;
  construction = record (q.construction) { approved_size = risk.approved_size };
  exponents = record (q.exponents) {
    approved_size =
        if nat_beq q.construction.approved_size risk.approved_size
        then q.exponents.approved_size
        else q.risk_exponent;
  };
  strategy_version_id = q.strategy_version_id;
  market_fingerprint_id = q.market_fingerprint_id;
  risk = risk;
  ticket = q.ticket;
  evidence_refs = q.evidence_refs;
  reservation_id = none;
  authorization = none;
  execution_command_id = none;
  expires_at = q.expires_at;
  version = 1;
}

-- `timedelta(minutes=10)`, the default of `ReservationBook.reserve`, in microseconds.
abbrev pub ten_minutes : ℕ
ten_minutes = 600000000

abbrev pub bind :
    TradePlan
    → Result BookError Item × Dict ℕ Item
    → Result BookError TradePlan × Option (Dict ℕ Item)
bind plan (err e, items) = (err e, some items)
bind plan (ok item, items) = (ok (record plan { reservation_id = some item.id }), some items)

-- `item_id`, `now` and `later` are for the reservation that the book makes.
unfoldable pub build_trade_plan :
    ℕ
    → ℕ
    → ℕ
    → PlanRequest
    → RiskResult
    → Option (Dict ℕ Item)
    → Result BookError TradePlan × Option (Dict ℕ Item)
build_trade_plan item_id now later q risk none = (ok (construct_plan q risk), none)
build_trade_plan item_id now later q risk (some items) =
    if is_hard_block risk
    then (ok (construct_plan q risk), some items)
    else bind (construct_plan q risk) (
        book_reserve item_id now later q.account_id q.plan_id
          (pos risk.snapshot.candidate_trade_risk)
          (pos risk.snapshot.remaining_portfolio_risk_capacity) ten_minutes items)

-- `target in _PLAN_TRANSITIONS.get(state, set())`
abbrev pub may_become : TradePlanState → TradePlanState → Bool
may_become TradePlanState.constructed TradePlanState.validating = true
may_become TradePlanState.constructed TradePlanState.blocked = true
may_become TradePlanState.validating TradePlanState.ready = true
may_become TradePlanState.validating TradePlanState.blocked = true
may_become TradePlanState.ready TradePlanState.authorized = true
may_become TradePlanState.ready TradePlanState.expired = true
may_become TradePlanState.ready TradePlanState.blocked = true
may_become TradePlanState.authorized TradePlanState.execution_pending = true
may_become TradePlanState.authorized TradePlanState.revalidation_required = true
may_become TradePlanState.execution_pending TradePlanState.executing = true
may_become TradePlanState.execution_pending TradePlanState.revalidation_required = true
may_become TradePlanState.executing TradePlanState.active = true
may_become TradePlanState.executing TradePlanState.revalidation_required = true
may_become TradePlanState.active TradePlanState.expired = true
may_become TradePlanState.active TradePlanState.cancelled = true
may_become _ _ = false

abbrev pub plan_state_number : TradePlanState → ℕ
plan_state_number TradePlanState.constructed = 0
plan_state_number TradePlanState.validating = 1
plan_state_number TradePlanState.blocked = 2
plan_state_number TradePlanState.ready = 3
plan_state_number TradePlanState.authorized = 4
plan_state_number TradePlanState.execution_pending = 5
plan_state_number TradePlanState.executing = 6
plan_state_number TradePlanState.active = 7
plan_state_number TradePlanState.expired = 8
plan_state_number TradePlanState.cancelled = 9
plan_state_number TradePlanState.revalidation_required = 10

-- `target is plan.state`
abbrev pub same_state : TradePlanState → TradePlanState → Bool
same_state a b = nat_beq (plan_state_number a) (plan_state_number b)

pub data PlanError : Type 0 where
  illegal_transition : PlanError

unfoldable pub transition_trade_plan : TradePlan → TradePlanState → Result PlanError TradePlan
transition_trade_plan plan target =
    if same_state target plan.state
    then ok plan
    else if not (may_become plan.state target)
    then err PlanError.illegal_transition
    else ok (record plan { state = target; version = plan.version + 1 })
