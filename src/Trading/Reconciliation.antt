-- ===== src/Trading/Reconciliation.antt =====
-- Reconciliation of a command with the orders and positions that a broker reports, and of a proposal
-- with the positions (modules/trading/reconciliation.py, reconciliation_decisions.py).
pub mod Unique
pub mod Proposals
use matrades.Common.{
  ℕ, ◌≡◌, Bool, true, false, not, ◌&&◌, ◌||◌, Option, none, some, List, [], ◌∷◌, map, filter,
  nat_beq, opt_beq, is_some, if◌then◌else◌, nat_eq,
}
use matrades.Common.Int.{ℤ, abs_ℤ}
use matrades.Common.Result.{Result, ok, err, ◌>>=◌}
use matrades.Domain.{OutcomeCertainty}
use matrades.Risk.Models.{Direction}
use matrades.Trading.Models.{
  Value, value_eq, value_beq, direction_beq, Postcondition, ExecutionCommand,
}
use matrades.Trading.Models.Key
use matrades.Trading.Authority.{get}

-- What is read of a `BrokerOrder` and of a `BrokerPosition` of modules/trading/models.py.
pub record BrokerOrder : Type 0 where
  pub command_id : ℕ
  pub broker_order_id : ℕ

pub record BrokerPosition : Type 0 where
  pub broker_position_id : ℕ
  pub instrument : ℕ
  pub direction : Option Direction
  pub quantity : ℤ
  pub version : ℕ
  pub venue_instrument_id : Option ℕ
  pub specification_version_id : Option ℕ

pub data RecordState : Type 0 where
  matched ambiguous no_effect_confirmed outcome_unknown : RecordState

-- The texts of `evidence_refs`.
pub data Evidence : Type 0 where
  order : ℕ → Evidence
  position : ℕ → ℕ → Evidence

pub record ReconciliationRecord : Type 0 where
  pub account_id : ℕ
  pub command_id : Option ℕ
  pub state : RecordState
  pub certainty : OutcomeCertainty
  pub broker_order_id : Option ℕ
  pub broker_position_id : Option ℕ
  pub evidence_refs : List Evidence

-- `Decimal(str(...))` of a value that is no number.
pub data ReconcileError : Type 0 where
  invalid_quantity : ReconcileError

abbrev pub order_matches : ExecutionCommand → BrokerOrder → Bool
order_matches c o =
    nat_beq o.command_id c.id
    || (is_some c.broker_order_id && opt_beq (some o.broker_order_id) c.broker_order_id)

abbrev pub wants_direction : Value → Option Direction → Bool
wants_direction Value.no_value d = true
wants_direction v none = true
wants_direction v (some d) = value_beq (Value.direction d) v

abbrev pub wants_quantity : Value → ℤ → Result ReconcileError Bool
wants_quantity Value.no_value q = ok true
wants_quantity (Value.decimal n e) q = ok (nat_beq (abs_ℤ q) n)
wants_quantity _ q = err ReconcileError.invalid_quantity

abbrev pub wants_id : Value → Option ℕ → Bool
wants_id Value.no_value i = true
wants_id v none = false
wants_id v (some i) = value_beq (Value.text i) v

-- The condition on a position, up to the quantity and from it on.
unfoldable pub position_matches : Postcondition → BrokerPosition → Result ReconcileError Bool
position_matches requested p =
    if not (
      value_beq (Value.text p.instrument) (get Key.instrument requested)
      && wants_direction (get Key.direction requested) p.direction)
    then ok false
    else (wants_quantity (get Key.quantity requested) p.quantity >>= λ q. ok (
        q
        && (wants_id (get Key.venue_instrument_id requested) p.venue_instrument_id
            && wants_id (get Key.specification_version_id requested) p.specification_version_id)))

abbrev pub keep : BrokerPosition → Bool → List BrokerPosition → List BrokerPosition
keep p matches rest = if matches then p ∷ rest else rest

unfoldable pub matching_positions :
    Postcondition → List BrokerPosition → Result ReconcileError (List BrokerPosition)
matching_positions requested [] = ok []
matching_positions requested (p ∷ ps) = position_matches requested p >>= λ matches.
    matching_positions requested ps >>= λ rest. ok (keep p matches rest)

abbrev pub record_of :
    ExecutionCommand → RecordState → OutcomeCertainty → List Evidence → ReconciliationRecord
record_of c state certainty evidence = record {
  account_id = c.account_id;
  command_id = some c.id;
  state = state;
  certainty = certainty;
  broker_order_id = none;
  broker_position_id = none;
  evidence_refs = evidence;
}

-- What is concluded from the positions that match, where no order does.
unfoldable pub from_positions : ExecutionCommand → Bool → List BrokerPosition → ReconciliationRecord
from_positions c authoritative [] =
    if authoritative
    then record_of c RecordState.no_effect_confirmed OutcomeCertainty.confirmed []
    else record_of c RecordState.outcome_unknown OutcomeCertainty.uncertain []
from_positions c authoritative (p ∷ []) =
    record (record_of c RecordState.matched OutcomeCertainty.confirmed
      (Evidence.position p.broker_position_id p.version ∷ [])) {
        broker_position_id = some p.broker_position_id;
      }
from_positions c authoritative (p ∷ q ∷ rest) =
    record_of c RecordState.ambiguous OutcomeCertainty.uncertain
      (map (λ i. Evidence.position i.broker_position_id i.version) (p ∷ q ∷ rest))

unfoldable pub from_orders :
    ExecutionCommand
    → List BrokerPosition
    → Bool
    → List BrokerOrder
    → Result ReconcileError ReconciliationRecord
from_orders c positions authoritative (o ∷ []) =
    ok
      (record (record_of c RecordState.matched OutcomeCertainty.confirmed
        (Evidence.order o.broker_order_id ∷ [])) { broker_order_id = some o.broker_order_id })
from_orders c positions authoritative (o ∷ o' ∷ rest) = ok (
    record_of c RecordState.ambiguous OutcomeCertainty.uncertain
      (map (λ i. Evidence.order i.broker_order_id) (o ∷ o' ∷ rest)))
from_orders c positions authoritative [] =
    matching_positions c.requested_postcondition positions >>= λ found.
    ok (from_positions c authoritative found)

unfoldable pub reconcile_command :
    ExecutionCommand
    → List BrokerOrder
    → List BrokerPosition
    → Bool
    → Result ReconcileError ReconciliationRecord
reconcile_command c orders positions authoritative =
    from_orders c positions authoritative (filter (order_matches c) orders)

unfoldable pub retry_allowed : ReconciliationRecord → Bool
retry_allowed r = elim r.state [
  | RecordState.no_effect_confirmed ↦ elim r.certainty [
    | OutcomeCertainty.confirmed ↦ true
    | _ ↦ false
  ]
  | _ ↦ false
]
