-- ===== src/Tests/Commands.antt =====
-- Runs of a command (modules/trading/execution.py): the ledger, the dispatch and the reconciliation.
use matrades.Common.{
  ℕ, ◌+◌, ◌≡◌, ◌↔◌, refl, true, none, some, List, [], ◌∷◌, length, nat_eq, if◌then◌else◌,
}
use matrades.Common.Int.{pos, ◌-ℤ◌}
use matrades.Common.Dict.{lookup}
use matrades.Common.Result.{ok, err}
use matrades.Domain.{ExecutionAction, CommandState, OutcomeCertainty}
use matrades.Risk.Models.{Direction}
use matrades.Trading.Models.{
  ExecutionAttempt, ExecutionCommand, Value, Postcondition, postcondition_beq,
}
use matrades.Trading.Models.Key
use matrades.Trading.Ledger.{Ledger, empty_ledger, LedgerError, added, put}
use matrades.Trading.Ledger.Idempotency.{Puts, Later, put-again}
use matrades.Trading.Dispatch.{
  move_command, prepare, Method, BrokerCommandPort, adapter_call, after_call, call_adapter,
  dispatch,
}
use matrades.Trading.Dispatch.Moves.{Moves, dispatch-Moves}
use matrades.Trading.Dispatch.Once.{IsNotCalled, dispatch-once}
use matrades.Trading.Reconciliation.{
  BrokerPosition, ReconciliationRecord, RecordState, record_of, position_matches,
  matching_positions, from_positions, from_orders, reconcile_command, retry_allowed,
}
use matrades.Trading.Reconciliation.Unique.{IsWithoutEffect, retry_allowed_iff}
use matrades.Trading.Reconciliation.Proposals.{
  Identity, Proposal, OpenPosition, MatchState, Reconciliation, is_match, reconcile, resolve,
}
use matrades.Tests.Trading.{authorization}

abbrev close_postcondition : Postcondition
close_postcondition = (Key.instrument, Value.text 3) ∷ (Key.quantity, Value.decimal 60 0) ∷ []

abbrev pub close : CommandState → ℕ → List ExecutionAttempt → ExecutionCommand
close state version attempts = record {
  id = 61;
  account_id = 2;
  action = ExecutionAction.full_exit;
  trade_plan_id = some 5;
  management_action_id = none;
  authorization_id = some 51;
  idempotency_key = 71;
  requested_postcondition = close_postcondition;
  expected_broker_version = none;
  target_order_id = none;
  target_position_id = some 81;
  state = state;
  outcome_certainty = OutcomeCertainty.no_outcome;
  attempts = attempts;
  broker_order_id = none;
  version = version;
}

abbrev pub created : ExecutionCommand
created = close CommandState.created 1 []

abbrev one_command : Ledger
one_command = record {
  commands = (61, created) ∷ [];
  by_idempotency = (71, 61) ∷ [];
  outbox = record { command_id = 61; account_id = 2; idempotency_key = 71 } ∷ [];
}

put-run : put created empty_ledger ≡ (ok created, one_command)
unfolding put added
put-run = refl

abbrev other_intent : ExecutionCommand
other_intent = record created {
  id = 62;
  requested_postcondition = (Key.instrument, Value.text 4) ∷ [];
}

-- Another command, under another key.
abbrev elsewhere : ExecutionCommand
elsewhere = record created { id = 62; idempotency_key = 72 }

put-again_example : put other_intent (put elsewhere one_command).1 ≡ (
  if postcondition_beq close_postcondition ((Key.instrument, Value.text 4) ∷ [])
      then ok created
      else err LedgerError.conflict,
  (put elsewhere one_command).1,
)
put-again_example =
    put-again created other_intent empty_ledger one_command (put elsewhere one_command).1 created
      put-run (Later.later elsewhere (λ unbound. refl) Later.at_once) refl

abbrev putting : Puts (put created empty_ledger).1
putting = Puts.puts created refl Puts.no_puts

put-key : lookup 71 (put created empty_ledger).1.by_idempotency ≡ some 61
unfolding put added
put-key = refl

abbrev request_digest : Postcondition → ℕ
request_digest d = length d

abbrev rejecting : Method
rejecting c a =
    ok (record { confirmed = true; broker_order_id = none; rejected = true; digest = 9 })

abbrev failing : Method
failing c a = err 13

abbrev adapter : BrokerCommandPort
adapter = record {
  submit_order = failing;
  cancel_order = failing;
  change_protection = failing;
  partial_close = failing;
  full_exit = rejecting;
}

abbrev attempt : ExecutionAttempt
attempt = record {
  attempt = 1;
  state = CommandState.acknowledged;
  request_digest = 2;
  response_digest = some 9;
  error_code = none;
}

abbrev rejected : ExecutionCommand
rejected = record (close CommandState.rejected 6 (attempt ∷ [])) {
  outcome_certainty = OutcomeCertainty.confirmed;
}

dispatch-run : dispatch request_digest created authorization adapter ≡ ok rejected
unfolding dispatch prepare move_command call_adapter adapter_call after_call
dispatch-run = refl

dispatch-Moves_example :
    (n : ℕ) × Moves CommandState.created CommandState.rejected n
    × (rejected.version ≡ created.version + n)
dispatch-Moves_example =
    dispatch-Moves request_digest created authorization adapter rejected dispatch-run

dispatch-once_example : IsNotCalled request_digest rejected authorization adapter
dispatch-once_example =
    dispatch-once request_digest created authorization authorization adapter adapter rejected
      dispatch-run

abbrev other_position : BrokerPosition
other_position = record {
  broker_position_id = 91;
  instrument = 4;
  direction = none;
  quantity = pos 60;
  version = 1;
  venue_instrument_id = none;
  specification_version_id = none;
}

abbrev no_effect : ReconciliationRecord
no_effect = record_of created RecordState.no_effect_confirmed OutcomeCertainty.confirmed []

reconcile_command-run :
    reconcile_command created
      (record { command_id = 7; broker_order_id = 8 } ∷ [])
      (other_position ∷ [])
      true
    ≡ ok no_effect
unfolding reconcile_command from_orders matching_positions position_matches from_positions
reconcile_command-run = refl

retry_allowed_iff_example : (retry_allowed no_effect ≡ true) ↔ (
    IsWithoutEffect created
      (record { command_id = 7; broker_order_id = 8 } ∷ [])
      (other_position ∷ [])
    × (true ≡ true))
retry_allowed_iff_example =
    retry_allowed_iff created (record { command_id = 7; broker_order_id = 8 } ∷ [])
      (other_position ∷ []) true no_effect reconcile_command-run

abbrev untyped : Identity
untyped = record {
  instrument_type = none;
  venue_instrument_id = none;
  futures_contract_id = none;
  specification_version_id = none;
}

abbrev proposal : Proposal
proposal = record {
  id = 5;
  instrument = 3;
  direction = Direction.buy;
  entry = pos 1000;
  approved_size = pos 60;
  identity = untyped;
}

abbrev opened : ℕ → ℕ → OpenPosition
opened id price = record {
  position_id = id;
  symbol = 3;
  direction = Direction.buy;
  entry_price = pos price;
  volume = pos 60;
  identity = untyped;
}

abbrev positions : List OpenPosition
positions = opened 1 1002 ∷ opened 2 1050 ∷ opened 3 999 ∷ []

abbrev resolved : Reconciliation
resolved = record {
  proposal_id = 5;
  state = MatchState.matched;
  candidate_position_ids = 1 ∷ 3 ∷ [];
  selected_position_id = some 3;
  identity = untyped;
}

resolve-run : resolve (reconcile 3 10 proposal positions) 3 ≡ ok resolved
unfolding resolve reconcile is_match ◌-ℤ◌
resolve-run = refl
