-- ===== src/Trading/Dispatch.antt =====
-- The lifecycle of a command and its dispatch to a broker adapter (modules/trading/execution.py). An
-- adapter, code outside the module, is given by what each of its methods does with a command: it
-- returns a response or raises. `_digest` is a parameter. The source mutates the list of attempts in
-- place; here the returned command holds it as the call leaves it.
pub mod Moves
pub mod Once
use matrades.Common.{
  ℕ, ◌+◌, ◌≡◌, Bool, true, false, not, ◌&&◌, ◌||◌, Option, none, some, List, [], ◌∷◌, ◌++◌, length,
  nat_beq, if◌then◌else◌,
}
use matrades.Common.Result.{Result, ok, err, ◌>>=◌}
use matrades.Domain.{ExecutionAction, CommandState, OutcomeCertainty}
use matrades.Trading.Models.{
  ExecutionAuthorization, ExecutionAttempt, Postcondition, ExecutionCommand,
}

-- `target in _TRANSITIONS.get(state, set())`
abbrev pub may_move : CommandState → CommandState → Bool
may_move CommandState.created CommandState.validating = true
may_move CommandState.created CommandState.authorized = true
may_move CommandState.created CommandState.blocked = true
may_move CommandState.validating CommandState.authorized = true
may_move CommandState.validating CommandState.blocked = true
may_move CommandState.authorized CommandState.queued = true
may_move CommandState.authorized CommandState.expired = true
may_move CommandState.authorized CommandState.blocked = true
may_move CommandState.queued CommandState.dispatching = true
may_move CommandState.queued CommandState.expired = true
may_move CommandState.dispatching CommandState.acknowledged = true
may_move CommandState.dispatching CommandState.rejected = true
may_move CommandState.dispatching CommandState.outcome_unknown = true
may_move CommandState.dispatching CommandState.reconciling = true
may_move CommandState.reconciling CommandState.acknowledged = true
may_move CommandState.reconciling CommandState.applied = true
may_move CommandState.reconciling CommandState.no_effect_confirmed = true
may_move CommandState.reconciling CommandState.blocked_ambiguous = true
may_move CommandState.acknowledged CommandState.partially_applied = true
may_move CommandState.acknowledged CommandState.applied = true
may_move CommandState.acknowledged CommandState.reconciling = true
may_move CommandState.acknowledged CommandState.rejected = true
may_move CommandState.partially_applied CommandState.applied = true
may_move CommandState.partially_applied CommandState.reconciling = true
may_move CommandState.outcome_unknown CommandState.reconciling = true
may_move _ _ = false

abbrev pub command_state_number : CommandState → ℕ
command_state_number CommandState.created = 0
command_state_number CommandState.validating = 1
command_state_number CommandState.blocked = 2
command_state_number CommandState.authorized = 3
command_state_number CommandState.queued = 4
command_state_number CommandState.dispatching = 5
command_state_number CommandState.acknowledged = 6
command_state_number CommandState.partially_applied = 7
command_state_number CommandState.applied = 8
command_state_number CommandState.rejected = 9
command_state_number CommandState.superseded = 10
command_state_number CommandState.outcome_unknown = 11
command_state_number CommandState.reconciling = 12
command_state_number CommandState.no_effect_confirmed = 13
command_state_number CommandState.blocked_ambiguous = 14
command_state_number CommandState.expired = 15

-- `a is b`
abbrev pub is_state : CommandState → CommandState → Bool
is_state a b = nat_beq (command_state_number a) (command_state_number b)

pub data DispatchError : Type 0 where
  cannot_transition must_reconcile cannot_dispatch : DispatchError

abbrev pub in_state : CommandState → ExecutionCommand → ExecutionCommand
in_state target c = record c { state = target; version = c.version + 1 }

unfoldable pub move_command :
    ExecutionCommand → CommandState → Result DispatchError ExecutionCommand
move_command c target =
    if is_state target c.state
    then ok c
    else if not (may_move c.state target)
    then err DispatchError.cannot_transition
    else ok (in_state target c)

-- `if command.state is source: command = transition(command, target)`
abbrev pub move_from :
    CommandState → CommandState → ExecutionCommand → Result DispatchError ExecutionCommand
move_from source target c = if is_state c.state source then move_command c target else ok c

-- The three steps that bring a command to the adapter.
unfoldable pub prepare : ExecutionCommand → Result DispatchError ExecutionCommand
prepare c = do
  c1 ← move_from CommandState.created CommandState.authorized c
  c2 ← move_from CommandState.authorized CommandState.queued c1
  if is_state c2.state CommandState.queued
      then move_command c2 CommandState.dispatching
      else if not (is_state c2.state CommandState.dispatching)
      then err DispatchError.cannot_dispatch
      else ok c2

-- What `dispatch` reads of a response, with its digest.
pub record Response : Type 0 where
  pub confirmed : Bool
  pub broker_order_id : Option ℕ
  pub rejected : Bool
  pub digest : ℕ

-- `BrokerCommandPort`: an exception is given by the name of its type.
abbrev pub Method : Type 0
Method = ExecutionCommand → ExecutionAuthorization → Result ℕ Response

pub record BrokerCommandPort : Type 0 where
  pub submit_order : Method
  pub cancel_order : Method
  pub change_protection : Method
  pub partial_close : Method
  pub full_exit : Method

-- `_adapter_call`
unfoldable pub adapter_call : ExecutionAction → BrokerCommandPort → Method
adapter_call ExecutionAction.place_order adapter = adapter.submit_order
adapter_call ExecutionAction.cancel_order adapter = adapter.cancel_order
adapter_call ExecutionAction.set_or_change_stop_loss adapter = adapter.change_protection
adapter_call ExecutionAction.set_or_change_take_profit adapter = adapter.change_protection
adapter_call ExecutionAction.partial_close adapter = adapter.partial_close
adapter_call ExecutionAction.full_exit adapter = adapter.full_exit

abbrev pub attempt_of : (Postcondition → ℕ) → ExecutionCommand → ExecutionAttempt
attempt_of digest c = record {
  attempt = length c.attempts + 1;
  state = CommandState.dispatching;
  request_digest = digest c.requested_postcondition;
  response_digest = none;
  error_code = none;
}

abbrev pub with_attempt : ExecutionCommand → ExecutionAttempt → ExecutionCommand
with_attempt c a = record c { attempts = c.attempts ++ a ∷ [] }

abbrev pub certainty_of : Response → OutcomeCertainty
certainty_of r = if r.confirmed then OutcomeCertainty.confirmed else OutcomeCertainty.uncertain

-- What follows the call of the adapter: the command before it, its attempt, and the outcome.
unfoldable pub after_call :
    ExecutionCommand → ExecutionAttempt → Result ℕ Response → ExecutionCommand
after_call c a (err name) =
    record (in_state CommandState.outcome_unknown (
      with_attempt c (record a { state = CommandState.outcome_unknown; error_code = some name }))) {
        outcome_certainty = OutcomeCertainty.uncertain;
      }
after_call c a (ok r) =
    let attempted =
      with_attempt c
        (record a { state = CommandState.acknowledged; response_digest = some r.digest }) in
    let acknowledged = record (in_state CommandState.acknowledged attempted) {
      outcome_certainty = certainty_of r;
      broker_order_id = r.broker_order_id;
    } in
    if r.rejected then in_state CommandState.rejected acknowledged else acknowledged

-- The call of the adapter sees the command with the attempt that it is.
unfoldable pub call_adapter :
    (Postcondition → ℕ)
    → ExecutionAuthorization
    → BrokerCommandPort
    → ExecutionCommand
    → ExecutionCommand
call_adapter digest authorization adapter c =
    let a = attempt_of digest c in
    after_call c a (adapter_call c.action adapter (with_attempt c a) authorization)

abbrev pub is_settled : CommandState → Bool
is_settled s =
    is_state s CommandState.applied
    || (is_state s CommandState.rejected || is_state s CommandState.blocked_ambiguous)

abbrev pub is_uncertain : CommandState → Bool
is_uncertain s = is_state s CommandState.outcome_unknown || is_state s CommandState.reconciling

unfoldable pub dispatch :
    (Postcondition → ℕ)
    → ExecutionCommand
    → ExecutionAuthorization
    → BrokerCommandPort
    → Result DispatchError ExecutionCommand
dispatch digest c authorization adapter =
    if is_settled c.state
    then ok c
    else if is_uncertain c.state
    then err DispatchError.must_reconcile
    else (prepare c >>= λ c'. ok (call_adapter digest authorization adapter c'))
