-- ===== src/Trading/Authorization.antt =====
-- Authorization of a command: `authorize_action`, `create_command` and `create_action_command` before
-- the ledger (modules/trading/execution.py), and `authorize_entry` (modules/trading/authorization.py).
-- `now` is `utc_now()`.
pub mod Guards
pub mod Current
pub mod Entry
pub mod Revocation
use matrades.Common.{
  ℕ, ◌+◌, ◌*◌, ◌≡◌, Bool, true, false, not, ◌&&◌, ◌||◌, Option, none, some, List, [], ◌∷◌, map, leb,
  nat_beq, opt_beq, is_some, any, if◌then◌else◌, nat_eq,
}
use matrades.Common.Dict.{Dict, lookup}
use matrades.Common.Result.{Result, ok, err, raise_if, ◌>>=◌, ◌>>◌}
use matrades.Domain.{ExecutionAction, TradePlanState, CommandState, OutcomeCertainty}
use matrades.Risk.Models.{RiskResult}
use matrades.Risk.Reservations.Book.{Item, active_for}
use matrades.Trading.Models.{
  ExecutionPermissionProfile, allows, KillSwitchState, ExecutionAuthorization, Value, value_eq,
  Postcondition, ExecutionCommand, TradePlan,
}
use matrades.Trading.Models.Key
use matrades.Trading.Plans.{is_hard_block}

-- `ValueError` and `PermissionError` by their message.
pub data AuthorityError : Type 0 where
  plan_not_eligible plan_expired hard_blocked permission_disabled kill_switch_active :
      AuthorityError
  reservation_missing broker_state_stale broker_scope_differs : AuthorityError
  authorization_account authorization_expired : AuthorityError
  scopes_differ not_bound expired plan_not_authorized action_differs : AuthorityError
  command_differs epoch_changed : AuthorityError

abbrev pub action_number : ExecutionAction → ℕ
action_number ExecutionAction.place_order = 0
action_number ExecutionAction.cancel_order = 1
action_number ExecutionAction.set_or_change_stop_loss = 2
action_number ExecutionAction.set_or_change_take_profit = 3
action_number ExecutionAction.partial_close = 4
action_number ExecutionAction.full_exit = 5

-- `a is b`
abbrev pub same_action : ExecutionAction → ExecutionAction → Bool
same_action a b = nat_beq (action_number a) (action_number b)

abbrev pub is_entry : ExecutionAction → Bool
is_entry a = same_action a ExecutionAction.place_order

-- `plan.state in allowed_states` of `authorize_action`.
abbrev pub eligible : ExecutionAction → TradePlanState → Bool
eligible ExecutionAction.place_order TradePlanState.ready = true
eligible ExecutionAction.place_order TradePlanState.authorized = true
eligible ExecutionAction.place_order _ = false
eligible _ TradePlanState.active = true
eligible _ TradePlanState.authorized = true
eligible _ TradePlanState.execution_pending = true
eligible _ _ = false

-- What `_digest` is computed from; the digest itself, JSON and SHA-256, is a parameter.
pub record Digested : Type 0 where
  pub plan : ℕ
  pub account : ℕ
  pub permission : ℕ
  pub platform_epoch : ℕ
  pub account_epoch : ℕ
  pub action : ExecutionAction
  pub risk : RiskResult

-- `timedelta(seconds=...)` in microseconds.
abbrev pub seconds : ℕ → ℕ
seconds n = n * 1000000

-- What an authorization of an action holds; `id` is fresh, `issued` is its default instant.
unfoldable pub new_authorization :
    (Digested → ℕ)
    → ℕ
    → ℕ
    → ℕ
    → TradePlan
    → ExecutionAction
    → ExecutionPermissionProfile
    → KillSwitchState
    → KillSwitchState
    → ℕ
    → ExecutionAuthorization
new_authorization digest id now issued plan action permissions platform_kill account_kill ttl =
    record {
      id = id;
      account_id = plan.account_id;
      action = action;
      permission_version = permissions.version;
      platform_safety_epoch = platform_kill.safety_epoch;
      account_safety_epoch = account_kill.safety_epoch;
      authorization_digest = digest record {
        plan = plan.id;
        account = plan.account_id;
        permission = permissions.version;
        platform_epoch = platform_kill.safety_epoch;
        account_epoch = account_kill.safety_epoch;
        action = action;
        risk = plan.risk;
      };
      issued_at = issued;
      expires_at = now + seconds ttl;
    }

-- `plan.authorization = ...` and, for an entry, `plan.state = AUTHORIZED`.
unfoldable pub authorized_plan : ExecutionAction → ExecutionAuthorization → TradePlan → TradePlan
authorized_plan action a plan = record plan {
  authorization = some a;
  state = if is_entry action then TradePlanState.authorized else plan.state;
}

-- Returns the authorization and the plan as it leaves it; a call that raises leaves the plan as it was.
unfoldable pub authorize_action :
    (Digested → ℕ)
    → ℕ
    → ℕ
    → ℕ
    → TradePlan
    → ExecutionAction
    → ExecutionPermissionProfile
    → KillSwitchState
    → KillSwitchState
    → ℕ
    → Result AuthorityError (ExecutionAuthorization × TradePlan)
authorize_action digest id now issued plan action permissions platform_kill account_kill ttl = do
  raise_if (not (eligible action plan.state)) AuthorityError.plan_not_eligible
  raise_if (is_entry action && leb plan.expires_at now) AuthorityError.plan_expired
  raise_if (is_hard_block plan.risk) AuthorityError.hard_blocked
  raise_if (not (allows permissions action)) AuthorityError.permission_disabled
  raise_if (platform_kill.active || account_kill.active) AuthorityError.kill_switch_active
  let a =
      new_authorization digest id now issued plan action permissions platform_kill account_kill ttl
  ok (a, authorized_plan action a plan)

-- What the broker state holds for `authorize_entry`: `fresh` (absent is true) and `account_id`.
pub record BrokerState : Type 0 where
  pub fresh : Bool
  pub account_id : Option ℕ

abbrev pub other_broker_scope : BrokerState → ℕ → Bool
other_broker_scope b account = elim b.account_id [ none ↦ false | some a ↦ not (nat_beq a account) ]

-- The first check; `active_for` expires items of the book even where the check fails.
abbrev pub check_reservation :
    ℕ → TradePlan → Option (Dict ℕ Item) → Result AuthorityError (Unit {0}) × Option (Dict ℕ Item)
check_reservation now plan none = (ok tt, none)
check_reservation now plan (some items) = elim plan.reservation_id [
  | none ↦ (ok tt, some items)
  | some id ↦
      let (found, rest) = active_for now id plan.account_id items in
      (elim found [ none ↦ err AuthorityError.reservation_missing | some i ↦ ok tt ], some rest)
]

-- `checked` is the instant of `active_for`. The readers are given by what they return.
unfoldable pub authorize_entry :
    (Digested → ℕ)
    → ℕ
    → ℕ
    → ℕ
    → ℕ
    → TradePlan
    → ExecutionPermissionProfile
    → KillSwitchState × KillSwitchState
    → BrokerState
    → Option (Dict ℕ Item)
    → ℕ
    → Result AuthorityError (ExecutionAuthorization × TradePlan) × Option (Dict ℕ Item)
authorize_entry digest id checked now issued plan permissions (platform_kill, account_kill)
      broker_state reservations ttl =
    let (check, rest) = check_reservation checked plan reservations in
    (
      check >>= λ _.
          raise_if (not broker_state.fresh) AuthorityError.broker_state_stale
          >> (raise_if (other_broker_scope broker_state plan.account_id)
                AuthorityError.broker_scope_differs
              >> authorize_action digest id now issued plan ExecutionAction.place_order permissions
                  platform_kill account_kill ttl),
      rest,
    )

-- `command_id` is fresh. Both checks of `create_command` and of `create_action_command`.
abbrev pub check_command : ℕ → TradePlan → ExecutionAuthorization → Result AuthorityError (Unit {0})
check_command now plan a = do
  raise_if (not (nat_beq a.account_id plan.account_id)) AuthorityError.authorization_account
  raise_if (leb a.expires_at now) AuthorityError.authorization_expired

-- `str(candidate_trade_risk) if plan.ticket else None`
abbrev pub max_loss : TradePlan → Value
max_loss plan = elim plan.ticket [
  | none ↦ Value.no_value
  | some t ↦
      Value.decimal plan.risk.snapshot.candidate_trade_risk plan.exponents.candidate_trade_risk
]

-- `requested_postcondition` of an entry.
unfoldable pub entry_postcondition : TradePlan → Postcondition
entry_postcondition plan =
    (Key.instrument, Value.text plan.construction.instrument)
    ∷ (Key.direction, Value.direction plan.construction.direction)
    ∷ (Key.quantity, Value.decimal plan.construction.approved_size plan.exponents.approved_size)
    ∷ (Key.quantity_unit, Value.unit plan.construction.quantity_unit)
    ∷ (Key.entry, Value.decimal plan.construction.entry plan.exponents.entry)
    ∷ (Key.stop_loss, Value.decimal plan.construction.stop_loss plan.exponents.stop_loss)
    ∷ (
      Key.targets,
      Value.decimals (plan.construction.first_target ∷ plan.construction.later_targets)
          (plan.exponents.first_target ∷ plan.exponents.later_targets),
    )
    ∷ (Key.take_profit, Value.decimal plan.construction.first_target plan.exponents.first_target)
    ∷ (Key.max_loss_account_currency, max_loss plan)
    ∷ (Key.venue_instrument_id, Value.text plan.construction.venue_instrument_id)
    ∷ (Key.specification_version_id, Value.text plan.construction.specification_version_id)
    ∷ []

-- The optional arguments of `create_action_command`.
pub record Targets : Type 0 where
  pub management_action_id : Option ℕ
  pub target_order_id : Option ℕ
  pub target_position_id : Option ℕ
  pub expected_broker_version : Option ℕ

abbrev pub no_targets : Targets
no_targets = record {
  management_action_id = none;
  target_order_id = none;
  target_position_id = none;
  expected_broker_version = none;
}

unfoldable pub new_command :
    ℕ → TradePlan → ExecutionAuthorization → ℕ → Postcondition → Targets → ExecutionCommand
new_command command_id plan a idempotency_key postcondition targets = record {
  id = command_id;
  account_id = plan.account_id;
  action = a.action;
  trade_plan_id = some plan.id;
  management_action_id = targets.management_action_id;
  authorization_id = some a.id;
  idempotency_key = idempotency_key;
  requested_postcondition = postcondition;
  expected_broker_version = targets.expected_broker_version;
  target_order_id = targets.target_order_id;
  target_position_id = targets.target_position_id;
  state = CommandState.created;
  outcome_certainty = OutcomeCertainty.no_outcome;
  attempts = [];
  broker_order_id = none;
  version = 1;
}
