-- ===== src/Trading/Authority.antt =====
-- The guard that precedes every broker adapter (modules/trading/authority.py). `now` is `utc_now()`.
use matrades.Common.{
  ℕ, Bool, true, false, not, ◌&&◌, ◌||◌, none, some, [], ◌∷◌, leb, nat_beq, opt_beq, is_some, any,
  nat_eq,
}
use matrades.Common.Dict.{lookup}
use matrades.Common.Result.{Result, raise_if, ◌>>◌}
use matrades.Domain.{ExecutionAction, TradePlanState}
use matrades.Trading.Models.{
  ExecutionPermissionProfile, allows, KillSwitchState, ExecutionAuthorization, Value, value_eq,
  Postcondition, ExecutionCommand, TradePlan,
}
use matrades.Trading.Models.Key
use matrades.Trading.Plans.{is_hard_block}
use matrades.Trading.Authorization.{AuthorityError, same_action, is_entry}

-- `plan.state in allowed_plan_states` of the guard.
abbrev pub executable : ExecutionAction → TradePlanState → Bool
executable ExecutionAction.place_order TradePlanState.authorized = true
executable ExecutionAction.place_order TradePlanState.execution_pending = true
executable ExecutionAction.place_order _ = false
executable _ TradePlanState.active = true
executable _ TradePlanState.authorized = true
executable _ TradePlanState.execution_pending = true
executable _ _ = false

-- `expected`: all but the targets, with the maximal loss given.
unfoldable pub expected : TradePlan → Postcondition
expected plan =
    (Key.instrument, Value.text plan.construction.instrument)
    ∷ (Key.direction, Value.direction plan.construction.direction)
    ∷ (Key.quantity, Value.decimal plan.construction.approved_size plan.exponents.approved_size)
    ∷ (Key.quantity_unit, Value.unit plan.construction.quantity_unit)
    ∷ (Key.entry, Value.decimal plan.construction.entry plan.exponents.entry)
    ∷ (Key.stop_loss, Value.decimal plan.construction.stop_loss plan.exponents.stop_loss)
    ∷ (Key.take_profit, Value.decimal plan.construction.first_target plan.exponents.first_target)
    ∷ (
      Key.max_loss_account_currency,
      Value.decimal plan.risk.snapshot.candidate_trade_risk plan.exponents.candidate_trade_risk,
    )
    ∷ (Key.venue_instrument_id, Value.text plan.construction.venue_instrument_id)
    ∷ (Key.specification_version_id, Value.text plan.construction.specification_version_id)
    ∷ []

-- `d.get(key)`, where a missing key gives `None`.
abbrev pub get : ℕ → Postcondition → Value
get key d = elim (lookup key d) [ none ↦ Value.no_value | some v ↦ v ]

-- `any(requested.get(key) != value for key, value in expected.items())`
unfoldable pub differs : Postcondition → Postcondition → Bool
differs requested = any (λ p. not (value_eq.beq (get p.0 requested) p.1))

-- The mutable safety inputs that the guard reads.
pub record Authority : Type 0 where
  pub permissions : ExecutionPermissionProfile
  pub platform_kill : KillSwitchState
  pub account_kill : KillSwitchState

unfoldable pub assert_command_authority :
    ℕ
    → ExecutionCommand
    → ExecutionAuthorization
    → TradePlan
    → Authority
    → Result AuthorityError (Unit {0})
assert_command_authority now command a plan authority = do
  raise_if
      (not (nat_beq command.account_id a.account_id)
        || not (nat_beq command.account_id plan.account_id))
      AuthorityError.scopes_differ
  raise_if (not (opt_beq command.authorization_id (some a.id))) AuthorityError.not_bound
  raise_if (leb a.expires_at now || (is_entry command.action && leb plan.expires_at now))
      AuthorityError.expired
  raise_if (not (executable command.action plan.state)) AuthorityError.plan_not_authorized
  raise_if (not (same_action a.action command.action)) AuthorityError.action_differs
  raise_if (is_hard_block plan.risk) AuthorityError.hard_blocked
  raise_if
      (is_entry command.action
        && (is_some plan.ticket && differs command.requested_postcondition (expected plan)))
      AuthorityError.command_differs
  raise_if (not (allows authority.permissions command.action)) AuthorityError.permission_disabled
  raise_if (authority.platform_kill.active || authority.account_kill.active)
      AuthorityError.kill_switch_active
  raise_if
      (not (nat_beq a.platform_safety_epoch authority.platform_kill.safety_epoch)
        || not (nat_beq a.account_safety_epoch authority.account_kill.safety_epoch))
      AuthorityError.epoch_changed
