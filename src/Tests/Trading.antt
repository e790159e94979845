-- ===== src/Tests/Trading.antt =====
-- Runs of the trading domain (modules/trading): a plan is authorized, made a command, guarded,
-- dispatched and reconciled.
use matrades.Common.{
  ℕ, ◌+◌, ◌≤◌, ◌≡◌, ◌≢◌, ◌↔◌, refl, Bool, true, false, none, some, [], ◌∷◌, arith, nat_eq,
}
use matrades.Common.Int.{pos, ◌+ℤ◌}
use matrades.Common.Result.{ok}
use matrades.Domain.{ExecutionAction, TradePlanState, QuantityUnit, AssetClass, InstrumentType}
use matrades.Risk.Models.{Direction}
use matrades.Risk.Reservations.{ReservationState}
use matrades.Risk.Reservations.Book.{Item, expire_all, already, book_reserve}
use matrades.Trading.Models.{
  Exponents, ExecutionPermissionProfile, allows, Scope, KillSwitchState, TradeConstruction,
  ExecutionAuthorization, ExecutionCommand, TradePlan,
}
use matrades.Trading.Safety.{update_permissions, update_kill_switch, Changes}
use matrades.Trading.Plans.{PlanRequest, construct_plan, build_trade_plan, transition_trade_plan}
use matrades.Trading.Plans.Lifecycle.{Transitions, progress, Transitions-progress}
use matrades.Trading.Plans.Reserved.{IsReserved, build_trade_plan-IsReserved}
use matrades.Trading.Authorization.{
  Digested, new_authorization, authorized_plan, authorize_action, entry_postcondition, no_targets,
  new_command,
}
use matrades.Trading.Authority.{Authority, assert_command_authority}
use matrades.Trading.Authorization.Current.{IsCurrent, assert_command_authority_iff}
use matrades.Trading.Authorization.Entry.{assert_command_authority-entry}
use matrades.Trading.Authorization.Revocation.{assert_command_authority-revoked}
use matrades.Tests.Risk.{reduced}

abbrev pub permissions : ExecutionPermissionProfile
permissions = record {
  account_id = 2;
  version = 3;
  new_entry = true;
  order_cancellation = false;
  stop_loss_create_or_modify = true;
  take_profit_create_or_modify = false;
  partial_close = false;
  full_exit = true;
  reason = 0;
}

abbrev pub switch : Scope → Bool → ℕ → KillSwitchState
switch scope active epoch = record {
  scope = scope;
  active = active;
  safety_epoch = epoch;
  account_id = some 2;
  reason = 0;
}

abbrev pub authority : Authority
authority = record {
  permissions = permissions;
  platform_kill = switch Scope.platform false 4;
  account_kill = switch Scope.account false 6;
}

abbrev construction : TradeConstruction
construction = record {
  instrument = 3;
  direction = Direction.sell;
  entry = 20;
  stop_loss = 21;
  first_target = 18;
  later_targets = 15 ∷ [];
  invalidation = 0;
  approved_size = 100;
  quantity_unit = QuantityUnit.lots;
  asset_class = AssetClass.forex;
  instrument_type = InstrumentType.cfd;
  venue_instrument_id = 31;
  specification_version_id = 32;
  futures_contract_id = none;
}

abbrev exponents : Exponents
exponents = record {
  approved_size = 0;
  entry = 2;
  stop_loss = 2;
  first_target = 2;
  later_targets = 2 ∷ [];
  candidate_trade_risk = 3;
}

abbrev request : PlanRequest
request = record {
  plan_id = 5;
  owner_id = 1;
  account_id = 2;
  construction = construction;
  exponents = exponents;
  risk_exponent = 1;
  strategy_version_id = 41;
  market_fingerprint_id = 42;
  ticket = some 43;
  evidence_refs = [];
  expires_at = 9000000;
}

abbrev ready : TradePlan
ready = record {
  id = 5;
  owner_id = 1;
  account_id = 2;
  state = TradePlanState.ready;
  construction = record construction { approved_size = 60 };
  exponents = record exponents { approved_size = 1 };
  strategy_version_id = 41;
  market_fingerprint_id = 42;
  risk = reduced;
  ticket = some 43;
  evidence_refs = [];
  reservation_id = some 8;
  authorization = none;
  execution_command_id = none;
  expires_at = 9000000;
  version = 1;
}

abbrev reserved_item : Item
reserved_item = record {
  id = 8;
  account_id = 2;
  proposal_id = 5;
  amount = pos 60;
  expires_at = 600000011;
  state = ReservationState.active;
}

build_trade_plan-run :
    build_trade_plan 8 10 11 request reduced (some []) ≡ (ok ready, some ((8, reserved_item) ∷ []))
unfolding build_trade_plan construct_plan book_reserve expire_all already ◌+ℤ◌
build_trade_plan-run = refl

build_trade_plan-IsReserved_example : IsReserved request reduced ready ((8, reserved_item) ∷ [])
build_trade_plan-IsReserved_example =
    build_trade_plan-IsReserved 8 10 11 request reduced [] ((8, reserved_item) ∷ []) ready refl refl
      build_trade_plan-run

abbrev in_plan_state : TradePlanState → ℕ → TradePlan
in_plan_state state version = record ready { state = state; version = version }

transition_trade_plan-run :
    transition_trade_plan ready TradePlanState.authorized
    ≡ ok (in_plan_state TradePlanState.authorized 2)
unfolding transition_trade_plan
transition_trade_plan-run = refl

Transitions-progress_example :
    (progress ready.state + 2 ≤ 3 + ready.version)
    × (1 ≤ 2)
    × (in_plan_state TradePlanState.authorized 2
        ≡ record ready { state = TradePlanState.authorized; version = 2 })
Transitions-progress_example =
    Transitions-progress
      (Transitions.moved TradePlanState.authorized Transitions.started transition_trade_plan-run)

update_permissions-run :
    update_permissions (record permissions { version = 9 }) (some permissions) true
    ≡ ok (record permissions { version = 4 })
unfolding update_permissions
update_permissions-run = refl

activation-run :
    update_kill_switch
      (switch Scope.account true 0)
      (some (switch Scope.account false 6))
      true
      false
    ≡ ok (switch Scope.account true 7)
unfolding update_kill_switch
activation-run = refl

release-run :
    update_kill_switch (switch Scope.account false 0) (some (switch Scope.account true 7)) true true
    ≡ ok (switch Scope.account false 8)
unfolding update_kill_switch
release-run = refl

abbrev off_and_on : Changes (switch Scope.account false 6) (switch Scope.account false 8)
off_and_on =
    Changes.changed (switch Scope.account false 0) true true
      (Changes.changed (switch Scope.account true 0) true false Changes.unchanged activation-run)
      release-run

abbrev digest : Digested → ℕ
digest d = d.plan + d.permission

abbrev pub authorization : ExecutionAuthorization
authorization = record {
  id = 51;
  account_id = 2;
  action = ExecutionAction.place_order;
  permission_version = 3;
  platform_safety_epoch = 4;
  account_safety_epoch = 6;
  authorization_digest = 8;
  issued_at = 101;
  expires_at = 1000100;
}

abbrev authorized : TradePlan
authorized = record ready { authorization = some authorization; state = TradePlanState.authorized }

authorize_action-run :
    authorize_action digest 51 100 101 ready ExecutionAction.place_order authority.permissions
      authority.platform_kill authority.account_kill 1
    ≡ ok (authorization, authorized)
unfolding authorize_action new_authorization authorized_plan allows
authorize_action-run = refl

abbrev pub command : ExecutionCommand
command = new_command 61 authorized authorization 71 (entry_postcondition authorized) no_targets

assert_command_authority-entry_example :
    assert_command_authority 200 command authorization authorized authority ≡ ok tt
assert_command_authority-entry_example =
    assert_command_authority-entry digest 51 100 101 ready authority 1 authorization authorized 61
      71 200 authorize_action-run (omega arith) (omega arith)

assert_command_authority_iff_example :
    (assert_command_authority 200 command authorization authorized authority ≡ ok tt)
    ↔ IsCurrent 200 command authorization authorized authority
assert_command_authority_iff_example =
    assert_command_authority_iff 200 command authorization authorized authority

assert_command_authority-revoked_example :
    assert_command_authority 200 command authorization authorized
      (record authority { account_kill = switch Scope.account false 8 })
    ≢ ok tt
assert_command_authority-revoked_example =
    assert_command_authority-revoked 200 command authorization authorized
      (record authority { account_kill = switch Scope.account false 8 }) authority.platform_kill
      (switch Scope.account false 6) Changes.unchanged off_and_on refl refl (omega arith)
