-- ===== src/Trading/Authorization/Revocation.antt =====
-- How a kill switch withdraws what was authorized before it changed.
use matrades.Common.{ℕ, ◌+◌, ◌<◌, ◌≡◌, ◌≢◌, arith}
use matrades.Common.Result.{ok}
use matrades.Trading.Models.{KillSwitchState, ExecutionAuthorization, ExecutionCommand, TradePlan}
use matrades.Trading.Safety.{Changes, count, Changes-epoch}
use matrades.Trading.Authority.{Authority, assert_command_authority}
use matrades.Trading.Authorization.Guards.{assert_command_authority-Passes}

-- An authorization given under one state of the kill switches does not pass the guard once either of
-- them has been changed at least once since, whatever the changes were: even where the switch is off
-- again.
pub assert_command_authority-revoked :
    (now : ℕ) (command : ExecutionCommand) (a : ExecutionAuthorization) (plan : TradePlan)
    (authority : Authority) (platform account : KillSwitchState)
    (c : Changes platform authority.platform_kill) (d : Changes account authority.account_kill)
    → a.platform_safety_epoch ≡ platform.safety_epoch
    → a.account_safety_epoch ≡ account.safety_epoch
    → 0 < count c + count d
    → assert_command_authority now command a plan authority ≢ ok tt
assert_command_authority-revoked now command a plan authority platform account c d p q some_change
      e =
    let current = assert_command_authority-Passes now command a plan authority e in
    omega (arith, current.epochs.0, current.epochs.1, Changes-epoch c, Changes-epoch d)
