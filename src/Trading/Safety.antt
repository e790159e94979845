-- ===== src/Trading/Safety.antt =====
-- Execution permissions and kill switches (modules/trading/permissions.py and kill_switches.py).
use matrades.Common.{
  ℕ, suc, ◌+◌, ◌≡◌, ◌⊎◌, Bool, true, false, not, ◌&&◌, Option, none, some, arith, nat_beq, is_none,
}
use matrades.Common.Result.{Result, ok, raise_if, ◌>>◌}
use matrades.Trading.Models.{ExecutionPermissionProfile, Scope, KillSwitchState}

pub data SafetyError : Type 0 where
  step_up_required account_scope_changed scope_changed account_required : SafetyError
  health_required : SafetyError

abbrev pub permission_version_after : Option ExecutionPermissionProfile → ℕ
permission_version_after none = 1
permission_version_after (some p) = p.version + 1

abbrev pub other_account : ExecutionPermissionProfile → Option ExecutionPermissionProfile → Bool
other_account requested none = false
other_account requested (some p) = not (nat_beq p.account_id requested.account_id)

unfoldable pub update_permissions :
    ExecutionPermissionProfile
    → Option ExecutionPermissionProfile
    → Bool
    → Result SafetyError ExecutionPermissionProfile
update_permissions requested previous step_up_verified = do
  raise_if (not step_up_verified) SafetyError.step_up_required
  raise_if (other_account requested previous) SafetyError.account_scope_changed
  ok (record requested { version = permission_version_after previous })

abbrev pub scope_beq : Scope → Scope → Bool
scope_beq Scope.platform Scope.platform = true
scope_beq Scope.account Scope.account = true
scope_beq _ _ = false

abbrev pub other_scope : KillSwitchState → Option KillSwitchState → Bool
other_scope requested none = false
other_scope requested (some p) = not (scope_beq p.scope requested.scope)

-- `previous is not None and previous.active`
abbrev pub was_active : Option KillSwitchState → Bool
was_active none = false
was_active (some p) = p.active

abbrev pub epoch_after : Option KillSwitchState → ℕ
epoch_after none = 1
epoch_after (some p) = p.safety_epoch + 1

unfoldable pub update_kill_switch :
    KillSwitchState → Option KillSwitchState → Bool → Bool → Result SafetyError KillSwitchState
update_kill_switch requested previous step_up_verified health_verified = do
  raise_if (not step_up_verified) SafetyError.step_up_required
  raise_if (other_scope requested previous) SafetyError.scope_changed
  raise_if (scope_beq requested.scope Scope.account && is_none requested.account_id)
      SafetyError.account_required
  raise_if (was_active previous && (not requested.active && not health_verified))
      SafetyError.health_required
  ok (record requested { safety_epoch = epoch_after previous })

-- Successful changes of one kill switch, each made on the state that the change before it left.
pub data Changes (k : KillSwitchState) : KillSwitchState → Type 0 where
  unchanged : Changes k k
  changed :
      {l m : KillSwitchState} (requested : KillSwitchState) (step_up health : Bool)
      → Changes k l
      → update_kill_switch requested (some l) step_up health ≡ ok m
      → Changes k m

abbrev pub count : {k l : KillSwitchState} → Changes k l → ℕ
count unchanged = 0
count (changed requested step_up health before e) = suc (count before)

update-epoch :
    (requested k l : KillSwitchState) (step_up health : Bool)
    → update_kill_switch requested (some k) step_up health ≡ ok l
    → l.safety_epoch ≡ k.safety_epoch + 1
unfolding update_kill_switch
update-epoch requested k l step_up health e = ground arith

-- The epoch of a kill switch counts the changes made to it: whatever was requested, after any
-- sequence of successful changes it is the first epoch plus their number.
pub Changes-epoch :
    {k l : KillSwitchState} (c : Changes k l) → l.safety_epoch ≡ k.safety_epoch + count c
Changes-epoch unchanged = omega arith
Changes-epoch (changed {l} {m} requested step_up health before e) =
    omega (arith, update-epoch requested l m step_up health e, Changes-epoch before)

-- A change that succeeds on a switch was verified by a step-up, keeps its scope, and needs the health
-- check where it turns an active switch off.
pub update_kill_switch-guards :
    (requested k l : KillSwitchState) (step_up health : Bool)
    → update_kill_switch requested (some k) step_up health ≡ ok l
    → (step_up ≡ true)
      × (l.scope ≡ k.scope)
      × (l.active ≡ requested.active)
      × ((k.active ≡ false) ⊎ ((l.active ≡ true) ⊎ (health ≡ true)))
unfolding update_kill_switch
update_kill_switch-guards requested k l step_up health e = ground arith

-- A change of permissions that succeeds was verified by a step-up, keeps the account and takes the
-- next version, whatever version was requested.
pub update_permissions-version :
    (requested p q : ExecutionPermissionProfile) (step_up : Bool)
    → update_permissions requested (some p) step_up ≡ ok q
    → (step_up ≡ true) × (q.account_id ≡ p.account_id) × (q.version ≡ p.version + 1)
unfolding update_permissions
update_permissions-version requested p q step_up e = ground arith
