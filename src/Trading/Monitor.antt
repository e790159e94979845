-- ===== src/Trading/Monitor.antt =====
-- Monitoring of an active trade (modules/trading/monitor.py): the facts that a recommendation rests on
-- and the check of every authority input before a management command.
use matrades.Common.{
  ℕ, ◌≡◌, ◌↔◌, refl, Bool, true, false, not, ◌&&◌, ◌||◌, Option, none, some, List, [], ◌∷◌, arith,
  if◌then◌else◌,
}
use matrades.Common.Int.{ℤ, leb_ℤ}
use mathlib.Core.Bool.{false≢true}
use matrades.Domain.{ExecutionAction}
use matrades.Risk.Models.{Direction}
use matrades.Trading.Models.{ExecutionPermissionProfile, allows, KillSwitchState}

-- What is read of the broker's position.
pub record MonitoredPosition : Type 0 where
  pub direction : Direction
  pub stop_loss : Option ℤ
  pub pnl : ℤ

pub data Facts : Type 0 where
  stale : Facts
  revalidation : List ℕ → Facts
  observed : Bool → Bool → ℤ → ℤ → Facts

abbrev pub invalidated : MonitoredPosition → ℤ → Bool
invalidated p price = elim p.stop_loss [
  | none ↦ false
  | some stop ↦ elim p.direction [
    | Direction.buy ↦ leb_ℤ price stop
    | Direction.sell ↦ leb_ℤ stop price
  ]
]

-- `observed actionable invalidated pnl current_price`; no events is the empty list.
unfoldable pub monitoring_facts : MonitoredPosition → ℤ → Bool → Bool → List ℕ → Facts
monitoring_facts p price policy_valid bridge_fresh events =
    if not bridge_fresh then Facts.stale else elim events [
      | [] ↦
          Facts.observed (policy_valid && not (invalidated p price)) (invalidated p price) p.pnl
            price
      | e ∷ es ↦ Facts.revalidation (e ∷ es)
    ]

pub data RecommendationAction : Type 0 where
  hold move_sl partial_tp early_exit full_exit : RecommendationAction

pub data ManagementReason : Type 0 where
  no_trigger snapshot_stale kill_active policy_invalid passed disabled : ManagementReason

pub record ManagementRecommendation : Type 0 where
  pub trade_id : ℕ
  pub action : RecommendationAction
  pub reason : ManagementReason
  pub requires_authorization : Bool

abbrev pub permission_action : RecommendationAction → Option ExecutionAction
permission_action RecommendationAction.hold = none
permission_action RecommendationAction.move_sl = some ExecutionAction.set_or_change_stop_loss
permission_action RecommendationAction.partial_tp = some ExecutionAction.partial_close
permission_action RecommendationAction.early_exit = some ExecutionAction.full_exit
permission_action RecommendationAction.full_exit = some ExecutionAction.full_exit

abbrev pub permits : ExecutionPermissionProfile → Option ExecutionAction → Bool
permits permissions none = false
permits permissions (some a) = allows permissions a

abbrev pub management_reason :
    RecommendationAction
    → ExecutionPermissionProfile
    → KillSwitchState
    → KillSwitchState
    → Bool
    → Bool
    → Bool
    → ManagementReason
management_reason action permissions platform_kill account_kill broker_fresh risk_fresh
      policy_valid =
    if not broker_fresh || not risk_fresh
    then ManagementReason.snapshot_stale
    else if platform_kill.active || account_kill.active
    then ManagementReason.kill_active
    else if not policy_valid
    then ManagementReason.policy_invalid
    else if permits permissions (permission_action action)
    then ManagementReason.passed
    else ManagementReason.disabled

unfoldable pub management_authorization :
    ℕ
    → RecommendationAction
    → ExecutionPermissionProfile
    → KillSwitchState
    → KillSwitchState
    → Bool
    → Bool
    → Bool
    → ManagementRecommendation
management_authorization trade RecommendationAction.hold permissions platform_kill account_kill b r
      p =
    record {
      trade_id = trade;
      action = RecommendationAction.hold;
      reason = ManagementReason.no_trigger;
      requires_authorization = false;
    }
management_authorization trade action permissions platform_kill account_kill b r p = record {
  trade_id = trade;
  action = action;
  reason = management_reason action permissions platform_kill account_kill b r p;
  requires_authorization = true;
}

-- Every authority input of a management command holds.
pub record IsManageable (action : RecommendationAction) (permissions : ExecutionPermissionProfile)
    (platform_kill account_kill : KillSwitchState) (broker_fresh risk_fresh policy_valid : Bool)
    : Type 0 where
  pub fresh : (broker_fresh ≡ true) × (risk_fresh ≡ true)
  pub no_kill : (platform_kill.active ≡ false) × (account_kill.active ≡ false)
  pub policy : policy_valid ≡ true
  pub permitted : permits permissions (permission_action action) ≡ true

-- A management action passes exactly where the broker's state and the risk are fresh, no kill switch
-- is active, the policy is valid and the account permits what the action executes.
pub management_authorization_iff :
    (trade : ℕ) (action : RecommendationAction) (permissions : ExecutionPermissionProfile)
    (platform_kill account_kill : KillSwitchState) (broker_fresh risk_fresh policy_valid : Bool)
    → ((management_authorization trade action permissions platform_kill account_kill broker_fresh
          risk_fresh policy_valid).reason
        ≡ ManagementReason.passed)
      ↔ IsManageable action permissions platform_kill account_kill broker_fresh risk_fresh
          policy_valid
unfolding management_authorization
management_authorization_iff trade action permissions platform_kill account_kill broker_fresh
      risk_fresh policy_valid =
    (λ h. there action h, λ m. back action m)
  where
    there :
        (a : RecommendationAction)
        → (management_authorization trade a permissions platform_kill account_kill broker_fresh
            risk_fresh policy_valid).reason
          ≡ ManagementReason.passed
        → IsManageable a permissions platform_kill account_kill broker_fresh risk_fresh policy_valid
    there RecommendationAction.hold h = cc
    there _ h = record {
      fresh = ground arith;
      no_kill = ground arith;
      policy = ground arith;
      permitted = ground arith;
    }

    back :
        (a : RecommendationAction)
        → IsManageable a permissions platform_kill account_kill broker_fresh risk_fresh policy_valid
        → (management_authorization trade a permissions platform_kill account_kill broker_fresh
            risk_fresh policy_valid).reason
          ≡ ManagementReason.passed
    back RecommendationAction.hold m = absurd (false≢true (m.permitted))
    back _ m = rw (m.fresh.0, m.fresh.1, m.no_kill.0, m.no_kill.1, m.policy, m.permitted) refl
