-- ===== src/Trading/Authorization/Current.antt =====
-- What a command, its authorization and its plan have to be for the guard of the adapters
-- (modules/trading/authority.py), said without the guard's own tests.
use matrades.Common.{
  ℕ, ◌<◌, ◌≡◌, ◌≢◌, ◌⊎◌, ◌↔◌, Bool, true, false, not, ◌&&◌, Option, none, some, [], ◌∷◌, arith, leb,
  is_some, any, All,
}
use matrades.Common.Result.{ok}
use matrades.Domain.{ExecutionAction, TradePlanState}
use matrades.Risk.Models.{RiskDecision, RiskResult}
use matrades.Trading.Models.{
  ExecutionPermissionProfile, allows, ExecutionAuthorization, ExecutionCommand, Value, value_eq,
  Postcondition, TradePlan,
}
use matrades.Trading.Models.Key
use matrades.Trading.Plans.{is_hard_block}
use matrades.Trading.Authorization.{is_entry}
use matrades.Trading.Authority.{
  executable, expected, get, differs, Authority, assert_command_authority,
}
use matrades.Trading.Authorization.Guards.{
  Passes, assert_command_authority-Passes, Passes-assert_command_authority,
}

-- An entry executes from an authorized or pending plan, another action also from an active one.
abbrev pub MayExecute : ExecutionAction → TradePlanState → Type 0
MayExecute ExecutionAction.place_order s =
    (s ≡ TradePlanState.authorized) ⊎ (s ≡ TradePlanState.execution_pending)
MayExecute _ s =
    (s ≡ TradePlanState.active)
    ⊎ ((s ≡ TradePlanState.authorized) ⊎ (s ≡ TradePlanState.execution_pending))

-- The permission of an action.
abbrev pub IsPermitted : ExecutionPermissionProfile → ExecutionAction → Type 0
IsPermitted p ExecutionAction.place_order = p.new_entry ≡ true
IsPermitted p ExecutionAction.cancel_order = p.order_cancellation ≡ true
IsPermitted p ExecutionAction.set_or_change_stop_loss = p.stop_loss_create_or_modify ≡ true
IsPermitted p ExecutionAction.set_or_change_take_profit = p.take_profit_create_or_modify ≡ true
IsPermitted p ExecutionAction.partial_close = p.partial_close ≡ true
IsPermitted p ExecutionAction.full_exit = p.full_exit ≡ true

-- A postcondition asks for what the plan holds, each Decimal with the text of the plan's.
abbrev pub AsksFor : TradePlan → Postcondition → Type 0
AsksFor plan d =
    let c = plan.construction in
    let e = plan.exponents in
    (get Key.instrument d ≡ Value.text c.instrument)
    × (get Key.direction d ≡ Value.direction c.direction)
    × (get Key.quantity d ≡ Value.decimal c.approved_size e.approved_size)
    × (get Key.quantity_unit d ≡ Value.unit c.quantity_unit)
    × (get Key.entry d ≡ Value.decimal c.entry e.entry)
    × (get Key.stop_loss d ≡ Value.decimal c.stop_loss e.stop_loss)
    × (get Key.take_profit d ≡ Value.decimal c.first_target e.first_target)
    × (get Key.max_loss_account_currency d
        ≡ Value.decimal plan.risk.snapshot.candidate_trade_risk e.candidate_trade_risk)
    × (get Key.venue_instrument_id d ≡ Value.text c.venue_instrument_id)
    × (get Key.specification_version_id d ≡ Value.text c.specification_version_id)

pub record IsCurrent (now : ℕ) (command : ExecutionCommand) (a : ExecutionAuthorization)
    (plan : TradePlan) (authority : Authority) : Type 0 where
  pub scopes : (command.account_id ≡ a.account_id) × (command.account_id ≡ plan.account_id)
  pub bound : command.authorization_id ≡ some a.id
  pub action : a.action ≡ command.action
  pub unexpired : now < a.expires_at
  pub plan_unexpired : command.action ≡ ExecutionAction.place_order → now < plan.expires_at
  pub plan_state : MayExecute command.action plan.state
  pub risk : plan.risk.decision ≢ RiskDecision.hard_block
  pub content :
      command.action ≡ ExecutionAction.place_order
      → plan.ticket ≢ none
      → AsksFor plan command.requested_postcondition
  pub permitted : IsPermitted authority.permissions command.action
  pub no_kill : (authority.platform_kill.active ≡ false) × (authority.account_kill.active ≡ false)
  pub epochs :
      (a.platform_safety_epoch ≡ authority.platform_kill.safety_epoch)
      × (a.account_safety_epoch ≡ authority.account_kill.safety_epoch)

executable_iff :
    (a : ExecutionAction) (s : TradePlanState) → (executable a s ≡ true) ↔ MayExecute a s
executable_iff a s = ground arith

allows_iff :
    (p : ExecutionPermissionProfile) (a : ExecutionAction) → (allows p a ≡ true) ↔ IsPermitted p a
unfolding allows
allows_iff p a = ground arith

is_entry_iff : (a : ExecutionAction) → (is_entry a ≡ true) ↔ (a ≡ ExecutionAction.place_order)
is_entry_iff a = ground arith

hard_block_iff :
    (r : RiskResult) → (is_hard_block r ≡ false) ↔ (r.decision ≢ RiskDecision.hard_block)
hard_block_iff r = ground arith

late_iff :
    (entry : Bool) (expires now : ℕ)
    → ((entry && leb expires now) ≡ false) ↔ (entry ≡ true → now < expires)
late_iff entry expires now = ground arith

value-same : (v w : Value) → (not (value_eq.beq v w) ≡ false) ↔ (v ≡ w)
value-same v w = ground (arith, value_eq.beq_iff v w)

any-false :
    (d : Postcondition) (wanted : Postcondition)
    → (any (λ p. not (value_eq.beq (get p.0 d) p.1)) wanted ≡ false)
      ↔ All (λ p. get p.0 d ≡ p.1) wanted
any-false d [] = ground arith
any-false d (p ∷ wanted) = ground (arith, value-same (get p.0 d) p.1, any-false d wanted)

differs_iff :
    (plan : TradePlan) (d : Postcondition) → (differs d (expected plan) ≡ false) ↔ AsksFor plan d
unfolding differs expected
differs_iff plan d =
    let (to, of) = any-false d (expected plan) in
    (
      λ h.
          let (a, (b, (c, (e, (f, (g, (i, (j, (k, (l, u)))))))))) = to h in
          (a, b, c, e, f, g, i, j, k, l),
      λ (a, b, c, e, f, g, i, j, k, l). of (a, (b, (c, (e, (f, (g, (i, (j, (k, (l, tt)))))))))),
    )

unless_iff :
    (entry : Bool) (ticket : Option ℕ) (other : Bool)
    → ((entry && (is_some ticket && other)) ≡ false)
      ↔ (entry ≡ true → ticket ≢ none → other ≡ false)
unless_iff entry ticket other = ground arith

module _ (now : ℕ) (command : ExecutionCommand) (a : ExecutionAuthorization) (plan : TradePlan)
    (authority : Authority) where
  Passes-IsCurrent : Passes now command a plan authority → IsCurrent now command a plan authority
  Passes-IsCurrent p = record {
    scopes = p.scopes;
    bound = p.bound;
    action = p.action;
    unexpired = p.unexpired;
    plan_unexpired = λ e.
        (late_iff (is_entry command.action) plan.expires_at now).0 p.plan_unexpired
          ((is_entry_iff command.action).1 e);
    plan_state = (executable_iff command.action plan.state).0 p.plan_state;
    risk = (hard_block_iff plan.risk).0 p.risk;
    content = λ e t. (differs_iff plan command.requested_postcondition).0 (
        (unless_iff (is_entry command.action) plan.ticket
            (differs command.requested_postcondition (expected plan))).0
          p.content ((is_entry_iff command.action).1 e) t);
    permitted = (allows_iff authority.permissions command.action).0 p.allowed;
    no_kill = p.no_kill;
    epochs = p.epochs;
  }

  IsCurrent-Passes : IsCurrent now command a plan authority → Passes now command a plan authority
  IsCurrent-Passes c = record {
    scopes = c.scopes;
    bound = c.bound;
    unexpired = c.unexpired;
    plan_unexpired =
        (late_iff (is_entry command.action) plan.expires_at now).1
          (λ t. c.plan_unexpired ((is_entry_iff command.action).0 t));
    plan_state = (executable_iff command.action plan.state).1 c.plan_state;
    action = c.action;
    risk = (hard_block_iff plan.risk).1 c.risk;
    content =
        (unless_iff (is_entry command.action) plan.ticket
            (differs command.requested_postcondition (expected plan))).1
          (λ t u.
            (differs_iff plan command.requested_postcondition).1
              (c.content ((is_entry_iff command.action).0 t) u));
    allowed = (allows_iff authority.permissions command.action).1 c.permitted;
    no_kill = c.no_kill;
    epochs = c.epochs;
  }

  -- The guard returns exactly where the command, the authorization and the plan are of one account, the
  -- command is bound to the authorization and asks for its action, the authorization has not expired, nor,
  -- for an entry, the plan, the plan is in a state that the action may execute in and is not
  -- hard-blocked, an entry of a plan with a ticket asks for what the plan holds, with the same texts for
  -- the Decimals, the action is permitted, no kill switch is active, and both safety epochs are those of
  -- the authorization.
  pub assert_command_authority_iff :
      (assert_command_authority now command a plan authority ≡ ok tt)
      ↔ IsCurrent now command a plan authority
  assert_command_authority_iff = (
    λ e. Passes-IsCurrent (assert_command_authority-Passes now command a plan authority e),
    λ c. Passes-assert_command_authority now command a plan authority (IsCurrent-Passes c),
  )
