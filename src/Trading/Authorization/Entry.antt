-- ===== src/Trading/Authorization/Entry.antt =====
-- An authorization and the command made from it (modules/trading/execution.py), and the guard of the
-- adapters (modules/trading/authority.py): what one gives is what the other asks for.
use matrades.Common.{
  ℕ, ◌<◌, ◌≡◌, refl, sym, ap, ◌∙◌, inl, inr, Bool, true, false, not, ◌&&◌, ◌||◌, arith, leb,
  nat_beq, is_some, Option-cases, nat_eq,
}
use matrades.Common.Result.{ok, raise_if-passed, ok-injective}
use matrades.Domain.{ExecutionAction, TradePlanState, QuantityUnit}
use matrades.Risk.Models.{Direction}
use matrades.Trading.Models.{
  allows, ExecutionAuthorization, value_eq, direction_beq, unit_beq, TradePlan,
}
use matrades.Trading.Plans.{is_hard_block}
use matrades.Trading.Authorization.{
  is_entry, eligible, Digested, new_authorization, authorized_plan, authorize_action,
  entry_postcondition, no_targets, new_command,
}
use matrades.Trading.Authority.{expected, differs, Authority, assert_command_authority}
use matrades.Trading.Authorization.Guards.{Passes-assert_command_authority}

-- What an authorization has established where it returns.
pub record IsAuthorizable (now : ℕ) (plan : TradePlan) (action : ExecutionAction)
    (authority : Authority) : Type 0 where
  pub plan_state : eligible action plan.state ≡ true
  pub plan_unexpired : (is_entry action && leb plan.expires_at now) ≡ false
  pub risk : is_hard_block plan.risk ≡ false
  pub allowed : allows authority.permissions action ≡ true
  pub no_kill : (authority.platform_kill.active || authority.account_kill.active) ≡ false

neither : (b c : Bool) → (b || c) ≡ false → (b ≡ false) × (c ≡ false)
neither b c h = ground arith

not-false : (b : Bool) → not b ≡ false → b ≡ true
not-false b h = ground arith

module _ (digest : Digested → ℕ) (id now issued : ℕ) (plan : TradePlan) (action : ExecutionAction)
    (authority : Authority) (ttl : ℕ) (a : ExecutionAuthorization) (plan' : TradePlan) where
  -- An authorization is given only to an eligible, unexpired plan that is not hard-blocked, for an
  -- action that is permitted while no kill switch is active; it is the new authorization for these
  -- inputs, and the plan then holds it, with an entry's plan authorized.
  pub authorize_action-IsAuthorizable :
      authorize_action digest id now issued plan action authority.permissions
          authority.platform_kill authority.account_kill ttl
        ≡ ok (a, plan')
      → IsAuthorizable now plan action authority
        × (a
            ≡ new_authorization digest id now issued plan action authority.permissions
                authority.platform_kill authority.account_kill ttl)
        × (plan' ≡ authorized_plan action a plan)
  unfolding authorize_action
  authorize_action-IsAuthorizable e =
      let (state, e1) = raise_if-passed _ _ _ e in
      let (time, e2) = raise_if-passed _ _ _ e1 in
      let (risk, e3) = raise_if-passed _ _ _ e2 in
      let (allowed, e4) = raise_if-passed _ _ _ e3 in
      let (kill, e5) = raise_if-passed _ _ _ e4 in
      let given = ok-injective e5 in
      (
        record {
          plan_state = not-false _ state;
          plan_unexpired = time;
          risk = risk;
          allowed = not-false _ allowed;
          no_kill = kill;
        },
        sym (ap (λ x. x.0) given),
        sym (ap (λ x. x.1) given) ∙ ap (λ x. authorized_plan action x plan) (ap (λ x. x.0) given),
      )

nat_beq_refl : (n : ℕ) → nat_beq n n ≡ true
nat_beq_refl n = ground arith

decimal_beq_refl : (n e : ℕ) → (nat_beq n n && nat_beq e e) ≡ true
decimal_beq_refl n e = ground arith

direction_beq_refl : (d : Direction) → direction_beq d d ≡ true
direction_beq_refl d = ground arith

unit_beq_refl : (u : QuantityUnit) → unit_beq u u ≡ true
unit_beq_refl u = ground arith

not_or : (b c : Bool) → b ≡ true → c ≡ false → (not b || c) ≡ false
not_or b c h k = rw (h, k) refl

entry-differs :
    (plan : TradePlan)
    → (is_some plan.ticket && differs (entry_postcondition plan) (expected plan)) ≡ false
unfolding differs entry_postcondition expected
entry-differs plan = elim (Option-cases plan.ticket) [
  | inl n ↦ rw n refl
  | inr (t, e) ↦ rw e (
      not_or _ _ (nat_beq_refl plan.construction.instrument) (
        not_or _ _ (direction_beq_refl plan.construction.direction) (
          not_or _ _ (decimal_beq_refl plan.construction.approved_size plan.exponents.approved_size)
            (not_or _ _ (unit_beq_refl plan.construction.quantity_unit) (
              not_or _ _ (decimal_beq_refl plan.construction.entry plan.exponents.entry) (
                not_or _ _ (decimal_beq_refl plan.construction.stop_loss plan.exponents.stop_loss) (
                  not_or _ _
                    (decimal_beq_refl plan.construction.first_target plan.exponents.first_target)
                    (not_or _ _
                      (decimal_beq_refl plan.risk.snapshot.candidate_trade_risk
                        plan.exponents.candidate_trade_risk)
                      (not_or _ _ (nat_beq_refl plan.construction.venue_instrument_id) (
                        not_or _ _ (nat_beq_refl plan.construction.specification_version_id)
                          refl))))))))))
]

authorized-plan-fields :
    (a : ExecutionAuthorization) (plan plan' : TradePlan)
    → plan' ≡ authorized_plan ExecutionAction.place_order a plan
    → (plan'.state ≡ TradePlanState.authorized)
      × (plan'.account_id ≡ plan.account_id)
      × (plan'.expires_at ≡ plan.expires_at)
      × (plan'.risk ≡ plan.risk)
unfolding authorized_plan
authorized-plan-fields a plan plan' e =
    (ap (λ x. x.state) e, ap (λ x. x.account_id) e, ap (λ x. x.expires_at) e, ap (λ x. x.risk) e)

-- An entry that was authorized passes the guard as long as nothing that it depends on has changed: with
-- the command that `create_command` makes, the plan that the authorization left, the permissions and
-- kill switches it was given under, and at every instant before the authorization and the plan expire.
pub assert_command_authority-entry :
    (digest : Digested → ℕ) (id now issued : ℕ) (plan : TradePlan) (authority : Authority) (ttl : ℕ)
    (a : ExecutionAuthorization) (plan' : TradePlan) (command_id key later : ℕ)
    → authorize_action digest id now issued plan ExecutionAction.place_order authority.permissions
        authority.platform_kill authority.account_kill ttl
      ≡ ok (a, plan')
    → later < a.expires_at
    → later < plan.expires_at
    → assert_command_authority later
        (new_command command_id plan' a key (entry_postcondition plan') no_targets)
        a
        plan'
        authority
      ≡ ok tt
assert_command_authority-entry digest id now issued plan authority ttl a plan' command_id key later
      e fresh current =
    let (given, same, left) =
      authorize_action-IsAuthorizable digest id now issued plan ExecutionAction.place_order
        authority ttl a plan' e in
    let same_scope : a.account_id ≡ plan.account_id = rw same (unfold new_authorization in refl) in
    let same_action' : a.action ≡ ExecutionAction.place_order =
      rw same (unfold new_authorization in refl) in
    let (state, kept_account, kept_expiry, kept_risk) = authorized-plan-fields a plan plan' left in
    Passes-assert_command_authority later
      (new_command command_id plan' a key (entry_postcondition plan') no_targets) a plan' authority
      record {
        scopes =
            (unfold new_command in (kept_account ∙ sym same_scope), unfold new_command in refl);
        bound = unfold new_command in refl;
        unexpired = fresh;
        plan_unexpired =
            unfold new_command in
            rw (same_action', kept_expiry) (late plan.expires_at later current);
        plan_state = unfold new_command in rw (same_action', state) refl;
        action = unfold new_command in refl;
        risk = rw kept_risk given.risk;
        content = unfold new_command in rw same_action' (entry-differs plan');
        allowed = unfold new_command in rw same_action' given.allowed;
        no_kill = neither _ _ given.no_kill;
        epochs = rw same (unfold new_authorization in (refl, refl));
      }
  where
    late : (x y : ℕ) → y < x → leb x y ≡ false
    late x y h = ground arith
