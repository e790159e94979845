-- ===== src/Trading/Authorization/Guards.antt =====
-- What `assert_command_authority` (modules/trading/authority.py) has established where it returns.
use matrades.Common.{
  ℕ, ◌<◌, ◌≡◌, refl, Bool, true, false, not, ◌&&◌, ◌||◌, Option, some, arith, leb, nat_beq, opt_beq,
  is_some, nat_eq,
}
use matrades.Common.Result.{ok, raise_if, raise_if-passed, raise_if-pass}
use matrades.Domain.{ExecutionAction}
use matrades.Trading.Models.{allows, ExecutionAuthorization, ExecutionCommand, TradePlan}
use matrades.Trading.Plans.{is_hard_block}
use matrades.Trading.Authorization.{same_action, is_entry}
use matrades.Trading.Authority.{executable, expected, differs, Authority, assert_command_authority}

-- The tests of the guard, each with the result that lets the call pass.
pub record Passes (now : ℕ) (command : ExecutionCommand) (a : ExecutionAuthorization)
    (plan : TradePlan) (authority : Authority) : Type 0 where
  pub scopes : (command.account_id ≡ a.account_id) × (command.account_id ≡ plan.account_id)
  pub bound : command.authorization_id ≡ some a.id
  pub unexpired : now < a.expires_at
  pub plan_unexpired : (is_entry command.action && leb plan.expires_at now) ≡ false
  pub plan_state : executable command.action plan.state ≡ true
  pub action : a.action ≡ command.action
  pub risk : is_hard_block plan.risk ≡ false
  pub content :
      (is_entry command.action
        && (is_some plan.ticket && differs command.requested_postcondition (expected plan)))
      ≡ false
  pub allowed : allows authority.permissions command.action ≡ true
  pub no_kill : (authority.platform_kill.active ≡ false) × (authority.account_kill.active ≡ false)
  pub epochs :
      (a.platform_safety_epoch ≡ authority.platform_kill.safety_epoch)
      × (a.account_safety_epoch ≡ authority.account_kill.safety_epoch)

same_action-eq : (a b : ExecutionAction) → same_action a b ≡ true → a ≡ b
same_action-eq a b h = ground arith

not-false : (b : Bool) → not b ≡ false → b ≡ true
not-false b h = ground arith

same-pair : (a b c d : ℕ) → (not (nat_beq a b) || not (nat_beq c d)) ≡ false → (a ≡ b) × (c ≡ d)
same-pair a b c d h = ground arith

neither : (b c : Bool) → (b || c) ≡ false → (b ≡ false) × (c ≡ false)
neither b c h = ground arith

leb-false : (a b : ℕ) → leb a b ≡ false → b < a
leb-false a b h = ground arith

bound-eq : (o : Option ℕ) (n : ℕ) → not (opt_beq o (some n)) ≡ false → o ≡ some n
bound-eq o n h = ground arith

same_action_refl : (a b : ExecutionAction) → a ≡ b → not (same_action a b) ≡ false
same_action_refl a b h = ground arith

pair-same : (a b c d : ℕ) → (a ≡ b) × (c ≡ d) → (not (nat_beq a b) || not (nat_beq c d)) ≡ false
pair-same a b c d h = ground arith

late-false : (a b : ℕ) (c : Bool) → b < a → c ≡ false → (leb a b || c) ≡ false
late-false a b c h k = ground arith

eq-bound : (o : Option ℕ) (n : ℕ) → o ≡ some n → not (opt_beq o (some n)) ≡ false
eq-bound o n h = ground arith

both : (b c : Bool) → (b ≡ false) × (c ≡ false) → (b || c) ≡ false
both b c h = ground arith

false-not : (b : Bool) → b ≡ true → not b ≡ false
false-not b h = ground arith

module _ (now : ℕ) (command : ExecutionCommand) (a : ExecutionAuthorization) (plan : TradePlan)
    (authority : Authority) where
  pub assert_command_authority-Passes :
      assert_command_authority now command a plan authority ≡ ok tt
      → Passes now command a plan authority
  unfolding assert_command_authority
  assert_command_authority-Passes e =
      let (scopes, e1) = raise_if-passed _ _ _ e in
      let (bound, e2) = raise_if-passed _ _ _ e1 in
      let (times, e3) = raise_if-passed _ _ _ e2 in
      let (state, e4) = raise_if-passed _ _ _ e3 in
      let (action, e5) = raise_if-passed _ _ _ e4 in
      let (risk, e6) = raise_if-passed _ _ _ e5 in
      let (content, e7) = raise_if-passed _ _ _ e6 in
      let (allowed, e8) = raise_if-passed _ _ _ e7 in
      let (kills, epochs) = raise_if-passed _ _ _ e8 in
      record {
        scopes = same-pair _ _ _ _ scopes;
        bound = bound-eq _ _ bound;
        unexpired = leb-false _ _ (neither _ _ times).0;
        plan_unexpired = (neither _ _ times).1;
        plan_state = not-false _ state;
        action = same_action-eq _ _ (not-false _ action);
        risk = risk;
        content = content;
        allowed = not-false _ allowed;
        no_kill = neither _ _ kills;
        epochs = same-pair _ _ _ _ (epoch-guard _ _ epochs);
      }
    where
      epoch-guard : {error : Type 0} (x : error) (b : Bool) → raise_if b x ≡ ok tt → b ≡ false
      epoch-guard x b h = ground arith

  pub Passes-assert_command_authority :
      Passes now command a plan authority
      → assert_command_authority now command a plan authority ≡ ok tt
  unfolding assert_command_authority
  Passes-assert_command_authority c = raise_if-pass _ _ _ (pair-same _ _ _ _ c.scopes) (
      raise_if-pass _ _ _ (eq-bound _ _ c.bound) (
        raise_if-pass _ _ _ (late-false _ _ _ c.unexpired c.plan_unexpired) (
          raise_if-pass _ _ _ (false-not _ c.plan_state) (
            raise_if-pass _ _ _ (same_action_refl _ _ c.action) (
              raise_if-pass _ _ _ c.risk (
                raise_if-pass _ _ _ c.content (
                  raise_if-pass _ _ _ (false-not _ c.allowed) (
                    raise_if-pass _ _ _ (both _ _ c.no_kill)
                      (rw (pair-same _ _ _ _ c.epochs) refl)))))))))
