-- ===== src/Trading/Plans/Reserved.antt =====
-- What `build_trade_plan` (modules/trading/trade_plans.py) binds to a plan that it returns.
use mathlib.Core.Option.{some-injective}
use matrades.Common.{ℕ, ◌≡◌, refl, sym, ap, subst, subst₂, false, none, some, nat_eq}
use matrades.Common.Int.{pos, ◌≤ℤ◌}
use matrades.Common.Dict.{Dict, lookup}
use matrades.Common.Result.{Result, ok, err, ok-injective}
use matrades.Domain.{TradePlanState}
use matrades.Risk.Models.{RiskResult}
use matrades.Risk.Reservations.Book.{Item, BookError, book_reserve, already, book_reserve-fits}
use matrades.Trading.Models.{TradePlan}
use matrades.Trading.Plans.{
  is_hard_block, PlanRequest, construct_plan, bind, ten_minutes, build_trade_plan,
}

-- What stands in the book for a plan: an item of the plan's candidate risk, and no more than the
-- remaining capacity over all of the account's active items.
pub record IsReserved (q : PlanRequest) (risk : RiskResult) (plan : TradePlan) (items : Dict ℕ Item)
    : Type 0 where
  pub state : plan.state ≡ TradePlanState.ready
  pub size : plan.construction.approved_size ≡ risk.approved_size
  pub item : Item
  pub bound : plan.reservation_id ≡ some item.id
  pub found : lookup item.id items ≡ some item
  pub amount : item.amount ≡ pos risk.snapshot.candidate_trade_risk
  pub fits : already q.account_id items ≤ℤ pos risk.snapshot.remaining_portfolio_risk_capacity

-- With a book and a result that is no hard block, under an identifier that the book does not have: a
-- plan that is built is ready, of the approved size, and reserved.
pub build_trade_plan-IsReserved :
    (item_id now later : ℕ) (q : PlanRequest) (risk : RiskResult) (items items' : Dict ℕ Item)
    (plan : TradePlan)
    → lookup item_id items ≡ none
    → is_hard_block risk ≡ false
    → build_trade_plan item_id now later q risk (some items) ≡ (ok plan, some items')
    → IsReserved q risk plan items'
unfolding build_trade_plan
build_trade_plan-IsReserved item_id now later q risk items items' plan fresh unblocked e =
    go _ refl (rw unblocked at e)
  where
    go :
        (outcome : Result BookError Item × Dict ℕ Item)
        → book_reserve item_id now later q.account_id q.plan_id
            (pos risk.snapshot.candidate_trade_risk)
            (pos risk.snapshot.remaining_portfolio_risk_capacity)
            ten_minutes
            items
          ≡ outcome
        → bind (construct_plan q risk) outcome ≡ (ok plan, some items')
        → IsReserved q risk plan items'
    go (ok item, after) r h =
        let p : record (construct_plan q risk) { reservation_id = some item.id } ≡ plan =
          ok-injective (ap (λ x. x.0) h) in
        let kept : after ≡ items' = some-injective _ _ (ap (λ x. x.1) h) in
        let (_, fits, found, amount, named) =
          book_reserve-fits item_id now later q.account_id q.plan_id
            (pos risk.snapshot.candidate_trade_risk)
            (pos risk.snapshot.remaining_portfolio_risk_capacity) ten_minutes items after item fresh
            r in
        subst₂ (IsReserved q risk) p kept record {
          state = unfold construct_plan in rw unblocked refl;
          size = unfold construct_plan in refl;
          item = item;
          bound = refl;
          found = subst (λ n. lookup n after ≡ some item) (sym named) found;
          amount = amount;
          fits = fits;
        }
    go (err x, after) r h = cc
