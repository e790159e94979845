-- ===== src/Risk/Evaluate/Decision.antt =====
-- The decision of the engine (modules/risk/engine.py), and the cases in which it approves nothing.
use matrades.Common.{
  sym, ◌+◌, ◌*◌, subst, some, ℕ, ◌≤◌, ◌<◌, ◌≡◌, ◌≢◌, refl, ◌∙◌, ◌⊎◌, inl, inr, none, [], arith,
  length,
}
use matrades.Common.Int.{◌+ℤ◌, sum_from, ℤ, pos}
use matrades.Common.Result.{ok, >>=-eq-ok}
use matrades.Policy.{ConstraintKind}
use matrades.Policy.Strictest.{of_kind, strictest_applicable-none}
use matrades.Risk.Financial.{reserved_risk}
use matrades.Risk.Exposure.{Exposure}
use matrades.Risk.Models.{CandidateTrade, RiskContext, RiskDecision, RiskResult}
use matrades.Risk.Exposure.{position_exposure, aggregate_exposure}
use matrades.Risk.Engine.{
  Limits, Required, room_of, require, limit, required_limits, decide, requested_risk,
}
use matrades.Risk.Evaluate.{sized, evaluate_existing, evaluate}
use matrades.Risk.Evaluate.Cases.{IsBlocked, IsSized, rate_of, evaluate-cases}
use matrades.Risk.Evaluate.Bounds.{IsWithin, report-Reports, sized_le}
use matrades.Risk.Evaluate.Largest.{sized-next}

-- The decision that an approved size calls for.
abbrev pub Agrees : RiskDecision → ℕ → ℕ → Type 0
Agrees RiskDecision.hard_block approved requested = approved ≡ 0
Agrees RiskDecision.reduce_size approved requested = (0 < approved) × (approved < requested)
Agrees RiskDecision.pass approved requested = (0 < approved) × (approved ≡ requested)

decide-Agrees :
    (ctx : RiskContext) (c : CandidateTrade) (size : ℕ)
    → size ≤ c.requested_size
    → Agrees (decide ctx c size).0 (decide ctx c size).1 c.requested_size
unfolding decide
decide-Agrees ctx c size h = ground arith

module _ (ctx : RiskContext) (c : CandidateTrade) (limits : Limits) (existing : ℤ)
    (r : RiskResult) where
  pub evaluate_existing-decision :
      evaluate_existing ctx c limits existing ≡ ok r
      → (size : ℕ) × (r.decision ≡ (decide ctx c size).0)
        × (r.approved_size ≡ (decide ctx c size).1)
        × (size ≤ c.requested_size)
  unfolding evaluate_existing
  evaluate_existing-decision e =
      let room = room_of ctx limits existing in
      let (exposures, e0, f0) =
        >>=-eq-ok (aggregate_exposure ctx.positions c (pos (requested_risk c))) _ e in
      let (base, e1, f1) = >>=-eq-ok (position_exposure ctx.positions) _ f0 in
      let (size, e2, f2) = >>=-eq-ok (sized ctx c limits room base) _ f1 in
      let rep = report-Reports ctx c limits room existing base exposures size r f2 in
      (size, rep.decision, rep.approved, sized_le ctx c limits room base size e2)

decide-reduced :
    (ctx : RiskContext) (c : CandidateTrade) (size : ℕ)
    → (decide ctx c size).0 ≡ RiskDecision.reduce_size
    → (0 < size) × (size < c.requested_size) × ((decide ctx c size).1 ≡ size)
unfolding decide
decide-reduced ctx c size h = ground arith

-- Why a size was reduced: with the limits in force and what is already at risk, the loss of the approved
-- size and one increment more would break one of them.
pub record IsReduced (ctx : RiskContext) (c : CandidateTrade) (r : RiskResult) : Type 0 where
  pub rate : ℕ
  pub limits : Limits
  pub reserved : ℕ
  pub base : Exposure
  pub rated : rate_of c.identity.instrument_type c ≡ ok rate
  pub required : required_limits ctx ≡ Required.complete limits
  pub bounded : reserved_risk ctx.positions ctx.include_unrealized_profit ≡ some reserved
  pub exposed : position_exposure ctx.positions ≡ ok base
  pub next :
      ¬ IsWithin ctx limits
        (pos reserved +ℤ sum_from (pos 0) ctx.active_reservations)
        base
        ((r.approved_size + c.size_increment) * rate + c.financing_cost)

module _ (ctx : RiskContext) (c : CandidateTrade) (limits : Limits) (existing : ℤ)
    (r : RiskResult) where
  evaluate_existing-reduced :
      evaluate_existing ctx c limits existing ≡ ok r
      → r.decision ≡ RiskDecision.reduce_size
      → (base : Exposure) × (position_exposure ctx.positions ≡ ok base)
        × ¬ IsWithin ctx limits existing base
            ((r.approved_size + c.size_increment) * c.risk_per_unit + c.financing_cost)
  unfolding evaluate_existing
  evaluate_existing-reduced e reduced =
      let room = room_of ctx limits existing in
      let (exposures, e0, f0) =
        >>=-eq-ok (aggregate_exposure ctx.positions c (pos (requested_risk c))) _ e in
      let (base, e1, f1) = >>=-eq-ok (position_exposure ctx.positions) _ f0 in
      let (size, e2, f2) = >>=-eq-ok (sized ctx c limits room base) _ f1 in
      let rep = report-Reports ctx c limits room existing base exposures size r f2 in
      let (positive, less, same) = decide-reduced ctx c size (sym rep.decision ∙ reduced) in
      (
        base,
        e1,
        subst
            (λ n.
              ¬ IsWithin ctx limits existing base
                ((n + c.size_increment) * c.risk_per_unit + c.financing_cost))
            (sym (rep.approved ∙ same))
            (sized-next ctx c limits existing base size e2 positive less),
      )

-- On every path the decision agrees with the approved size: `hard_block` approves nothing,
-- `reduce_size` something less than was requested, and `pass` exactly what was requested. A size is
-- reduced no more than it has to be: the loss of one increment more would break the limit on drawdown,
-- daily loss, open risk, or a single trade, or an exposure cap.
pub evaluate-Agrees :
    (ctx : RiskContext) (c : CandidateTrade) (r : RiskResult)
    → evaluate ctx c ≡ ok r
    → Agrees r.decision r.approved_size c.requested_size
      × (r.decision ≡ RiskDecision.reduce_size → IsReduced ctx c r)
evaluate-Agrees ctx c r e = go (evaluate-cases ctx c r e)
  where
    blocked-ne-reduced : ¬ (RiskDecision.hard_block ≡ RiskDecision.reduce_size)
    blocked-ne-reduced h = cc

    go :
        IsBlocked r ⊎ IsSized ctx c r
        → Agrees r.decision r.approved_size c.requested_size
          × (r.decision ≡ RiskDecision.reduce_size → IsReduced ctx c r)
    go (inl b) =
        (rw (b.decision, b.size) refl, λ h. absurd (blocked-ne-reduced (sym b.decision ∙ h)))
    go (inr s) =
        let rated = record c { risk_per_unit = s.rate } in
        let (size, d, a, le) = evaluate_existing-decision ctx rated s.limits _ r s.reported in
        (
          rw (d, a) (decide-Agrees ctx rated size le),
          λ h.
              let (base, exposed, next) =
                evaluate_existing-reduced ctx rated s.limits _ r s.reported h in
              record {
                rate = s.rate;
                limits = s.limits;
                reserved = s.reserved;
                base = base;
                rated = s.rated;
                required = s.required;
                bounded = s.bounded;
                exposed = exposed;
                next = next;
              },
        )

-- The limits without which the engine approves nothing.
pub data IsRequired : ConstraintKind → Type 0 where
  total_drawdown : IsRequired ConstraintKind.max_total_drawdown
  daily_loss : IsRequired ConstraintKind.max_daily_loss
  portfolio_risk : IsRequired ConstraintKind.max_portfolio_risk

required_limits-some :
    (ctx : RiskContext) (k : ConstraintKind) (l : Limits)
    → IsRequired k
    → required_limits ctx ≡ Required.complete l
    → limit k ctx ≢ none
unfolding required_limits require
required_limits-some ctx k l total_drawdown e n = ground arith
required_limits-some ctx k l daily_loss e n = ground arith
required_limits-some ctx k l portfolio_risk e n = ground arith

-- Where the context has no constraint of a required kind, hard or soft, the evaluation is blocked:
-- nothing is approved.
pub evaluate-no_limit :
    (ctx : RiskContext) (c : CandidateTrade) (r : RiskResult) (k : ConstraintKind)
    → IsRequired k
    → of_kind k ctx.constraints ≡ []
    → evaluate ctx c ≡ ok r
    → IsBlocked r
evaluate-no_limit ctx c r k q n e = go (evaluate-cases ctx c r e)
  where
    go : IsBlocked r ⊎ IsSized ctx c r → IsBlocked r
    go (inl b) = b
    go (inr s) = absurd (
        required_limits-some ctx k s.limits q s.required
          ((strictest_applicable-none k ctx.constraints).1 n))

decide-full :
    (ctx : RiskContext) (c : CandidateTrade) (size : ℕ)
    → ctx.static_max_concurrent_trades ≤ length ctx.positions
    → ((decide ctx c size).0 ≡ RiskDecision.hard_block) × ((decide ctx c size).1 ≡ 0)
unfolding decide
decide-full ctx c size h = ground arith

-- Where as many trades are open as may be, nothing is approved.
pub evaluate-full :
    (ctx : RiskContext) (c : CandidateTrade) (r : RiskResult)
    → ctx.static_max_concurrent_trades ≤ length ctx.positions
    → evaluate ctx c ≡ ok r
    → (r.decision ≡ RiskDecision.hard_block) × (r.approved_size ≡ 0)
evaluate-full ctx c r h e = go (evaluate-cases ctx c r e)
  where
    go :
        IsBlocked r ⊎ IsSized ctx c r
        → (r.decision ≡ RiskDecision.hard_block) × (r.approved_size ≡ 0)
    go (inl b) = (b.decision, b.size)
    go (inr s) =
        let rated = record c { risk_per_unit = s.rate } in
        let (size, d, a, le) = evaluate_existing-decision ctx rated s.limits _ r s.reported in
        let (dn, an) = decide-full ctx rated size h in (d ∙ dn, a ∙ an)
