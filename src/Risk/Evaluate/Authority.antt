-- ===== src/Risk/Evaluate/Authority.antt =====
-- The engine as an authority (modules/risk/engine.py): an approved trade keeps every hard constraint,
-- and an evaluation without its authority approves nothing.
use matrades.Common.{
  ℕ, ◌+◌, ◌*◌, [], ◌∷◌, ◌≤◌, ◌<◌, ◌≡◌, refl, ◌⊎◌, inl, inr, Option, none, some, arith, All, All-map,
  length,
}
use matrades.Common.Int.{ℤ, pos, ◌+ℤ◌, ◌≤ℤ◌, sum_from}
use matrades.Common.Dict.{Dict}
use matrades.Common.Result.{ok}
use matrades.Policy.{ConstraintKind, EffectiveConstraint}
use matrades.Policy.Strictest.{
  hard_of_kind, hard-of-pool, strictest_applicable-IsStrictest, strictest_applicable-none,
}
use matrades.Risk.Models.{
  CandidateTrade, Group, RiskContext, RiskResult, Extended, finite, infinity,
}
use matrades.Risk.Exposure.{Exposure, position_exposure, exposure_of}
use matrades.Risk.Financial.{reserved_risk}
use matrades.Risk.Engine.{
  Limits, Required, require, limit, required_limits, drawdown_of, daily_of, trade_cap, left_under,
  correlation_remaining,
}
use matrades.Risk.Evaluate.{evaluate}
use matrades.Risk.Evaluate.Cases.{IsBlocked, IsSized, rate_of, evaluate-cases}
use matrades.Risk.Evaluate.Bounds.{IsWithin, room_within, evaluate_existing-Guarantee}

-- No hard constraint of the kind is below the value.
abbrev pub IsAllowed : RiskContext → ConstraintKind → ℤ → Type 0
IsAllowed ctx k v = All (λ d. v ≤ℤ d.value) (hard_of_kind k ctx.constraints)

abbrev BoundedBy : ℤ → Option EffectiveConstraint → Type 0
BoundedBy v none = Unit
BoundedBy v (some c) = v ≤ℤ c.value

bounded-IsAllowed :
    (ctx : RiskContext) (k : ConstraintKind) (v : ℤ) → BoundedBy v (limit k ctx) → IsAllowed ctx k v
bounded-IsAllowed ctx k v h = go (limit k ctx) refl h
  where
    go : (o : Option EffectiveConstraint) → limit k ctx ≡ o → BoundedBy v o → IsAllowed ctx k v
    go none e b = rw ((strictest_applicable-none k ctx.constraints).0 e) tt
    go (some c) e b =
        All-map (hard_of_kind k ctx.constraints) (λ d le. omega (arith, b, le))
          (hard-of-pool _ k ctx.constraints
            (strictest_applicable-IsStrictest k ctx.constraints c e).le_pool)

-- The limits that an evaluation uses are the strictest of their kinds.
record AreStrictest (ctx : RiskContext) (l : Limits) : Type 0 where
  drawdown : limit ConstraintKind.max_total_drawdown ctx ≡ some l.total_drawdown
  daily : limit ConstraintKind.max_daily_loss ctx ≡ some l.daily_loss
  portfolio : limit ConstraintKind.max_portfolio_risk ctx ≡ some l.portfolio_risk
  trade : limit ConstraintKind.max_risk_per_trade ctx ≡ l.risk_per_trade

require-complete :
    (dd daily portfolio trade : Option EffectiveConstraint) (l : Limits)
    → require dd daily portfolio trade ≡ Required.complete l
    → (dd ≡ some l.total_drawdown)
      × (daily ≡ some l.daily_loss)
      × (portfolio ≡ some l.portfolio_risk)
      × (trade ≡ l.risk_per_trade)
unfolding require
require-complete dd daily portfolio trade l e = ground arith

required_limits-AreStrictest :
    (ctx : RiskContext) (l : Limits)
    → required_limits ctx ≡ Required.complete l
    → AreStrictest ctx l
unfolding required_limits
required_limits-AreStrictest ctx l e =
    let (dd, daily, portfolio, trade) = require-complete _ _ _ _ l e in
    record { drawdown = dd; daily = daily; portfolio = portfolio; trade = trade }

-- What is already at risk: the positions' loss to their stops and the active reservations.
abbrev pub existing_risk : RiskContext → ℕ → ℤ
existing_risk ctx reserved = pos reserved +ℤ sum_from (pos 0) ctx.active_reservations

-- The loss of the approved size at its stop, with the financing cost.
abbrev pub loss_of : CandidateTrade → ℕ → RiskResult → ℕ
loss_of c rate r = r.approved_size * rate + c.financing_cost

-- An exposure that is finite and stays within a cap with a loss on top.
abbrev pub HasRoom : Extended → ℤ → ℕ → Type 0
HasRoom (finite e) cap loss = e +ℤ pos loss ≤ℤ cap
HasRoom infinity cap loss = ⊥

left_under-HasRoom :
    (e : Extended) (cap : ℤ) (loss : ℕ)
    → 0 < loss
    → pos loss ≤ℤ pos (left_under cap e)
    → HasRoom e cap loss
left_under-HasRoom (finite e) cap loss h k = room_within cap e loss h k
left_under-HasRoom infinity cap loss h k = omega (arith, h, k)

correlation_remaining-HasRoom :
    (base : Exposure) (caps : Dict Group ℤ) (loss : ℕ)
    → 0 < loss
    → All (λ v. pos loss ≤ℤ v) (correlation_remaining base caps)
    → All (λ cap. HasRoom (exposure_of cap.0 base) cap.1 loss) caps
unfolding correlation_remaining
correlation_remaining-HasRoom base [] loss h k = tt
correlation_remaining-HasRoom base ((g, cap) ∷ caps) loss h (k, ks) = (
  left_under-HasRoom (exposure_of g base) cap loss h k,
  correlation_remaining-HasRoom base caps loss h ks,
)

-- An approved size, with its loss from the candidate's own rate or from its typed terms.
pub record IsAuthorized (ctx : RiskContext) (c : CandidateTrade) (r : RiskResult) : Type 0 where
  pub reserved : ℕ
  pub rate : ℕ
  pub base : Exposure
  pub rated : rate_of c.identity.instrument_type c ≡ ok rate
  pub exposed : position_exposure ctx.positions ≡ ok base
  pub bounded : reserved_risk ctx.positions ctx.include_unrealized_profit ≡ some reserved
  pub drawdown :
      IsAllowed ctx ConstraintKind.max_total_drawdown
        (pos (drawdown_of ctx) +ℤ pos (loss_of c rate r))
  pub daily :
      IsAllowed ctx ConstraintKind.max_daily_loss (pos (daily_of ctx) +ℤ pos (loss_of c rate r))
  pub portfolio :
      IsAllowed ctx ConstraintKind.max_portfolio_risk
        (existing_risk ctx reserved +ℤ pos (loss_of c rate r))
  pub trade : IsAllowed ctx ConstraintKind.max_risk_per_trade (pos (loss_of c rate r))
  pub after :
      r.snapshot.portfolio_risk_after_trade
      ≡ finite (existing_risk ctx reserved +ℤ pos (loss_of c rate r))
  pub correlated :
      All (λ cap. HasRoom (exposure_of cap.0 base) cap.1 (loss_of c rate r)) ctx.correlation_caps
  pub reported : r.snapshot.candidate_trade_risk ≡ loss_of c rate r
  pub size : r.approved_size ≤ c.requested_size
  pub slots : length ctx.positions < ctx.static_max_concurrent_trades

-- For a candidate with a positive size increment, a result with a positive approved size is
-- authorized: every open position has a stop, and the exposure of the positions is computed. The
-- loss is the approved size at the candidate's loss for one unit, its own or that of its typed
-- terms, plus the financing cost. With this loss on top, the drawdown, the daily loss and the open
-- risk keep every hard constraint of their kinds, and the exposure of each group with a cap that
-- cap; the loss keeps every hard constraint on a single trade, and is the reported one, alone and
-- on top of the open risk. The size is at most the requested one, and a slot was free.
pub evaluate-IsAuthorized :
    (ctx : RiskContext) (c : CandidateTrade) (r : RiskResult)
    → 0 < c.size_increment
    → evaluate ctx c ≡ ok r
    → 0 < r.approved_size
    → IsAuthorized ctx c r
evaluate-IsAuthorized ctx c r hi e ha = go (evaluate-cases ctx c r e)
  where
    trade_bound :
        (v : ℤ) (o : Option EffectiveConstraint) → All (λ w. v ≤ℤ w) (trade_cap o) → BoundedBy v o
    trade_bound v none h = tt
    trade_bound v (some c) h = h.0

    go : IsBlocked r ⊎ IsSized ctx c r → IsAuthorized ctx c r
    go (inl b) = absurd (omega (arith, ha, b.size))
    go (inr s) =
        let g =
          evaluate_existing-Guarantee ctx (record c { risk_per_unit = s.rate }) s.limits
            (existing_risk ctx s.reserved) r hi s.reported ha in
        let cost : r.snapshot.candidate_trade_risk ≡ loss_of c s.rate r = g.cost in
        let risk = pos (loss_of c s.rate r) in
        let within : IsWithin ctx s.limits (existing_risk ctx s.reserved) g.base
            (loss_of c s.rate r) =
          rw (← cost) g.within in
        let strict = required_limits-AreStrictest ctx s.limits s.required in
        record {
          reserved = s.reserved;
          rate = s.rate;
          base = g.base;
          rated = s.rated;
          exposed = g.exposed;
          bounded = s.bounded;
          drawdown =
              bounded-IsAllowed ctx ConstraintKind.max_total_drawdown
                (pos (drawdown_of ctx) +ℤ risk) (rw strict.drawdown within.drawdown);
          daily =
              bounded-IsAllowed ctx ConstraintKind.max_daily_loss (pos (daily_of ctx) +ℤ risk)
                (rw strict.daily within.daily);
          portfolio =
              bounded-IsAllowed ctx ConstraintKind.max_portfolio_risk
                (existing_risk ctx s.reserved +ℤ risk) (rw strict.portfolio within.portfolio);
          trade =
              bounded-IsAllowed ctx ConstraintKind.max_risk_per_trade risk
                (rw strict.trade (trade_bound risk s.limits.risk_per_trade within.trade));
          after = rw (← cost) g.after;
          correlated =
              correlation_remaining-HasRoom g.base ctx.correlation_caps (loss_of c s.rate r)
                (rw (← cost) g.positive) within.correlated;
          reported = cost;
          size = g.size;
          slots = g.slots;
        }
