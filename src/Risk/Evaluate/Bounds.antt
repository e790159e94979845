-- ===== src/Risk/Evaluate/Bounds.antt =====
-- What an approved size costs (modules/risk/engine.py): never more than any applicable capacity.
use matrades.Common.{
  ℕ, refl, Bool, true, false, not, ◌+◌, ◌*◌, ◌≤◌, ◌<◌, ◌≡◌, sym, ap, List, ◌∷◌, arith, All, All-map,
  All-of-map, All-split, map, length, lt→ltb,
}
use matrades.Common.Int.{ℤ, pos, pos_part, neg_part, ◌+ℤ◌, ◌-ℤ◌, ◌≤ℤ◌, int_laws, max_ℤ, minimum}
use matrades.Common.Result.{ok, >>=-eq-ok, ok-injective, raise_if-passed}
use matrades.Risk.Models.{CandidateTrade, RiskContext, RiskResult, finite}
use matrades.Risk.Financial.{clip, compliant_size, size_for_risk}
use matrades.Risk.Sizing.{compliant_size-fits}
use matrades.Risk.Exposure.{Exposure, position_exposure, aggregate_exposure, all_finite}
use matrades.Risk.Engine.{
  Limits, Room, room_of, other_capacities, net, decide, notional_of, approved_risk, drawdown_of,
  daily_of, requested_risk, trade_cap, correlation_remaining,
}
use matrades.Risk.Evaluate.{report, sized, evaluate_existing}
use matrades.Risk.Evaluate.Cases.{IsExposed}

-- What a report says of the size it was given.
pub record Reports (ctx : RiskContext) (c : CandidateTrade) (room : Room) (existing : ℤ)
    (base : Exposure) (size : ℕ) (r : RiskResult) : Type 0 where
  pub decision : r.decision ≡ (decide ctx c size).0
  pub approved : r.approved_size ≡ (decide ctx c size).1
  risk : r.snapshot.candidate_trade_risk ≡ approved_risk c size
  after : r.snapshot.portfolio_risk_after_trade ≡ finite (existing +ℤ pos (approved_risk c size))
  drawdown : r.snapshot.remaining_drawdown ≡ room.remaining_dd
  daily : r.snapshot.daily_loss_remaining ≡ room.remaining_daily
  portfolio : r.snapshot.remaining_portfolio_risk_capacity ≡ room.remaining_portfolio
  pub exposed : all_finite base ≡ true

pub report-Reports :
    (ctx : RiskContext) (c : CandidateTrade) (limits : Limits) (room : Room) (existing : ℤ)
    (base exposures : Exposure) (size : ℕ) (r : RiskResult)
    → report ctx c limits room existing base exposures size ≡ ok r
    → Reports ctx c room existing base size r
unfolding report
report-Reports ctx c limits room existing base exposures size r e =
    let (notional, p, q) = >>=-eq-ok (notional_of c (decide ctx c size).1) _ e in
    let (checked, built) = raise_if-passed _ _ _ q in
    let s = ok-injective built in
    record {
      decision = sym (ap (λ x. x.decision) s);
      approved = sym (ap (λ x. x.approved_size) s);
      risk = sym (ap (λ x. x.snapshot.candidate_trade_risk) s);
      after = sym (ap (λ x. x.snapshot.portfolio_risk_after_trade) s);
      drawdown = sym (ap (λ x. x.snapshot.remaining_drawdown) s);
      daily = sym (ap (λ x. x.snapshot.daily_loss_remaining) s);
      portfolio = sym (ap (λ x. x.snapshot.remaining_portfolio_risk_capacity) s);
      exposed = finite-all _ checked;
    }
  where
    finite-all : (b : Bool) → not b ≡ false → b ≡ true
    finite-all b h = ground arith

-- The exposure that a report was made of.
pub evaluate_existing-IsExposed :
    (ctx : RiskContext) (c : CandidateTrade) (limits : Limits) (existing : ℤ) (r : RiskResult)
    → evaluate_existing ctx c limits existing ≡ ok r
    → IsExposed ctx
unfolding evaluate_existing
evaluate_existing-IsExposed ctx c limits existing r e =
    let room = room_of ctx limits existing in
    let (exposures, e0, f0) =
      >>=-eq-ok (aggregate_exposure ctx.positions c (pos (requested_risk c))) _ e in
    let (base, e1, f1) = >>=-eq-ok (position_exposure ctx.positions) _ f0 in
    let (size, e2, f2) = >>=-eq-ok (sized ctx c limits room base) _ f1 in
    (base, e1, (report-Reports ctx c limits room existing base exposures size r f2).exposed)

-- A computed size is at most the requested one.
pub sized_le :
    (ctx : RiskContext) (c : CandidateTrade) (limits : Limits) (room : Room) (base : Exposure)
    (size : ℕ)
    → sized ctx c limits room base ≡ ok size
    → size ≤ c.requested_size
unfolding sized compliant_size
sized_le ctx c limits room base size e =
    let (fitting, p, q) =
      >>=-eq-ok
        (size_for_risk
          (max_ℤ (pos 0) (
            minimum (net c.financing_cost (pos room.remaining_dd))
              (map (net c.financing_cost) (other_capacities ctx limits room base))))
          (pos c.risk_per_unit) (pos c.size_increment))
        _ e in
    omega (arith, ok-injective q)

-- The fixed costs fit with the size, since they were taken off the capacity first.
net_fits :
    (size rate financing : ℕ) (cap : ℤ)
    → 0 < size
    → 0 < rate
    → size * rate ≤ pos_part (net financing cap)
    → pos (size * rate + financing) ≤ℤ cap
net_fits size rate financing cap hs hr h = grind (int_laws)

compliant_size-rate :
    (requested rate increment : ℕ) (v : ℤ) (vs : List ℤ) {size : ℕ}
    → compliant_size requested rate (v ∷ vs) increment ≡ ok size
    → 0 < size
    → 0 < rate
unfolding compliant_size
compliant_size-rate requested rate increment v vs e h = ground arith

-- A size that was computed costs, with its fixed costs, no more than any capacity.
pub sized-fits :
    (ctx : RiskContext) (c : CandidateTrade) (limits : Limits) (room : Room) (base : Exposure)
    (size : ℕ)
    → 0 < c.size_increment
    → sized ctx c limits room base ≡ ok size
    → 0 < size
    → (size ≤ c.requested_size)
      × All
          (λ cap. pos (approved_risk c size) ≤ℤ cap)
          (pos room.remaining_dd ∷ other_capacities ctx limits room base)
unfolding sized
sized-fits ctx c limits room base size hi e hs =
    let first = net c.financing_cost (pos room.remaining_dd) in
    let rest = map (net c.financing_cost) (other_capacities ctx limits room base) in
    let (le, fits) =
      compliant_size-fits c.requested_size c.risk_per_unit c.size_increment first rest hi e in
    let rate =
      compliant_size-rate c.requested_size c.risk_per_unit c.size_increment first rest e hs in
    (
      le,
      All-map (pos room.remaining_dd ∷ other_capacities ctx limits room base)
          (λ cap h.
            rw (lt→ltb 0 size hs) (net_fits size c.risk_per_unit c.financing_cost cap hs rate h))
          (All-of-map _ (net c.financing_cost)
            (pos room.remaining_dd ∷ other_capacities ctx limits room base) fits),
    )

-- A size that stays approved is the size that was computed.
pub decide-approved :
    (ctx : RiskContext) (c : CandidateTrade) (size : ℕ)
    → 0 < (decide ctx c size).1
    → ((decide ctx c size).1 ≡ size) × (length ctx.positions < ctx.static_max_concurrent_trades)
unfolding decide
decide-approved ctx c size h = ground arith

-- The evaluation behind an approved size: the risk of the trade on top of what is already at risk.
pub record IsWithin (ctx : RiskContext) (limits : Limits) (existing : ℤ) (base : Exposure)
    (risk : ℕ) : Type 0 where
  pub drawdown : pos (drawdown_of ctx) +ℤ pos risk ≤ℤ limits.total_drawdown.value
  pub daily : pos (daily_of ctx) +ℤ pos risk ≤ℤ limits.daily_loss.value
  pub portfolio : existing +ℤ pos risk ≤ℤ limits.portfolio_risk.value
  pub trade : All (λ v. pos risk ≤ℤ v) (trade_cap limits.risk_per_trade)
  pub correlated : All (λ v. pos risk ≤ℤ v) (correlation_remaining base ctx.correlation_caps)

one_sign : (a : ℤ) → 0 < pos_part a → neg_part a ≡ 0
one_sign a h = ground arith

pub room_within :
    (limit taken : ℤ) (risk : ℕ)
    → 0 < risk
    → pos risk ≤ℤ pos (clip (limit -ℤ taken))
    → taken +ℤ pos risk ≤ℤ limit
room_within limit taken risk hr h =
    omega (int_laws, one_sign (limit -ℤ taken) (omega (arith, hr, h)))

approved_risk-pos :
    (ctx : RiskContext) (c : CandidateTrade) (limits : Limits) (room : Room) (base : Exposure)
    (size : ℕ)
    → sized ctx c limits room base ≡ ok size
    → 0 < size
    → 0 < approved_risk c size
unfolding sized
approved_risk-pos ctx c limits room base size e hs =
    let rate = compliant_size-rate c.requested_size c.risk_per_unit c.size_increment _ _ e hs in
    grind arith

-- What the last stage guarantees of a size that it approves.
pub record Guarantee (ctx : RiskContext) (limits : Limits) (existing : ℤ) (c : CandidateTrade)
    (r : RiskResult) : Type 0 where
  pub base : Exposure
  pub exposed : position_exposure ctx.positions ≡ ok base
  pub within : IsWithin ctx limits existing base r.snapshot.candidate_trade_risk
  pub size : r.approved_size ≤ c.requested_size
  pub cost : r.snapshot.candidate_trade_risk ≡ r.approved_size * c.risk_per_unit + c.financing_cost
  pub positive : 0 < r.snapshot.candidate_trade_risk
  pub slots : length ctx.positions < ctx.static_max_concurrent_trades
  pub after :
      r.snapshot.portfolio_risk_after_trade
      ≡ finite (existing +ℤ pos r.snapshot.candidate_trade_risk)

pub evaluate_existing-Guarantee :
    (ctx : RiskContext) (c : CandidateTrade) (limits : Limits) (existing : ℤ) (r : RiskResult)
    → 0 < c.size_increment
    → evaluate_existing ctx c limits existing ≡ ok r
    → 0 < r.approved_size
    → Guarantee ctx limits existing c r
unfolding evaluate_existing other_capacities room_of
evaluate_existing-Guarantee ctx c limits existing r hi e ha =
    let room = room_of ctx limits existing in
    let (exposures, e0, f0) =
      >>=-eq-ok (aggregate_exposure ctx.positions c (pos (requested_risk c))) _ e in
    let (base, e1, f1) = >>=-eq-ok (position_exposure ctx.positions) _ f0 in
    let (size, e2, f2) = >>=-eq-ok (sized ctx c limits room base) _ f1 in
    let rep = report-Reports ctx c limits room existing base exposures size r f2 in
    let (same, slots) = decide-approved ctx c size (rw (← rep.approved) ha) in
    let hs : 0 < size = rw (← same, ← rep.approved) ha in
    let (le, fits) = sized-fits ctx c limits room base size hi e2 hs in
    let hr = approved_risk-pos ctx c limits room base size e2 hs in
    let (trade, correlated) =
      All-split (λ v. pos (approved_risk c size) ≤ℤ v) (trade_cap limits.risk_per_trade)
        (correlation_remaining base ctx.correlation_caps) fits.1.1.1 in
    record {
      base = base;
      exposed = e1;
      within = rw rep.risk (record {
        drawdown = room_within limits.total_drawdown.value _ _ hr fits.0;
        daily = room_within limits.daily_loss.value _ _ hr fits.1.0;
        portfolio = room_within limits.portfolio_risk.value _ _ hr fits.1.1.0;
        trade = trade;
        correlated = correlated;
      });
      size = rw (rep.approved, same) le;
      cost = rw (rep.risk, rep.approved, same, lt→ltb 0 size hs) refl;
      positive = rw rep.risk hr;
      slots = slots;
      after = rw rep.risk rep.after;
    }
