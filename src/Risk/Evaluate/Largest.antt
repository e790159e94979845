-- ===== src/Risk/Evaluate/Largest.antt =====
-- A reduced size is the largest that the limits allow (modules/risk/engine.py).
use matrades.Common.{ℕ, ◌+◌, ◌*◌, ◌≤◌, ◌<◌, ◌≡◌, List, [], ◌∷◌, All, All-map, All-append, map}
use matrades.Common.Int.{ℤ, pos, pos_part, ◌+ℤ◌, ◌-ℤ◌, ◌≤ℤ◌, int_laws}
use matrades.Common.Result.{ok}
use matrades.Risk.Models.{CandidateTrade, RiskContext}
use matrades.Risk.Financial.{clip}
use matrades.Risk.Sizing.{compliant_size-next}
use matrades.Risk.Exposure.{Exposure}
use matrades.Risk.Engine.{
  Limits, room_of, other_capacities, net, drawdown_of, daily_of, trade_cap, correlation_remaining,
}
use matrades.Risk.Evaluate.{sized}
use matrades.Risk.Evaluate.Bounds.{IsWithin}

room_enough :
    (limit taken : ℤ) (loss : ℕ)
    → taken +ℤ pos loss ≤ℤ limit
    → pos loss ≤ℤ pos (clip (limit -ℤ taken))
room_enough limit taken loss h = omega (int_laws, split-sign limit taken loss h)
  where
    split-sign :
        (limit taken : ℤ) (loss : ℕ) → taken +ℤ pos loss ≤ℤ limit → loss ≤ pos_part (limit -ℤ taken)
    split-sign limit taken loss h = omega (int_laws, h)

net_leaves :
    (size rate financing : ℕ) (cap : ℤ)
    → pos (size * rate + financing) ≤ℤ cap
    → pos (size * rate) ≤ℤ net financing cap
net_leaves size rate financing cap h = grind (int_laws)

All-to-map : (P : ℤ → Type 0) (f : ℤ → ℤ) (xs : List ℤ) → All (λ x. P (f x)) xs → All P (map f xs)
All-to-map P f [] h = tt
All-to-map P f (x ∷ xs) (p, ps) = (p, All-to-map P f xs ps)

-- A positive size that is less than the requested one cannot grow by an increment: with the loss of the
-- larger size some limit is broken.
pub sized-next :
    (ctx : RiskContext) (c : CandidateTrade) (limits : Limits) (existing : ℤ) (base : Exposure)
    (size : ℕ)
    → sized ctx c limits (room_of ctx limits existing) base ≡ ok size
    → 0 < size
    → size < c.requested_size
    → ¬ IsWithin ctx limits existing base
        ((size + c.size_increment) * c.risk_per_unit + c.financing_cost)
unfolding sized other_capacities room_of
sized-next ctx c limits existing base size e hs less w =
    let loss = (size + c.size_increment) * c.risk_per_unit + c.financing_cost in
    let caps : List ℤ =
      pos (room_of ctx limits existing).remaining_dd
      ∷ other_capacities ctx limits (room_of ctx limits existing) base in
    let all : All (λ cap. pos loss ≤ℤ cap) caps = (
      room_enough limits.total_drawdown.value (pos (drawdown_of ctx)) loss w.drawdown,
      (
        room_enough limits.daily_loss.value (pos (daily_of ctx)) loss w.daily,
        (
          room_enough limits.portfolio_risk.value existing loss w.portfolio,
          All-append (λ cap. pos loss ≤ℤ cap) (trade_cap limits.risk_per_trade)
              (correlation_remaining base ctx.correlation_caps) w.trade w.correlated,
        ),
      ),
    ) in
    compliant_size-next c.requested_size c.risk_per_unit c.size_increment
      (net c.financing_cost (pos (room_of ctx limits existing).remaining_dd))
      (map (net c.financing_cost) (other_capacities ctx limits (room_of ctx limits existing) base))
      e hs less
      (All-to-map (λ v. pos ((size + c.size_increment) * c.risk_per_unit) ≤ℤ v)
        (net c.financing_cost) caps
        (All-map caps
          (λ cap h. net_leaves (size + c.size_increment) c.risk_per_unit c.financing_cost cap h)
          all))
