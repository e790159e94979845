-- ===== src/Trading/Plans/Lifecycle.antt =====
-- The lifecycle of a Trade Plan under `transition_trade_plan` (modules/trading/trade_plans.py).
use matrades.Common.{ℕ, ◌+◌, ◌≤◌, ◌≡◌, refl, inl, inr, true, arith, Bool-cases}
use matrades.Common.Result.{Result, ok, err, ok-injective}
use matrades.Domain.{TradePlanState}
use matrades.Trading.Models.{TradePlan}
use matrades.Trading.Plans.{may_become, same_state, PlanError, transition_trade_plan}

-- Successful transitions of a plan, one after the other.
pub data Transitions (p : TradePlan) : TradePlan → Type 0 where
  started : Transitions p p
  moved :
      {q r : TradePlan} (target : TradePlanState)
      → Transitions p q
      → transition_trade_plan q target ≡ ok r
      → Transitions p r

-- How far a state is in the lifecycle.
abbrev pub progress : TradePlanState → ℕ
progress TradePlanState.constructed = 0
progress TradePlanState.validating = 1
progress TradePlanState.ready = 2
progress TradePlanState.authorized = 3
progress TradePlanState.execution_pending = 4
progress TradePlanState.executing = 5
progress TradePlanState.active = 6
progress _ = 7

may_become-progress : (a b : TradePlanState) → may_become a b ≡ true → progress a + 1 ≤ progress b
may_become-progress a b h = ground arith

transition-progress :
    (p q : TradePlan) (target : TradePlanState)
    → transition_trade_plan p target ≡ ok q
    → (progress p.state + q.version ≤ progress q.state + p.version)
      × (p.version ≤ q.version)
      × (q ≡ record p { state = q.state; version = q.version })
unfolding transition_trade_plan
transition-progress p q target e = elim (Bool-cases (same_state target p.state)) [
  | inl t ↦ rw (← ok-injective (rw t at e)) (omega arith, omega arith, refl)
  | inr t ↦ elim (Bool-cases (may_become p.state target)) [
    | inl m ↦
        let further = may_become-progress p.state target m in
        rw (← ok-injective (rw (t, m) at e)) (omega arith, omega arith, refl)
    | inr m ↦ absurd (err-ne-ok (rw (t, m) at e))
  ]
]
  where
    err-ne-ok : {x : PlanError} → ¬ (◌≡◌ {A = Result PlanError TradePlan} (err x) (ok q))
    err-ne-ok h = cc

-- After any sequence of successful transitions a plan differs in its state and its version only, and
-- each increase of the version has taken the state further in the lifecycle: its progress has grown
-- by at least as much as its version, which has not decreased.
pub Transitions-progress :
    {p q : TradePlan}
    → Transitions p q
    → (progress p.state + q.version ≤ progress q.state + p.version)
      × (p.version ≤ q.version)
      × (q ≡ record p { state = q.state; version = q.version })
Transitions-progress started = (omega arith, omega arith, refl)
Transitions-progress {p} {q = r} (moved {q} target before e) =
    let (far, newer, same) = Transitions-progress before in
    let (far', newer', same') = transition-progress q r target e in (omega arith, omega arith, cc)
