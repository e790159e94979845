-- ===== src/Strategies/Lifecycle.antt =====
-- The lifecycle of a strategy (modules/strategies/lifecycle.py).
use matrades.Common.{
  ℕ, suc, ◌≤◌, ◌≡◌, refl, Bool, true, false, List, [], ◌∷◌, arith, any, nat_beq, if◌then◌else◌,
  Bool-cases, inl, inr,
}
use matrades.Common.Result.{Result, ok, err, ok-injective}

pub data StrategyState : Type 0 where
  draft specified implemented backtesting validating paper_trading approved active degraded :
      StrategyState
  suspended retired : StrategyState

-- `target in ALLOWED.get(current, set())`
unfoldable pub is_allowed : StrategyState → StrategyState → Bool
is_allowed StrategyState.draft StrategyState.specified = true
is_allowed StrategyState.specified StrategyState.implemented = true
is_allowed StrategyState.implemented StrategyState.backtesting = true
is_allowed StrategyState.backtesting StrategyState.validating = true
is_allowed StrategyState.validating StrategyState.paper_trading = true
is_allowed StrategyState.paper_trading StrategyState.approved = true
is_allowed StrategyState.approved StrategyState.active = true
is_allowed StrategyState.active StrategyState.degraded = true
is_allowed StrategyState.active StrategyState.suspended = true
is_allowed StrategyState.active StrategyState.retired = true
is_allowed StrategyState.degraded StrategyState.active = true
is_allowed StrategyState.degraded StrategyState.suspended = true
is_allowed StrategyState.degraded StrategyState.retired = true
is_allowed StrategyState.suspended StrategyState.active = true
is_allowed StrategyState.suspended StrategyState.retired = true
is_allowed _ _ = false

pub data LifecycleError : Type 0 where
  illegal_transition : LifecycleError

unfoldable pub transition : StrategyState → StrategyState → Result LifecycleError StrategyState
unfolding is_allowed
transition current target =
    if is_allowed current target then ok target else err LifecycleError.illegal_transition

-- The states before release in their order; all states after it are released.
abbrev pub stage : StrategyState → ℕ
stage StrategyState.draft = 0
stage StrategyState.specified = 1
stage StrategyState.implemented = 2
stage StrategyState.backtesting = 3
stage StrategyState.validating = 4
stage StrategyState.paper_trading = 5
stage StrategyState.approved = 6
stage _ = 7

is_allowed-stage : (a b : StrategyState) → is_allowed a b ≡ true → stage b ≤ suc (stage a)
unfolding is_allowed
is_allowed-stage a b h = ground arith

-- The states of a strategy that moved by `transition` alone, the newest first.
pub data History : List StrategyState → StrategyState → Type 0 where
  drafted : History (StrategyState.draft ∷ []) StrategyState.draft
  moved :
      {past : List StrategyState} {s r : StrategyState}
      → History past s
      → (target : StrategyState) → transition s target ≡ ok r
      → History (r ∷ past) r

transition-stage :
    (s target r : StrategyState) → transition s target ≡ ok r → stage r ≤ suc (stage s)
unfolding transition
transition-stage s target r e = elim (Bool-cases (is_allowed s target)) [
  | inl t ↦ rw (← ok-injective (rw t at e)) (is_allowed-stage s target t)
  | inr t ↦ absurd (err-ne-ok (rw t at e))
]
  where
    err-ne-ok : ¬ (
        ◌≡◌ {A = Result LifecycleError StrategyState}
          (err LifecycleError.illegal_transition)
          (ok r))
    err-ne-ok h = cc

-- A strategy has been in a state of each stage up to its own: one that is active has been specified,
-- implemented, backtested, validated, traded on paper and approved, since each stage before release is one
-- state.
pub History-stages :
    {past : List StrategyState} {s : StrategyState} (k : ℕ)
    → History past s
    → k ≤ stage s
    → any (λ x. nat_beq (stage x) k) past ≡ true
History-stages k drafted h = ground arith
History-stages {s = r} k (moved {past = past} {s = s} before target e) h =
    elim (Bool-cases (nat_beq (stage r) k)) [
      | inl t ↦ rw t refl
      | inr t ↦ rw t (
          History-stages k before (earlier (stage r) (stage s) t h (transition-stage s target r e)))
    ]
  where
    earlier : (a b : ℕ) → nat_beq a k ≡ false → k ≤ a → a ≤ suc b → k ≤ b
    earlier a b t p q = ground arith
