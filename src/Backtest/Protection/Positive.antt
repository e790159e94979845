-- ===== src/Backtest/Protection/Positive.antt =====
-- The risk of simulated trades (modules/backtesting/protection.py), for levels whose stop is on the losing
-- side of the entry, and the account that takes the trades (modules/backtesting/engine.py).
use matrades.Common.{
  ℕ, ◌<◌, ◌≡◌, refl, sym, subst, inl, inr, Bool, true, false, ◌&&◌, some, List, [], ◌∷◌, map, arith,
  length, leb, ltb, nat_beq, if◌then◌else◌, Bool-cases, All, All-map,
}
use matrades.Common.Int.{ℤ, ◌-ℤ◌, ◌<ℤ◌, abs_ℤ, int_laws}
use matrades.Common.Result.{ok}
use matrades.Backtest.{Direction, BacktestCandle, BacktestConfiguration, TradeResult}
use matrades.Backtest.Protection.{
  Signals, Management, Fill, Exit, Position, signed, fills_of, apply_fill, apply_fills, break_even,
  observe, fill_bar, hold_bar,
}
use matrades.Backtest.Protection.Loop.{Simulation, simulate_protected_trades}
use matrades.Backtest.Protection.Invariants.{Satisfies, simulate_protected_trades-Satisfies}
use matrades.Backtest.Metrics.{
  Decimals, account_pnl, AccountCurve, AccountMetrics, account_step, account_from, no_account,
  account_report, risk_normalized_account_metrics,
}

-- What the simulation relies on: levels put the stop on the losing side of the entry.
abbrev pub ProtectsLevels : Signals → Direction → Type 0
ProtectsLevels s d =
    (index : ℕ) (entry stop : ℤ) (targets : List ℤ)
    → s.levels index entry ≡ some (stop, targets)
    → signed d stop <ℤ signed d entry

abbrev pub HasRisk : Position → Type 0
HasRisk p = 0 < p.risk

apply_fills-HasRisk :
    (slippage : ℕ) (d : Direction) (c : BacktestCandle) (fs : List Fill) (p : Position)
    → HasRisk p
    → HasRisk (apply_fills slippage d c fs p)
apply_fills-HasRisk slippage d c [] p h = h
apply_fills-HasRisk slippage d c (f ∷ fs) p h =
    apply_fills-HasRisk slippage d c fs (apply_fill slippage d c f p) h

stop-HasRisk :
    (test : Bool) (stop : ℤ) (p : Position)
    → HasRisk p
    → HasRisk (if test then record p { stop = stop } else p)
stop-HasRisk true stop p h = h
stop-HasRisk false stop p h = h

hold_bar-HasRisk :
    (slippage : ℕ) (m : Management) (exits_now is_last : Bool) (c : BacktestCandle) (p : Position)
    → HasRisk p
    → HasRisk (hold_bar slippage m exits_now is_last c p)
unfolding hold_bar
hold_bar-HasRisk slippage m exits_now is_last c p h =
    let seen = observe m.direction c p in
    let (fills, i, left) = fills_of m exits_now is_last c seen in
    let filled_p = fill_bar slippage m exits_now is_last c p in
    let h' =
      apply_fills-HasRisk slippage m.direction c fills
        (record seen { target_index = i; targets_left = left }) h in
    elim (Bool-cases (ltb 0 filled_p.remaining)) [
      | inr t ↦ rw t h'
      | inl t ↦ rw t (
          stop-HasRisk m.trailing_stop _ (break_even m filled_p)
            (stop-HasRisk (ltb 0 filled_p.target_index && m.move_to_break_even) _ filled_p h'))
    ]

opened-HasRisk :
    (d : Direction) (entry stop : ℤ) → signed d stop <ℤ signed d entry → 0 < abs_ℤ (entry -ℤ stop)
opened-HasRisk Direction.long entry stop h = omega (int_laws, h)
opened-HasRisk Direction.short entry stop h = omega (int_laws, h)

pub simulate_protected_trades-HasRisk :
    (s : Signals) (m : Management) (cfg : BacktestConfiguration) (candles : List BacktestCandle)
    → ProtectsLevels s m.direction
    → Satisfies HasRisk cfg (simulate_protected_trades s m cfg candles)
simulate_protected_trades-HasRisk s m cfg candles law =
    simulate_protected_trades-Satisfies s m cfg HasRisk
      (λ index entry stop targets c e.
        opened-HasRisk m.direction entry stop (law index entry stop targets e))
      (λ exits_now is_last c p. hold_bar-HasRisk cfg.slippage m exits_now is_last c p) candles

-- `exits[-1]["observed_at"]`
abbrev pub exited_at : ℕ → List Exit → ℕ
exited_at entered [] = entered
exited_at entered (e ∷ es) = exited_at e.observed_at es

abbrev pub results_of : Simulation → List TradeResult
results_of result = map (λ x. x.1) result.0

abbrev pub exit_times_of : Simulation → List ℕ
exit_times_of result = map (λ x. exited_at x.0.entered_at x.0.exits) result.0

account_from-returns :
    (decimal : Decimals) (risk_percent : ℤ) (day : ℕ → ℕ) (k : AccountCurve)
    (trades : List (Position × TradeResult))
    → All (λ x. 0 < x.1.risk) trades
    → (k' : AccountCurve) × (account_from decimal risk_percent day k
          (map (λ x. x.1) trades)
          (map (λ x. exited_at x.0.entered_at x.0.exits) trades)
        ≡ ok k')
unfolding account_from
account_from-returns decimal risk_percent day k [] h = (k, refl)
account_from-returns decimal risk_percent day k ((p, r) ∷ trades) (risk, h) =
    rw (positive r.risk risk) (
      account_from-returns decimal risk_percent day
        (account_step decimal risk_percent day (account_pnl decimal risk_percent r k.equity)
          (exited_at p.entered_at p.exits) k)
        trades h)
  where
    positive : (n : ℕ) → 0 < n → leb n 0 ≡ false
    positive n h = ground arith

-- For levels that put the stop on the losing side, the account of the trades of a simulation is always
-- reported: no trade has a risk of zero, and there is one exit for each trade.
pub simulated_account-returns :
    (s : Signals) (m : Management) (cfg : BacktestConfiguration) (candles : List BacktestCandle)
    (decimal : Decimals) (risk_percent : ℤ) (day : ℕ → ℕ)
    → ProtectsLevels s m.direction
    → (report : AccountMetrics) × (risk_normalized_account_metrics decimal risk_percent day
          (results_of (simulate_protected_trades s m cfg candles))
          (exit_times_of (simulate_protected_trades s m cfg candles))
          cfg
        ≡ ok report)
unfolding risk_normalized_account_metrics
simulated_account-returns s m cfg candles decimal risk_percent day law =
    let result = simulate_protected_trades s m cfg candles in
    let satisfied = (simulate_protected_trades-HasRisk s m cfg candles law).0 in
    let (k, e) =
      account_from-returns decimal risk_percent day (no_account decimal risk_percent day cfg)
        result.0
        (All-map result.0 (λ x (risk, closed, same). subst (λ r. 0 < r.risk) (sym same) risk)
          satisfied) in
    (account_report decimal risk_percent day cfg k, rw (same_length result.0, e) refl)
  where
    same_length :
        (l : List (Position × TradeResult))
        → nat_beq
            (length (map (λ x. x.1) l))
            (length (map (λ x. exited_at x.0.entered_at x.0.exits) l))
          ≡ true
    same_length [] = refl
    same_length (x ∷ l) = ground (arith, same_length l)
