-- ===== src/Strategies/Simulated.antt =====
-- A strategy's levels (modules/strategies/signals.py) in the simulation (modules/backtesting/protection.py)
-- and the account that takes its trades (modules/backtesting/engine.py).
use matrades.Common.{ℕ, ◌≡◌, refl, sym, subst, Bool, Option, some, List, some-injective}
use matrades.Common.Int.{ℤ}
use matrades.Common.Result.{Result, ok, err}
use matrades.Backtest.{BacktestCandle, BacktestConfiguration}
use matrades.Backtest.Protection.{Management}
use matrades.Backtest.Protection.Loop.{simulate_protected_trades}
use matrades.Backtest.Protection.Positive.{
  ProtectsLevels, results_of, exit_times_of, simulated_account-returns,
}
use matrades.Backtest.Metrics.{Decimals, AccountMetrics, risk_normalized_account_metrics}
use matrades.Strategies.Levels.{
  TradeRules, LevelError, protection_levels, or_skip, strategy_signals,
}
use matrades.Strategies.Levels.Protective.{IsValidRules, protection_levels-IsProtective}

module _ (rules : TradeRules) (tick_size : Option ℤ) (volatility : ℕ → ℤ)
    (entry_signal exit_signal : ℕ → Bool) where
  strategy_signals-ProtectsLevels :
      IsValidRules rules
      → ProtectsLevels
          (strategy_signals rules tick_size volatility entry_signal exit_signal)
          rules.direction
  strategy_signals-ProtectsLevels valid index entry stop targets e =
      (protection_levels-IsProtective rules entry (volatility index) tick_size stop targets valid
        (came (protection_levels rules entry (volatility index) tick_size) e)).0
    where
      came :
          (r : Result LevelError (ℤ × List ℤ))
          → or_skip r ≡ some (stop, targets)
          → r ≡ ok (stop, targets)
      came (ok levels) h = rw (some-injective h) refl
      came (err x) h = cc

  -- The account of the trades that the simulation of a strategy with valid rules makes is always reported,
  -- whatever its signals, its volatility, the tick and the candles are.
  pub simulated_strategy-returns :
      (m : Management) (cfg : BacktestConfiguration) (candles : List BacktestCandle)
      (decimal : Decimals) (risk_percent : ℤ) (day : ℕ → ℕ)
      → IsValidRules rules
      → m.direction ≡ rules.direction
      → (report : AccountMetrics) × (risk_normalized_account_metrics decimal risk_percent day
            (results_of (
              simulate_protected_trades
                (strategy_signals rules tick_size volatility entry_signal exit_signal)
                m
                cfg
                candles))
            (exit_times_of (
              simulate_protected_trades
                (strategy_signals rules tick_size volatility entry_signal exit_signal)
                m
                cfg
                candles))
            cfg
          ≡ ok report)
  simulated_strategy-returns m cfg candles decimal risk_percent day valid same =
      simulated_account-returns
        (strategy_signals rules tick_size volatility entry_signal exit_signal) m cfg candles decimal
        risk_percent day
        (subst
          (ProtectsLevels (strategy_signals rules tick_size volatility entry_signal exit_signal))
          (sym same) (strategy_signals-ProtectsLevels valid))
