-- ===== src/Tests/Backtest.antt =====
-- Runs of the backtester: the validation of candles, the simulation and the metrics.
use matrades.Common.{
  ◌*◌, ◌/◌, ℕ, ◌≤◌, ◌≡◌, ◌↔◌, refl, true, false, some, List, [], ◌∷◌, map, arith, length, All,
}
use matrades.Common.Int.{sub_ℕ, pos_part, neg_part, ℤ, pos, negsuc, ◌+ℤ◌, ◌-ℤ◌, neg_ℤ, scale_ℤ}
use matrades.Common.Result.{ok}
use matrades.Backtest.{Direction, BacktestCandle, BacktestConfiguration, TradeResult}
use matrades.Backtest.Candles.{timestamps, sorted, distinct, check_candles, validate_candles}
use matrades.Backtest.Candles.Chronology.{IsIncreasing}
use matrades.Backtest.Candles.Bounds.{IsBounded, validate_candles_iff}
use matrades.Backtest.Protection.{Signals, Management, take_targets, fills_of, hold_bar}
use matrades.Backtest.Protection.Loop.{hold, simulate_from, simulate_protected_trades}
use matrades.Backtest.Protection.Invariants.{Satisfies}
use matrades.Backtest.Protection.Whole.{IsAccounted, simulate_protected_trades-IsAccounted}
use matrades.Backtest.Protection.Stops.{IsProtected, simulate_protected_trades-IsProtected}
use matrades.Backtest.Protection.Enough.{simulate_from-enough}
use matrades.Backtest.Protection.Order.{IsOrdered, simulate_protected_trades-IsOrdered}
use matrades.Backtest.Metrics.{
  Decimals, AccountMetrics, account_pnl, account_from, metrics, risk_normalized_account_metrics,
}
use matrades.Backtest.Metrics.Drawdown.{IsLargestLoss, metrics-IsLargestLoss}
use matrades.Backtest.Metrics.Account.{IsAccount, risk_normalized_account_metrics-IsAccount}

abbrev candle : ℕ → ℕ → ℕ → ℕ → ℕ → BacktestCandle
candle observed_at open_price high low close = record {
  observed_at = observed_at;
  open_price = pos open_price;
  high = pos high;
  low = pos low;
  close = pos close;
}

-- An entry on the third bar, a first target on the fourth, a stop at break-even on the fifth, and an
-- entry on the sixth that is still open.
abbrev pub candles : List BacktestCandle
candles =
    candle 10 100 101 99 100
    ∷ candle 20 100 101 99 100
    ∷ candle 30 100 105 98 104
    ∷ candle 40 104 112 103 110
    ∷ candle 50 110 111 100 102
    ∷ candle 60 102 103 101 102
    ∷ []

abbrev signals : Signals
signals = record {
  entry_signal = λ index. true;
  exit_signal = λ index. false;
  levels = λ index entry. some (entry -ℤ pos 10, (entry +ℤ pos 10) ∷ (entry +ℤ pos 20) ∷ []);
}

abbrev pub management : Management
management = record {
  direction = Direction.long;
  move_to_break_even = true;
  trailing_stop = false;
  close_at_end = false;
}

abbrev pub configuration : BacktestConfiguration
configuration = record {
  initial_equity = pos 100;
  spread = 1;
  commission = 1;
  slippage = 1;
  max_daily_loss = 10;
  max_total_loss = 10;
}

validate-run : validate_candles 6 candles ≡ ok tt
unfolding validate_candles sorted distinct check_candles
validate-run = refl

validate_candles_iff_example :
    (validate_candles 6 candles ≡ ok tt)
    ↔ ((6 ≤ length candles) × IsIncreasing (timestamps candles) × All IsBounded candles)
validate_candles_iff_example = validate_candles_iff 6 candles

-- Half at the first target and half at the stop at break-even, after slippage and costs.
simulate-run :
    map (λ x. x.1.pnl) (simulate_protected_trades signals management configuration candles).0
    ≡ pos 20000000000000000000000000000 ∷ []
unfolding simulate_protected_trades simulate_from hold hold_bar fills_of take_targets scale_ℤ ◌+ℤ◌
    ◌-ℤ◌
simulate-run = refl

simulate_protected_trades-IsAccounted_example :
    Satisfies
      (IsAccounted Direction.long)
      configuration
      (simulate_protected_trades signals management configuration candles)
simulate_protected_trades-IsAccounted_example =
    simulate_protected_trades-IsAccounted signals management configuration candles

simulate_protected_trades-IsProtected_example :
    Satisfies
      (IsProtected Direction.long 1)
      configuration
      (simulate_protected_trades signals management configuration candles)
simulate_protected_trades-IsProtected_example =
    simulate_protected_trades-IsProtected signals management configuration candles

simulate_protected_trades-IsOrdered_example :
    IsOrdered
      (simulate_protected_trades signals management configuration candles).0
      (simulate_protected_trades signals management configuration candles).1
simulate_protected_trades-IsOrdered_example =
    simulate_protected_trades-IsOrdered signals management configuration 6 candles validate-run

simulate_from-enough_example :
    simulate_from 6 signals management configuration 2 candles
    ≡ simulate_from 60 signals management configuration 2 candles
simulate_from-enough_example =
    simulate_from-enough signals management configuration 6 60 2 candles (omega arith) (omega arith)

abbrev trade : ℤ → TradeResult
trade pnl = record { pnl = pnl; risk = 1; mae = pos 0; mfe = pos 0 }

abbrev trades : List TradeResult
trades = trade (pos 5) ∷ trade (negsuc 2) ∷ []

metrics-IsLargestLoss_example :
    IsLargestLoss (map (λ t. t.pnl) trades) (metrics trades).max_drawdown
metrics-IsLargestLoss_example = metrics-IsLargestLoss trades

-- Decimals whose quantum is one: quotients lose their fraction. The divisors and factors are positive.
abbrev pub decimals : Decimals
decimals = record {
  divide = λ a b. sub_ℕ (pos_part a / pos_part b) (neg_part a / pos_part b);
  multiply = λ a b. sub_ℕ (pos_part a * pos_part b) (neg_part a * pos_part b);
  of_int = λ n. pos n;
}

abbrev report : AccountMetrics
report = record {
  pnls = pos 5 ∷ negsuc 2 ∷ [];
  net_profit = pos 2;
  ending_equity = pos 102;
  drawdown = pos 3;
  profit = pos 5;
  loss = pos 3;
  policy_passed = true;
}

account-run :
    risk_normalized_account_metrics decimals (pos 1) (λ t. t) trades (1 ∷ 2 ∷ []) configuration
    ≡ ok report
unfolding risk_normalized_account_metrics account_from account_pnl ◌+ℤ◌ ◌-ℤ◌ neg_ℤ
account-run = refl

risk_normalized_account_metrics-IsAccount_example :
    IsAccount decimals (pos 1) (λ t. t) configuration trades (1 ∷ 2 ∷ []) report
risk_normalized_account_metrics-IsAccount_example =
    risk_normalized_account_metrics-IsAccount decimals (pos 1) (λ t. t) configuration trades
      (1 ∷ 2 ∷ []) report account-run
