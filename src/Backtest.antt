-- ===== src/Backtest.antt =====
-- The point-in-time backtester (modules/backtesting/): its candles, its configuration and its results.
-- Prices and money are whole numbers of a quantum, instants are whole microseconds.
pub mod Candles
pub mod Protection
pub mod Metrics
pub mod Costs
use matrades.Common.{ℕ}
use matrades.Common.Int.{ℤ}

-- `rules.direction`
pub data Direction : Type 0 where
  long short : Direction

pub record BacktestCandle : Type 0 where
  pub observed_at : ℕ
  pub open_price : ℤ
  pub high : ℤ
  pub low : ℤ
  pub close : ℤ

-- The fields that the simulation reads; pydantic keeps the costs from being negative.
pub record BacktestConfiguration : Type 0 where
  pub initial_equity : ℤ
  pub spread : ℕ
  pub commission : ℕ
  pub slippage : ℕ
  pub max_daily_loss : ℕ
  pub max_total_loss : ℕ

pub record TradeResult : Type 0 where
  pub pnl : ℤ
  pub risk : ℕ
  pub mae : ℤ
  pub mfe : ℤ
