-- ===== src/Backtest/Metrics.antt =====
-- The metrics of simulated trades (modules/backtesting/ledger.py) and of the account that takes them
-- (modules/backtesting/engine.py). A quotient is kept as its numerator and denominator.
pub mod Drawdown
pub mod Account
use matrades.Common.{
  ℕ, suc, ◌+◌, Bool, true, false, ◌&&◌, Option, none, some, List, [], ◌∷◌, ◌++◌, map, length,
  filter, all, max, leb, ltb, nat_beq, if◌then◌else◌, nat_eq,
}
use matrades.Common.Int.{ℤ, pos, ◌+ℤ◌, ◌-ℤ◌, neg_ℤ, ltb_ℤ, leb_ℤ, abs_ℤ, max_ℤ, sum_from}
use matrades.Common.Dict.{Dict, lookup, insert, values}
use matrades.Common.Result.{Result, ok, err}
use matrades.Backtest.{BacktestConfiguration, TradeResult}

pub record Quotient : Type 0 where
  pub numerator : ℤ
  pub denominator : ℕ

-- The loop of `metrics` over the trades.
pub record Curve : Type 0 where
  pub equity : ℤ
  pub peak : ℤ
  pub max_drawdown : ℤ
  pub win_streak : ℕ
  pub loss_streak : ℕ
  pub max_win_streak : ℕ
  pub max_loss_streak : ℕ

abbrev pub is_win : ℤ → Bool
is_win pnl = ltb_ℤ (pos 0) pnl

abbrev pub is_loss : ℤ → Bool
is_loss pnl = ltb_ℤ pnl (pos 0)

abbrev pub curve_step : ℤ → Curve → Curve
curve_step pnl k =
    let equity = k.equity +ℤ pnl in
    let peak = max_ℤ k.peak equity in
    let wins = if is_win pnl then suc k.win_streak else if is_loss pnl then 0 else k.win_streak in
    let losses =
      if is_win pnl then 0 else if is_loss pnl then suc k.loss_streak else k.loss_streak in
    record {
      equity = equity;
      peak = peak;
      max_drawdown = max_ℤ k.max_drawdown (peak -ℤ equity);
      win_streak = wins;
      loss_streak = losses;
      max_win_streak = max k.max_win_streak wins;
      max_loss_streak = max k.max_loss_streak losses;
    }

unfoldable pub curve_from : Curve → List ℤ → Curve
curve_from k [] = k
curve_from k (pnl ∷ later) = curve_from (curve_step pnl k) later

abbrev pub no_curve : Curve
no_curve = record {
  equity = pos 0;
  peak = pos 0;
  max_drawdown = pos 0;
  win_streak = 0;
  loss_streak = 0;
  max_win_streak = 0;
  max_loss_streak = 0;
}

-- `r` is the sum of the quotients listed, over the number of trades.
pub record MetricValues : Type 0 where
  pub trade_count : ℕ
  pub win_rate : Quotient
  pub expectancy : Quotient
  pub r_terms : List Quotient
  pub max_drawdown : ℤ
  pub average_winner : Quotient
  pub average_loser : Quotient
  pub profit_factor : Quotient
  pub mae : Quotient
  pub mfe : Quotient
  pub max_win_streak : ℕ
  pub max_loss_streak : ℕ

abbrev pub over : ℤ → ℕ → Quotient
over numerator denominator = record { numerator = numerator; denominator = denominator }

-- `a / b if b else Decimal("0")`
abbrev pub over_or_zero : ℤ → ℕ → Quotient
over_or_zero numerator denominator =
    if nat_beq denominator 0 then over (pos 0) 1 else over numerator denominator

abbrev pub r_terms_of : List TradeResult → List Quotient
r_terms_of [] = []
r_terms_of (t ∷ ts) = if ltb 0 t.risk then over t.pnl t.risk ∷ r_terms_of ts else r_terms_of ts

unfoldable pub metrics : List TradeResult → MetricValues
unfolding curve_from
metrics trades =
    let pnls = map (λ t. t.pnl) trades in
    let count = length trades in
    let winners = filter is_win pnls in
    let losers = filter is_loss pnls in
    let curve = curve_from no_curve pnls in
    let gross_profit = sum_from (pos 0) winners in
    let gross_loss = abs_ℤ (sum_from (pos 0) losers) in
    record {
      trade_count = count;
      win_rate = over_or_zero (pos (length winners)) count;
      expectancy = over_or_zero (sum_from (pos 0) pnls) count;
      r_terms = r_terms_of trades;
      max_drawdown = curve.max_drawdown;
      average_winner = over_or_zero gross_profit (length winners);
      average_loser = over_or_zero (sum_from (pos 0) losers) (length losers);
      profit_factor = over_or_zero gross_profit gross_loss;
      mae = over_or_zero (sum_from (pos 0) (map (λ t. t.mae) trades)) count;
      mfe = over_or_zero (sum_from (pos 0) (map (λ t. t.mfe) trades)) count;
      max_win_streak = curve.max_win_streak;
      max_loss_streak = curve.max_loss_streak;
    }

pub data AccountError : Type 0 where
  exits_do_not_match risk_not_positive : AccountError

-- The loop of `risk_normalized_account_metrics`.
pub record AccountCurve : Type 0 where
  pub account_pnls : List ℤ
  pub equity : ℤ
  pub peak : ℤ
  pub max_drawdown : ℤ
  pub gross_profit : ℤ
  pub gross_loss : ℤ
  pub daily : Dict ℕ ℤ

pub record AccountMetrics : Type 0 where
  pub pnls : List ℤ
  pub net_profit : ℤ
  pub ending_equity : ℤ
  pub drawdown : ℤ
  pub profit : ℤ
  pub loss : ℤ
  pub policy_passed : Bool

abbrev pub day_total : Option ℤ → ℤ
day_total none = pos 0
day_total (some v) = v

-- Python's `decimal`, with its rounding, on whole numbers of one quantum; `of_int` gives an int.
pub record Decimals : Type 0 where
  pub divide : ℤ → ℤ → ℤ
  pub multiply : ℤ → ℤ → ℤ
  pub of_int : ℕ → ℤ

-- `trade.pnl / trade.risk * equity * risk_percent / 100`
unfoldable pub account_pnl : Decimals → ℤ → TradeResult → ℤ → ℤ
account_pnl decimal risk_percent trade equity =
    decimal.divide
      (decimal.multiply (decimal.multiply (decimal.divide trade.pnl (pos trade.risk)) equity)
        risk_percent)
      (decimal.of_int 100)

-- `day` is the day of an instant.
module _ (decimal : Decimals) (risk_percent : ℤ) (day : ℕ → ℕ) where
  abbrev pub account_step : ℤ → ℕ → AccountCurve → AccountCurve
  account_step pnl exit_time k =
      let equity = k.equity +ℤ pnl in
      let peak = max_ℤ k.peak equity in
      record {
        account_pnls = k.account_pnls ++ pnl ∷ [];
        equity = equity;
        peak = peak;
        max_drawdown = max_ℤ k.max_drawdown (peak -ℤ equity);
        gross_profit = k.gross_profit +ℤ max_ℤ (pos 0) pnl;
        gross_loss = k.gross_loss +ℤ max_ℤ (pos 0) (neg_ℤ pnl);
        daily = insert (day exit_time) (day_total (lookup (day exit_time) k.daily) +ℤ pnl) k.daily;
      }

  -- `zip(trades, exited_at, strict=True)`
  unfoldable pub account_from :
      AccountCurve → List TradeResult → List ℕ → Result AccountError AccountCurve
  account_from k [] [] = ok k
  account_from k [] (e ∷ es) = err AccountError.exits_do_not_match
  account_from k (t ∷ ts) [] = err AccountError.exits_do_not_match
  account_from k (t ∷ ts) (e ∷ es) =
      let rest =
        account_from (account_step (account_pnl decimal risk_percent t k.equity) e k) ts es in
      if leb t.risk 0 then err AccountError.risk_not_positive else rest

  abbrev pub no_account : BacktestConfiguration → AccountCurve
  no_account cfg = record {
    account_pnls = [];
    equity = cfg.initial_equity;
    peak = cfg.initial_equity;
    max_drawdown = pos 0;
    gross_profit = pos 0;
    gross_loss = pos 0;
    daily = [];
  }

  abbrev pub account_report : BacktestConfiguration → AccountCurve → AccountMetrics
  account_report cfg k = record {
    pnls = k.account_pnls;
    net_profit = k.equity -ℤ cfg.initial_equity;
    ending_equity = k.equity;
    drawdown = k.max_drawdown;
    profit = k.gross_profit;
    loss = k.gross_loss;
    policy_passed =
        leb_ℤ k.max_drawdown (pos cfg.max_total_loss)
        && all (λ v. leb_ℤ (neg_ℤ (pos cfg.max_daily_loss)) v) (values k.daily);
  }

  abbrev pub report_of :
      BacktestConfiguration → Result AccountError AccountCurve → Result AccountError AccountMetrics
  report_of cfg (ok k) = ok (account_report cfg k)
  report_of cfg (err e) = err e

  unfoldable pub risk_normalized_account_metrics :
      List TradeResult → List ℕ → BacktestConfiguration → Result AccountError AccountMetrics
  risk_normalized_account_metrics trades exited_at cfg =
      if nat_beq (length trades) (length exited_at)
      then report_of cfg (account_from (no_account cfg) trades exited_at)
      else err AccountError.exits_do_not_match
