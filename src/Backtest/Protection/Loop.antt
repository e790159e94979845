-- ===== src/Backtest/Protection/Loop.antt =====
-- The two loops of `simulate_protected_trades` (modules/backtesting/protection.py). The outer loop runs on
-- fuel, one for each candle, and each of its rounds passes at least one candle.
-- The attribution of a trade is its position, without the regimes of its features. Trade rules are given.
use matrades.Common.{
  ℕ, zero, suc, ◌+◌, ◌*◌, ◌/◌, Bool, true, false, not, Option, none, some, List, [], ◌∷◌, length,
  ltb, if◌then◌else◌,
}
use matrades.Common.Int.{ℤ, pos, ◌+ℤ◌, ◌-ℤ◌, abs_ℤ, max_ℤ}
use matrades.Backtest.{BacktestCandle, BacktestConfiguration, TradeResult}
use matrades.Backtest.Protection.{Signals, Management, Position, one, signed, hold_bar}

abbrev pub is_last_bar : List BacktestCandle → Bool
is_last_bar [] = true
is_last_bar (c ∷ cs) = false

-- The inner loop, from the candle at `index`: the position, the next index and the candles from there.
unfoldable pub hold :
    Signals
    → Management
    → ℕ
    → ℕ
    → List BacktestCandle
    → Position
    → Position × ℕ × List BacktestCandle
unfolding hold_bar
hold s m slippage index [] p = (p, index, [])
hold s m slippage index (c ∷ cs) p =
    let p' = hold_bar slippage m (s.exit_signal index) (is_last_bar cs) c p in
    let rest = hold s m slippage (suc index) cs p' in
    if ltb 0 p'.remaining then rest else (p', suc index, cs)

abbrev pub opened : ℤ → ℤ → List ℤ → BacktestCandle → Position
opened entry stop targets c = record {
  entry = entry;
  stop = stop;
  original_stop = stop;
  risk = abs_ℤ (entry -ℤ stop);
  entered_at = c.observed_at;
  remaining = one;
  fraction = one / length targets;
  pnl = pos 0;
  exits = [];
  target_index = 0;
  targets_left = targets;
  adverse = pos 0;
  favorable = pos 0;
}

-- What the outer loop leaves: the closed positions in order, each with its result, and the position that
-- is open at the end.
abbrev pub Simulation : Type 0
Simulation = List (Position × TradeResult) × Option Position

abbrev pub result_of : BacktestConfiguration → Position → TradeResult
result_of cfg p = record {
  pnl = p.pnl -ℤ pos (one * (cfg.spread + cfg.commission));
  risk = p.risk;
  mae = max_ℤ p.adverse (pos 0);
  mfe = max_ℤ p.favorable (pos 0);
}

-- After the inner loop: `break` on an open position, or the trade and the rest of the outer loop.
abbrev pub record_trade : BacktestConfiguration → Position → Simulation → Simulation
record_trade cfg p rest =
    if ltb 0 p.remaining then ([], some p) else ((p, result_of cfg p) ∷ rest.0, rest.1)

-- The outer loop, from the candle at `index`, on fuel.
unfoldable pub simulate_from :
    ℕ → Signals → Management → BacktestConfiguration → ℕ → List BacktestCandle → Simulation
unfolding hold
simulate_from zero s m cfg index candles = ([], none)
simulate_from (suc fuel) s m cfg index [] = ([], none)
simulate_from (suc fuel) s m cfg index (c ∷ cs) =
    let skip = simulate_from fuel s m cfg (suc index) cs in
    let entry = c.open_price +ℤ signed m.direction (pos cfg.slippage) in
    if not (s.entry_signal index) then skip else elim (s.levels index entry) [
      | none ↦ skip
      | some (stop, targets) ↦
          let (p, index', left) =
            hold s m cfg.slippage index (c ∷ cs) (opened entry stop targets c) in
          record_trade cfg p (simulate_from fuel s m cfg index' left)
    ]

abbrev pub skip_two : List BacktestCandle → List BacktestCandle
skip_two [] = []
skip_two (c ∷ []) = []
skip_two (c ∷ d ∷ cs) = cs

unfoldable pub simulate_protected_trades :
    Signals → Management → BacktestConfiguration → List BacktestCandle → Simulation
unfolding simulate_from
simulate_protected_trades s m cfg candles =
    simulate_from (length candles) s m cfg 2 (skip_two candles)

-- `costs`: what the trades paid.
unfoldable pub costs_of : BacktestConfiguration → Simulation → ℕ
costs_of cfg result = length result.0 * (cfg.spread + cfg.commission + 2 * cfg.slippage)
