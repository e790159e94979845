-- ===== src/Backtest/Protection/Enough.antt =====
-- The outer loop of `simulate_protected_trades` (modules/backtesting/protection.py) ends: one unit of fuel
-- for each candle is enough, since each of its rounds passes at least one candle.
use matrades.Common.{
  ℕ, zero, suc, ◌≤◌, ◌≡◌, refl, sym, ap, ◌∙◌, inl, inr, none, List, [], ◌∷◌, arith, length, ltb,
  Bool-cases, Option-cases,
}
use matrades.Common.Int.{pos, ◌+ℤ◌}
use matrades.Backtest.{BacktestCandle, BacktestConfiguration}
use matrades.Backtest.Protection.{Signals, Management, Position, signed, hold_bar}
use matrades.Backtest.Protection.Loop.{
  is_last_bar, hold, opened, Simulation, record_trade, simulate_from,
}

module _ (s : Signals) (m : Management) (cfg : BacktestConfiguration) where
  hold-le :
      (index : ℕ) (cs : List BacktestCandle) (p : Position)
      → length (hold s m cfg.slippage index cs p).2 ≤ length cs
  unfolding hold
  hold-le index [] p = omega arith
  hold-le index (c ∷ cs) p =
      let p' = hold_bar cfg.slippage m (s.exit_signal index) (is_last_bar cs) c p in
      elim (Bool-cases (ltb 0 p'.remaining)) [
        | inr t ↦ rw t (omega arith)
        | inl t ↦ rw t (omega (arith, hold-le (suc index) cs p'))
      ]

  -- The inner loop passes the candle it starts at.
  hold-length :
      (index : ℕ) (c : BacktestCandle) (cs : List BacktestCandle) (p : Position)
      → length (hold s m cfg.slippage index (c ∷ cs) p).2 ≤ length cs
  unfolding hold
  hold-length index c cs p =
      let p' = hold_bar cfg.slippage m (s.exit_signal index) (is_last_bar cs) c p in
      elim (Bool-cases (ltb 0 p'.remaining)) [
        | inr t ↦ rw t (omega arith)
        | inl t ↦ rw t (hold-le (suc index) cs p')
      ]

  simulate_from-nil :
      (fuel index : ℕ) → ◌≡◌ {A = Simulation} (simulate_from fuel s m cfg index []) ([], none)
  unfolding simulate_from
  simulate_from-nil zero index = refl
  simulate_from-nil (suc fuel) index = refl

  -- Any two amounts of fuel of at least one unit for each candle left give the same simulation: the outer
  -- loop has ended by itself.
  pub simulate_from-enough :
      (fuel fuel' index : ℕ) (candles : List BacktestCandle)
      → length candles ≤ fuel
      → length candles ≤ fuel'
      → simulate_from fuel s m cfg index candles ≡ simulate_from fuel' s m cfg index candles
  unfolding simulate_from
  simulate_from-enough fuel fuel' index [] h h' =
      simulate_from-nil fuel index ∙ sym (simulate_from-nil fuel' index)
  simulate_from-enough zero fuel' index (c ∷ cs) h h' = absurd (omega arith)
  simulate_from-enough (suc fuel) zero index (c ∷ cs) h h' = absurd (omega arith)
  simulate_from-enough (suc fuel) (suc fuel') index (c ∷ cs) h h' =
      let entry = c.open_price +ℤ signed m.direction (pos cfg.slippage) in
      let skip = simulate_from-enough fuel fuel' (suc index) cs (omega arith) (omega arith) in
      elim (Bool-cases (s.entry_signal index)) [
        | inr t ↦ rw t skip
        | inl t ↦ elim (Option-cases (s.levels index entry)) [
          | inl e ↦ rw (t, e) skip
          | inr ((stop, targets), e) ↦
              let run = hold s m cfg.slippage index (c ∷ cs) (opened entry stop targets c) in
              let short = hold-length index c cs (opened entry stop targets c) in
              rw (t, e)
                (ap (record_trade cfg run.0) (
                  simulate_from-enough fuel fuel' run.1 run.2 (omega (arith, short))
                    (omega (arith, short))))
        ]
      ]
