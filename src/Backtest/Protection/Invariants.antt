-- ===== src/Backtest/Protection/Invariants.antt =====
-- What each bar keeps holds of every position of a simulation (modules/backtesting/protection.py).
use matrades.Common.{
  ℕ, zero, suc, ◌≡◌, refl, inl, inr, Bool, true, false, not, Option, none, some, List, [], ◌∷◌,
  ◌++◌, length, nat_beq, ◌&&◌, arith, ltb, if◌then◌else◌, Bool-cases, Option-cases, All,
}
use matrades.Common.Int.{ℤ, pos, ◌+ℤ◌, ◌-ℤ◌, leb_ℤ}
use matrades.Backtest.{BacktestCandle, BacktestConfiguration, TradeResult}
use matrades.Backtest.Protection.{
  Signals, Management, Position, Fill, Reason, signed, hold_bar, fills_of, close_fill, take_targets,
  hits_stop,
}
use matrades.Backtest.Protection.Loop.{
  is_last_bar, hold, opened, Simulation, result_of, record_trade, simulate_from, skip_two,
  simulate_protected_trades,
}

-- A closed trade that `P` holds of, with its result, and an open position that it holds of.
abbrev pub IsClosed : (Position → Type 0) → BacktestConfiguration → Position × TradeResult → Type 0
IsClosed P cfg (p, r) = P p × (p.remaining ≡ 0) × (r ≡ result_of cfg p)

abbrev pub OpenHas : (Position → Type 0) → Option Position → Type 0
OpenHas P none = Unit
OpenHas P (some p) = P p

abbrev pub Satisfies : (Position → Type 0) → BacktestConfiguration → Simulation → Type 0
Satisfies P cfg result = All (IsClosed P cfg) result.0 × OpenHas P result.1

module _ (s : Signals) (m : Management) (cfg : BacktestConfiguration) (P : Position → Type 0)
    (opens : (index : ℕ) (entry stop : ℤ) (targets : List ℤ) (c : BacktestCandle)
      → s.levels index entry ≡ some (stop, targets)
      → P (opened entry stop targets c))
    (keeps : (exits_now is_last : Bool) (c : BacktestCandle) (p : Position)
      → P p
      → P (hold_bar cfg.slippage m exits_now is_last c p)) where
  hold-keeps :
      (index : ℕ) (candles : List BacktestCandle) (p : Position)
      → P p
      → P (hold s m cfg.slippage index candles p).0
  unfolding hold
  hold-keeps index [] p h = h
  hold-keeps index (c ∷ cs) p h =
      let p' = hold_bar cfg.slippage m (s.exit_signal index) (is_last_bar cs) c p in
      let h' = keeps (s.exit_signal index) (is_last_bar cs) c p h in
      elim (Bool-cases (ltb 0 p'.remaining)) [
        | inl t ↦ rw t (hold-keeps (suc index) cs p' h')
        | inr t ↦ rw t h'
      ]

  record_trade-Satisfies :
      (p : Position) (rest : Simulation)
      → P p
      → Satisfies P cfg rest
      → Satisfies P cfg (record_trade cfg p rest)
  record_trade-Satisfies p rest h (closed, left) = elim (Bool-cases (ltb 0 p.remaining)) [
    | inl t ↦ rw t (tt, h)
    | inr t ↦ rw t (((h, none_left p.remaining t, refl), closed), left)
  ]
    where
      none_left : (n : ℕ) → ltb 0 n ≡ false → n ≡ 0
      none_left n e = ground arith

  simulate_from-Satisfies :
      (fuel index : ℕ) (candles : List BacktestCandle)
      → Satisfies P cfg (simulate_from fuel s m cfg index candles)
  unfolding simulate_from
  simulate_from-Satisfies zero index candles = (tt, tt)
  simulate_from-Satisfies (suc fuel) index [] = (tt, tt)
  simulate_from-Satisfies (suc fuel) index (c ∷ cs) =
      let entry = c.open_price +ℤ signed m.direction (pos cfg.slippage) in
      let skip = simulate_from-Satisfies fuel (suc index) cs in
      elim (Bool-cases (s.entry_signal index)) [
        | inr t ↦ rw t skip
        | inl t ↦ elim (Option-cases (s.levels index entry)) [
          | inl e ↦ rw (t, e) skip
          | inr ((stop, targets), e) ↦
              let run = hold s m cfg.slippage index (c ∷ cs) (opened entry stop targets c) in
              rw (t, e)
                (record_trade-Satisfies run.0 (simulate_from fuel s m cfg run.1 run.2)
                  (hold-keeps index (c ∷ cs) (opened entry stop targets c)
                    (opens index entry stop targets c e))
                  (simulate_from-Satisfies fuel run.1 run.2))
        ]
      ]

  -- A property of positions that an opened position has and each bar keeps holds of every position of a
  -- simulation.
  pub simulate_protected_trades-Satisfies :
      (candles : List BacktestCandle) → Satisfies P cfg (simulate_protected_trades s m cfg candles)
  unfolding simulate_protected_trades
  simulate_protected_trades-Satisfies candles =
      simulate_from-Satisfies (length candles) 2 (skip_two candles)

-- The five ways a bar fills a position: of a predicate that each one satisfies, the bar's fills satisfy it.
pub fills_of-elim :
    (m : Management) (exits_now is_last : Bool) (c : BacktestCandle) (p : Position)
    (Q : List Fill × ℕ × List ℤ → Type 0)
    → Q (close_fill c.open_price p.remaining Reason.stop_gap, p.target_index, p.targets_left)
    → Q (
      close_fill c.open_price p.remaining Reason.exit_signal_reason,
      p.target_index,
      p.targets_left,
    )
    → Q (close_fill p.stop p.remaining Reason.stop_loss_reason, p.target_index, p.targets_left)
    → (let t = take_targets m.direction c p.fraction p.remaining p.target_index p.targets_left in
        Q (t.0 ++ close_fill c.close t.1 Reason.end_of_history, t.2, t.3) × Q (t.0 ++ [], t.2, t.3))
    → Q (fills_of m exits_now is_last c p)
unfolding fills_of
fills_of-elim m exits_now is_last c p Q gap signal stopped (end, on) =
    let t = take_targets m.direction c p.fraction p.remaining p.target_index p.targets_left in
    choose Q (leb_ℤ (signed m.direction (c.open_price -ℤ p.stop)) (pos 0)) _ _ gap (
      choose Q (not (nat_beq c.observed_at p.entered_at) && exits_now) _ _ signal (
        choose Q (hits_stop m.direction c p.stop) _ _ stopped (
          choose (λ l. Q (t.0 ++ l, t.2, t.3)) (m.close_at_end && is_last && ltb 0 t.1) _ _ end
            on)))
  where
    choose :
        {A : Type 0} (Q : A → Type 0) (test : Bool) (x y : A)
        → Q x
        → Q y
        → Q (if test then x else y)
    choose Q true x y q r = q
    choose Q false x y q r = r
