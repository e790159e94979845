-- ===== src/Backtest/Protection/Order.antt =====
-- On candles in order, the trades of a simulation (modules/backtesting/protection.py) come one after the
-- other.
use matrades.Common.{
  ℕ, zero, suc, ◌<◌, ◌≡◌, refl, sym, subst, inl, inr, Bool, true, false, ◌&&◌, Option, none, some,
  List, [], ◌∷◌, length, ltb, if◌then◌else◌, Bool-cases, Option-cases, All, All-append, All-map,
}
use matrades.Common.Int.{ℤ, pos, ◌+ℤ◌}
use matrades.Backtest.{Direction, BacktestCandle, BacktestConfiguration, TradeResult}
use matrades.Common.Result.{ok}
use matrades.Backtest.Candles.{timestamps, validate_candles}
use matrades.Backtest.Candles.Bounds.{validate_candles_iff}
use matrades.Backtest.Candles.Chronology.{IsIncreasing}
use matrades.Backtest.Protection.{
  Signals, Management, Fill, Exit, Position, signed, fills_of, apply_fill, apply_fills, break_even,
  observe, fill_bar, hold_bar,
}
use matrades.Backtest.Protection.Loop.{
  is_last_bar, hold, opened, Simulation, record_trade, simulate_from, skip_two,
  simulate_protected_trades,
}

-- What a bar adds to the exits of a position has the instant of the bar.
apply_fills-exits :
    (slippage : ℕ) (d : Direction) (c : BacktestCandle) (P : Exit → Type 0) (fs : List Fill)
    (p : Position)
    → ((e : Exit) → e.observed_at ≡ c.observed_at → P e)
    → All P p.exits
    → All P (apply_fills slippage d c fs p).exits
      × ((apply_fills slippage d c fs p).entered_at ≡ p.entered_at)
apply_fills-exits slippage d c P [] p new h = (h, refl)
apply_fills-exits slippage d c P (f ∷ fs) p new h =
    apply_fills-exits slippage d c P fs (apply_fill slippage d c f p) new
      (All-append P p.exits _ h (new _ refl, tt))

-- Moving the stop leaves exits and entry as they are.
abbrev Keeps : (Exit → Type 0) → ℕ → Position → Type 0
Keeps P at_time p = All P p.exits × (p.entered_at ≡ at_time)

stop-Keeps :
    (P : Exit → Type 0) (at_time : ℕ) (test : Bool) (stop : ℤ) (p : Position)
    → Keeps P at_time p
    → Keeps P at_time (if test then record p { stop = stop } else p)
stop-Keeps P at_time true stop p h = h
stop-Keeps P at_time false stop p h = h

hold_bar-Keeps :
    (slippage : ℕ) (m : Management) (exits_now is_last : Bool) (c : BacktestCandle)
    (P : Exit → Type 0) (p : Position)
    → ((e : Exit) → e.observed_at ≡ c.observed_at → P e)
    → All P p.exits
    → Keeps P p.entered_at (hold_bar slippage m exits_now is_last c p)
unfolding hold_bar
hold_bar-Keeps slippage m exits_now is_last c P p new h =
    let seen = observe m.direction c p in
    let (fills, i, left) = fills_of m exits_now is_last c seen in
    let filled_p = fill_bar slippage m exits_now is_last c p in
    let h' =
      apply_fills-exits slippage m.direction c P fills
        (record seen { target_index = i; targets_left = left }) new h in
    let level_p = break_even m filled_p in
    elim (Bool-cases (ltb 0 filled_p.remaining)) [
      | inr t ↦ rw t h'
      | inl t ↦ rw t (
          stop-Keeps P p.entered_at m.trailing_stop _ level_p (
            stop-Keeps P p.entered_at (ltb 0 filled_p.target_index && m.move_to_break_even) _
              filled_p h'))
    ]

-- An exit before each of the instants.
abbrev IsBefore : List ℕ → Exit → Type 0
IsBefore times e = All (λ t. e.observed_at < t) times

-- The trades after an instant, each of whose exits come before the entries of all later ones, and before
-- the entry of the position that is left open.
abbrev pub OpensAfter : ℕ → Option Position → Type 0
OpensAfter t none = Unit
OpensAfter t (some p) = t < p.entered_at

abbrev pub IsOrdered : List (Position × TradeResult) → Option Position → Type 0
IsOrdered [] last = Unit
IsOrdered ((p, r) ∷ later) last =
    All (λ e. All (λ q. e.observed_at < q.0.entered_at) later × OpensAfter e.observed_at last)
      p.exits
    × IsOrdered later last

abbrev AllAfter : ℕ → Simulation → Type 0
AllAfter b result = All (λ q. b < q.0.entered_at) result.0 × OpensAfter b result.1

module _ (s : Signals) (m : Management) (cfg : BacktestConfiguration) where
  -- The inner loop leaves later candles than its exits, and a part of the candles at the end.
  hold-IsBefore :
      (index : ℕ) (cs : List BacktestCandle) (p : Position)
      → IsIncreasing (timestamps cs)
      → All (IsBefore (timestamps cs)) p.exits
      → Keeps
          (IsBefore (timestamps (hold s m cfg.slippage index cs p).2))
          p.entered_at
          (hold s m cfg.slippage index cs p).0
        × IsIncreasing (timestamps (hold s m cfg.slippage index cs p).2)
  unfolding hold
  hold-IsBefore index [] p order h = ((h, refl), tt)
  hold-IsBefore index (c ∷ cs) p (first, order) h =
      let p' = hold_bar cfg.slippage m (s.exit_signal index) (is_last_bar cs) c p in
      let (h', same) =
        hold_bar-Keeps cfg.slippage m (s.exit_signal index) (is_last_bar cs) c
          (IsBefore (timestamps cs)) p (λ e at_c. rw at_c first) (All-map p.exits (λ e q. q.1) h) in
      elim (Bool-cases (ltb 0 p'.remaining)) [
        | inr t ↦ rw t ((h', same), order)
        | inl t ↦
            let next = hold s m cfg.slippage (suc index) cs p' in
            rw t (
              subst
                (λ n.
                  Keeps (IsBefore (timestamps next.2)) n next.0 × IsIncreasing (timestamps next.2))
                same (hold-IsBefore (suc index) cs p' order h'))
      ]

  hold-All :
      (P : ℕ → Type 0) (index : ℕ) (cs : List BacktestCandle) (p : Position)
      → All P (timestamps cs)
      → All P (timestamps (hold s m cfg.slippage index cs p).2)
  unfolding hold
  hold-All P index [] p h = tt
  hold-All P index (c ∷ cs) p (q, h) =
      let p' = hold_bar cfg.slippage m (s.exit_signal index) (is_last_bar cs) c p in
      elim (Bool-cases (ltb 0 p'.remaining)) [
        | inr t ↦ rw t h
        | inl t ↦ rw t (hold-All P (suc index) cs p' h)
      ]

  entries_from :
      (b fuel index : ℕ) (cs : List BacktestCandle)
      → All (λ t. b < t) (timestamps cs)
      → IsIncreasing (timestamps cs)
      → AllAfter b (simulate_from fuel s m cfg index cs)
  unfolding simulate_from
  entries_from b zero index cs h order = (tt, tt)
  entries_from b (suc fuel) index [] h order = (tt, tt)
  entries_from b (suc fuel) index (c ∷ cs) (first, h) (below, order) =
      let entry = c.open_price +ℤ signed m.direction (pos cfg.slippage) in
      let skip = entries_from b fuel (suc index) cs h order in
      elim (Bool-cases (s.entry_signal index)) [
        | inr t ↦ rw t skip
        | inl t ↦ elim (Option-cases (s.levels index entry)) [
          | inl e ↦ rw (t, e) skip
          | inr ((stop, targets), e) ↦
              let start = opened entry stop targets c in
              let run = hold s m cfg.slippage index (c ∷ cs) start in
              let (kept, order') = hold-IsBefore index (c ∷ cs) start (below, order) tt in
              let later =
                entries_from b fuel run.1 run.2
                  (hold-All (λ t. b < t) index (c ∷ cs) start (first, h)) order' in
              rw (t, e)
                (entered run.0 (simulate_from fuel s m cfg run.1 run.2)
                  (subst (λ n. b < n) (sym kept.1) first) later)
        ]
      ]
    where
      entered :
          (p : Position) (rest : Simulation)
          → b < p.entered_at
          → AllAfter b rest
          → AllAfter b (record_trade cfg p rest)
      entered p rest q (closed, last) = elim (Bool-cases (ltb 0 p.remaining)) [
        | inl u ↦ rw u (tt, q)
        | inr u ↦ rw u ((q, closed), last)
      ]

  simulate_from-IsOrdered :
      (fuel index : ℕ) (cs : List BacktestCandle)
      → IsIncreasing (timestamps cs)
      → IsOrdered (simulate_from fuel s m cfg index cs).0 (simulate_from fuel s m cfg index cs).1
  unfolding simulate_from
  simulate_from-IsOrdered zero index cs order = tt
  simulate_from-IsOrdered (suc fuel) index [] order = tt
  simulate_from-IsOrdered (suc fuel) index (c ∷ cs) (below, order) =
      let entry = c.open_price +ℤ signed m.direction (pos cfg.slippage) in
      let skip = simulate_from-IsOrdered fuel (suc index) cs order in
      elim (Bool-cases (s.entry_signal index)) [
        | inr t ↦ rw t skip
        | inl t ↦ elim (Option-cases (s.levels index entry)) [
          | inl e ↦ rw (t, e) skip
          | inr ((stop, targets), e) ↦
              let start = opened entry stop targets c in
              let run = hold s m cfg.slippage index (c ∷ cs) start in
              let rest = simulate_from fuel s m cfg run.1 run.2 in
              let (kept, order') = hold-IsBefore index (c ∷ cs) start (below, order) tt in
              rw (t, e)
                (recorded run.0 rest
                  (All-map run.0.exits (λ x q. entries_from x.observed_at fuel run.1 run.2 q order')
                    kept.0)
                  (simulate_from-IsOrdered fuel run.1 run.2 order'))
        ]
      ]
    where
      recorded :
          (p : Position) (rest : Simulation)
          → All (λ x. AllAfter x.observed_at rest) p.exits
          → IsOrdered rest.0 rest.1
          → IsOrdered (record_trade cfg p rest).0 (record_trade cfg p rest).1
      recorded p rest h o = elim (Bool-cases (ltb 0 p.remaining)) [
        | inl u ↦ rw u tt
        | inr u ↦ rw u (h, o)
      ]

  -- On candles that `validate_candles` accepts, whatever minimum it is given, each exit of a trade comes
  -- before the entries of all later trades and of the position that is open at the end.
  pub simulate_protected_trades-IsOrdered :
      (minimum : ℕ) (candles : List BacktestCandle)
      → validate_candles minimum candles ≡ ok tt
      → IsOrdered
          (simulate_protected_trades s m cfg candles).0
          (simulate_protected_trades s m cfg candles).1
  unfolding simulate_protected_trades
  simulate_protected_trades-IsOrdered minimum candles valid =
      let (enough, order, bounded) = (validate_candles_iff minimum candles).0 valid in
      simulate_from-IsOrdered (length candles) 2 (skip_two candles) (skipped candles order)
    where
      skipped :
          (cs : List BacktestCandle)
          → IsIncreasing (timestamps cs)
          → IsIncreasing (timestamps (skip_two cs))
      skipped [] h = tt
      skipped (c ∷ []) h = tt
      skipped (c ∷ d ∷ cs) (a, (b, h)) = h
