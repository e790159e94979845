-- ===== src/Backtest/Protection/Stops.antt =====
-- The stop of a simulated position (modules/backtesting/protection.py): it only moves in favour of the
-- position, and a fill at the stop is no worse than the stop the position was opened with.
use matrades.Common.{
  ℕ, suc, ◌-◌, inl, inr, Bool, true, false, ◌&&◌, List, [], ◌∷◌, arith, ltb, if◌then◌else◌,
  Bool-cases, All, All-append,
}
use matrades.Common.Int.{ℤ, pos, ◌+ℤ◌, ◌-ℤ◌, ◌≤ℤ◌, neg_ℤ_parts, int_laws}
use matrades.Backtest.{Direction, BacktestCandle, BacktestConfiguration}
use matrades.Backtest.Protection.{
  Signals, Management, Reason, Fill, Exit, Position, signed, better, hits_target, target_size,
  take_targets, close_fill, fills_of, apply_fill, apply_fills, break_even, observe, fill_bar,
  hold_bar,
}
use matrades.Backtest.Protection.Loop.{simulate_protected_trades}
use matrades.Backtest.Protection.Invariants.{
  Satisfies, simulate_protected_trades-Satisfies, fills_of-elim,
}

-- What a claim on fills at the stop says of a fill.
abbrev pub AtStop : Reason → Type 0 → Type 0
AtStop Reason.stop_loss_reason P = P
AtStop Reason.stop_gap P = Unit
AtStop Reason.exit_signal_reason P = Unit
AtStop Reason.end_of_history P = Unit
AtStop (Reason.take_profit i) P = Unit

-- One price is at least as good as another for a direction.
abbrev pub IsAsGood : Direction → ℤ → ℤ → Type 0
IsAsGood d a b = signed d a ≤ℤ signed d b

abbrev pub ExitHolds : Direction → ℕ → ℤ → Exit → Type 0
ExitHolds d slippage stop e = AtStop e.reason (signed d stop ≤ℤ signed d e.price +ℤ pos slippage)

abbrev pub IsProtected : Direction → ℕ → Position → Type 0
IsProtected d slippage p =
    IsAsGood d p.original_stop p.stop × All (ExitHolds d slippage p.original_stop) p.exits

better-IsAsGood : (d : Direction) (a b : ℤ) → IsAsGood d a (better d a b)
better-IsAsGood Direction.long a b = ground arith
better-IsAsGood Direction.short a b = ground (arith, neg_ℤ_parts a, neg_ℤ_parts b)

IsAsGood-trans : (d : Direction) (a b c : ℤ) → IsAsGood d a b → IsAsGood d b c → IsAsGood d a c
IsAsGood-trans d a b c h k = omega arith

after_slippage :
    (d : Direction) (slippage : ℕ) (stop raw : ℤ)
    → IsAsGood d stop raw
    → signed d stop ≤ℤ signed d (raw -ℤ signed d (pos slippage)) +ℤ pos slippage
after_slippage Direction.long slippage stop raw h = omega int_laws
after_slippage Direction.short slippage stop raw h = omega int_laws

abbrev FillHolds : Direction → ℤ → Fill → Type 0
FillHolds d stop f = AtStop f.reason (IsAsGood d stop f.raw_price)

take_targets-FillHolds :
    (d : Direction) (c : BacktestCandle) (fraction available i : ℕ) (stop : ℤ) (targets : List ℤ)
    → All (FillHolds d stop) (take_targets d c fraction available i targets).0
unfolding take_targets
take_targets-FillHolds d c fraction available i stop [] = tt
take_targets-FillHolds d c fraction available i stop (t ∷ later) =
    let size = target_size fraction available later in
    elim (Bool-cases (hits_target d c t)) [
      | inr h ↦ rw h tt
      | inl h ↦ rw h (tt, take_targets-FillHolds d c fraction (available - size) (suc i) stop later)
    ]

fills_of-FillHolds :
    (m : Management) (exits_now is_last : Bool) (c : BacktestCandle) (p : Position)
    → IsAsGood m.direction p.original_stop p.stop
    → All (FillHolds m.direction p.original_stop) (fills_of m exits_now is_last c p).0
fills_of-FillHolds m exits_now is_last c p h =
    let t = take_targets m.direction c p.fraction p.remaining p.target_index p.targets_left in
    let targets =
      take_targets-FillHolds m.direction c p.fraction p.remaining p.target_index p.original_stop
        p.targets_left in
    fills_of-elim m exits_now is_last c p (λ x. All (FillHolds m.direction p.original_stop) x.0)
      (tt, tt) (tt, tt) (h, tt)
      (
        All-append _ t.0 (close_fill c.close t.1 Reason.end_of_history) targets (tt, tt),
        All-append _ t.0 [] targets tt,
      )

exit_of :
    (reason : Reason) (d : Direction) (slippage : ℕ) (stop raw : ℤ)
    → AtStop reason (IsAsGood d stop raw)
    → AtStop reason (signed d stop ≤ℤ signed d (raw -ℤ signed d (pos slippage)) +ℤ pos slippage)
exit_of Reason.stop_loss_reason d slippage stop raw h = after_slippage d slippage stop raw h
exit_of Reason.stop_gap d slippage stop raw h = tt
exit_of Reason.exit_signal_reason d slippage stop raw h = tt
exit_of Reason.end_of_history d slippage stop raw h = tt
exit_of (Reason.take_profit i) d slippage stop raw h = tt

apply_fills-IsProtected :
    (slippage : ℕ) (d : Direction) (c : BacktestCandle) (fs : List Fill) (p : Position)
    → All (FillHolds d p.original_stop) fs
    → IsProtected d slippage p
    → IsProtected d slippage (apply_fills slippage d c fs p)
apply_fills-IsProtected slippage d c [] p h k = k
apply_fills-IsProtected slippage d c (f ∷ fs) p (h, hs) (good, exits) =
    apply_fills-IsProtected slippage d c fs (apply_fill slippage d c f p) hs (
      good,
      All-append _ p.exits _ exits (exit_of f.reason d slippage p.original_stop f.raw_price h, tt),
    )

-- Moving the stop to a better price.
stop-IsProtected :
    (d : Direction) (slippage : ℕ) (test : Bool) (price : ℤ) (p : Position)
    → IsProtected d slippage p
    → IsProtected d slippage (if test then record p { stop = better d p.stop price } else p)
stop-IsProtected d slippage true price p (good, exits) =
    (IsAsGood-trans d p.original_stop p.stop _ good (better-IsAsGood d p.stop price), exits)
stop-IsProtected d slippage false price p h = h

hold_bar-IsProtected :
    (slippage : ℕ) (m : Management) (exits_now is_last : Bool) (c : BacktestCandle) (p : Position)
    → IsProtected m.direction slippage p
    → IsProtected m.direction slippage (hold_bar slippage m exits_now is_last c p)
unfolding hold_bar
hold_bar-IsProtected slippage m exits_now is_last c p h =
    let d = m.direction in
    let seen = observe d c p in
    let (fills, i, left) = fills_of m exits_now is_last c seen in
    let filled_p = fill_bar slippage m exits_now is_last c p in
    let h' =
      apply_fills-IsProtected slippage d c fills
        (record seen { target_index = i; targets_left = left })
        (fills_of-FillHolds m exits_now is_last c seen h.0) h in
    let level_p = break_even m filled_p in
    elim (Bool-cases (ltb 0 filled_p.remaining)) [
      | inr t ↦ rw t h'
      | inl t ↦ rw t (
          stop-IsProtected d slippage m.trailing_stop _ level_p (
            stop-IsProtected d slippage (ltb 0 filled_p.target_index && m.move_to_break_even) _
              filled_p h'))
    ]

-- In every simulation the stop of a position ends no worse for its direction than it was opened, and each
-- exit at a stop has a price no worse than the opening stop, but for the slippage.
pub simulate_protected_trades-IsProtected :
    (s : Signals) (m : Management) (cfg : BacktestConfiguration) (candles : List BacktestCandle)
    → Satisfies
        (IsProtected m.direction cfg.slippage)
        cfg
        (simulate_protected_trades s m cfg candles)
simulate_protected_trades-IsProtected s m cfg =
    simulate_protected_trades-Satisfies s m cfg (IsProtected m.direction cfg.slippage)
      (λ index entry stop targets c e. (same m.direction stop, tt))
      (λ exits_now is_last c p. hold_bar-IsProtected cfg.slippage m exits_now is_last c p)
  where
    same : (d : Direction) (stop : ℤ) → IsAsGood d stop stop
    same d stop = omega arith
