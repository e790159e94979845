-- ===== src/Backtest/Protection/Whole.antt =====
-- The accounts of a simulated position (modules/backtesting/protection.py): what was filled, what remains
-- and what it earned.
use matrades.Common.{
  ℕ, suc, ◌+◌, ◌-◌, ◌≤◌, ◌≡◌, refl, sym, inl, inr, Bool, true, false, ◌&&◌, List, [], ◌∷◌, ◌++◌,
  arith, ltb, if◌then◌else◌, Bool-cases,
}
use matrades.Common.Int.{ℤ, pos, ◌+ℤ◌, ◌-ℤ◌, scale_ℤ, int_laws, +ℤ_assoc}
use matrades.Backtest.{Direction, BacktestCandle, BacktestConfiguration}
use matrades.Backtest.Protection.{
  Signals, Management, Reason, Fill, Exit, Position, one, signed, hits_target, target_size,
  take_targets, close_fill, fills_of, apply_fill, apply_fills, break_even, observe, fill_bar,
  hold_bar,
}
use matrades.Backtest.Protection.Loop.{simulate_protected_trades}
use matrades.Backtest.Protection.Invariants.{
  Satisfies, simulate_protected_trades-Satisfies, fills_of-elim,
}

abbrev pub filled : List Exit → ℕ
filled [] = 0
filled (e ∷ es) = e.fraction + filled es

-- What the exits earned against the entry, before the costs of the trade.
abbrev pub realised : Direction → ℤ → List Exit → ℤ
realised d entry [] = pos 0
realised d entry (e ∷ es) = scale_ℤ e.fraction (signed d (e.price -ℤ entry)) +ℤ realised d entry es

abbrev pub IsAccounted : Direction → Position → Type 0
IsAccounted d p = (filled p.exits + p.remaining ≡ one) × (p.pnl ≡ realised d p.entry p.exits)

abbrev total_size : List Fill → ℕ
total_size [] = 0
total_size (f ∷ fs) = f.size + total_size fs

filled-append : (l : List Exit) (e : Exit) → filled (l ++ e ∷ []) ≡ filled l + e.fraction
filled-append [] e = omega arith
filled-append (x ∷ l) e = omega (arith, filled-append l e)

realised-append :
    (d : Direction) (entry : ℤ) (l : List Exit) (e : Exit)
    → realised d entry (l ++ e ∷ [])
      ≡ realised d entry l +ℤ scale_ℤ e.fraction (signed d (e.price -ℤ entry))
realised-append d entry [] e = omega int_laws
realised-append d entry (x ∷ l) e =
    rw (realised-append d entry l e) (sym (+ℤ_assoc _ (realised d entry l) _))

target_size-le :
    (fraction available : ℕ) (later : List ℤ) → target_size fraction available later ≤ available
target_size-le fraction available [] = omega arith
target_size-le fraction available (t ∷ later) = ground arith

take_targets-total :
    (d : Direction) (c : BacktestCandle) (fraction available i : ℕ) (targets : List ℤ)
    → total_size (take_targets d c fraction available i targets).0
        + (take_targets d c fraction available i targets).1
      ≡ available
unfolding take_targets
take_targets-total d c fraction available i [] = omega arith
take_targets-total d c fraction available i (t ∷ later) =
    let size = target_size fraction available later in
    elim (Bool-cases (hits_target d c t)) [
      | inr h ↦ rw h (omega arith)
      | inl h ↦ rw h (
          omega (
            arith,
            target_size-le fraction available later,
            take_targets-total d c fraction (available - size) (suc i) later,
          ))
    ]

total_size-append : (l k : List Fill) → total_size (l ++ k) ≡ total_size l + total_size k
total_size-append [] k = omega arith
total_size-append (f ∷ l) k = omega (arith, total_size-append l k)

fills_of-total :
    (m : Management) (exits_now is_last : Bool) (c : BacktestCandle) (p : Position)
    → total_size (fills_of m exits_now is_last c p).0 ≤ p.remaining
fills_of-total m exits_now is_last c p =
    let t = take_targets m.direction c p.fraction p.remaining p.target_index p.targets_left in
    let sum =
      take_targets-total m.direction c p.fraction p.remaining p.target_index p.targets_left in
    fills_of-elim m exits_now is_last c p (λ x. total_size x.0 ≤ p.remaining) (omega arith)
      (omega arith) (omega arith)
      (
        omega (arith, sum, total_size-append t.0 (close_fill c.close t.1 Reason.end_of_history)),
        omega (arith, sum, total_size-append t.0 []),
      )

apply_fill-IsAccounted :
    (slippage : ℕ) (d : Direction) (c : BacktestCandle) (f : Fill) (p : Position)
    → f.size ≤ p.remaining
    → IsAccounted d p
    → IsAccounted d (apply_fill slippage d c f p)
apply_fill-IsAccounted slippage d c f p small (whole, earned) =
    (omega (arith, filled-append p.exits _), rw (realised-append d p.entry p.exits _, earned) refl)

apply_fills-IsAccounted :
    (slippage : ℕ) (d : Direction) (c : BacktestCandle) (fs : List Fill) (p : Position)
    → total_size fs ≤ p.remaining
    → IsAccounted d p
    → IsAccounted d (apply_fills slippage d c fs p)
apply_fills-IsAccounted slippage d c [] p small h = h
apply_fills-IsAccounted slippage d c (f ∷ fs) p small h =
    apply_fills-IsAccounted slippage d c fs (apply_fill slippage d c f p) (omega arith)
      (apply_fill-IsAccounted slippage d c f p (omega arith) h)

-- Moving the stop leaves the accounts as they are.
stop-IsAccounted :
    (m : Management) (test : Bool) (stop : ℤ) (p : Position)
    → IsAccounted m.direction p
    → IsAccounted m.direction (if test then record p { stop = stop } else p)
stop-IsAccounted m true stop p h = h
stop-IsAccounted m false stop p h = h

hold_bar-IsAccounted :
    (slippage : ℕ) (m : Management) (exits_now is_last : Bool) (c : BacktestCandle) (p : Position)
    → IsAccounted m.direction p
    → IsAccounted m.direction (hold_bar slippage m exits_now is_last c p)
unfolding hold_bar
hold_bar-IsAccounted slippage m exits_now is_last c p h =
    let seen = observe m.direction c p in
    let (fills, i, left) = fills_of m exits_now is_last c seen in
    let filled_p = fill_bar slippage m exits_now is_last c p in
    let h' =
      apply_fills-IsAccounted slippage m.direction c fills
        (record seen { target_index = i; targets_left = left })
        (fills_of-total m exits_now is_last c seen) h in
    let level_p = break_even m filled_p in
    elim (Bool-cases (ltb 0 filled_p.remaining)) [
      | inr t ↦ rw t h'
      | inl t ↦ rw t (
          stop-IsAccounted m m.trailing_stop _ level_p (
            stop-IsAccounted m (ltb 0 filled_p.target_index && m.move_to_break_even) _ filled_p h'))
    ]

-- Every simulated position is accounted for: the fractions of its exits and what remains of it add up to
-- the whole, and what it earned before costs is the sum over its exits of fraction times price difference,
-- signed by the direction. Nothing remains of a closed one, and its result is what it earned less the
-- costs of a trade, with its risk and its excursions.
pub simulate_protected_trades-IsAccounted :
    (s : Signals) (m : Management) (cfg : BacktestConfiguration) (candles : List BacktestCandle)
    → Satisfies (IsAccounted m.direction) cfg (simulate_protected_trades s m cfg candles)
simulate_protected_trades-IsAccounted s m cfg =
    simulate_protected_trades-Satisfies s m cfg (IsAccounted m.direction)
      (λ index entry stop targets c e. (refl, refl))
      (λ exits_now is_last c p. hold_bar-IsAccounted cfg.slippage m exits_now is_last c p)
