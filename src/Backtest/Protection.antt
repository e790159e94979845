-- ===== src/Backtest/Protection.antt =====
-- The next-bar simulation (modules/backtesting/protection.py). The position is held as fractions of one,
-- in whole numbers of 10^-28, the precision of a Decimal quotient of at most five targets; `pnl` is kept in
-- products of a price and a fraction, without the rounding of a product to 28 digits. `Signals` is what the
-- simulation asks at an index of the candles: `strategy_feature_series`, `news_features`,
-- `entry_context_reason`, `entry_matches`, `matches` and `protection_levels` on the features of the bar
-- before, `none` being the `ValueError` of the last.
pub mod Loop
pub mod Invariants
pub mod Whole
pub mod Stops
pub mod Enough
pub mod Order
pub mod Positive
use matrades.Common.{
  ℕ, zero, suc, ◌+◌, ◌-◌, ◌*◌, ◌/◌, min, Bool, true, false, not, ◌&&◌, ◌||◌, Option, none, some,
  List, [], ◌∷◌, ◌++◌, length, nat_beq, ltb, if◌then◌else◌,
}
use matrades.Common.Int.{ℤ, pos, pos_part, ◌+ℤ◌, ◌-ℤ◌, neg_ℤ, leb_ℤ, abs_ℤ, min_ℤ, max_ℤ, scale_ℤ}
use matrades.Backtest.{Direction, BacktestCandle, BacktestConfiguration, TradeResult}

pub record Signals : Type 0 where
  pub entry_signal : ℕ → Bool
  pub exit_signal : ℕ → Bool
  pub levels : ℕ → ℤ → Option (ℤ × List ℤ)

-- The trade management that the simulation reads from the strategy.
pub record Management : Type 0 where
  pub direction : Direction
  pub move_to_break_even : Bool
  pub trailing_stop : Bool
  pub close_at_end : Bool

pub data Reason : Type 0 where
  stop_gap exit_signal_reason stop_loss_reason end_of_history : Reason
  take_profit : ℕ → Reason

-- A fill, and an exit, which is a fill at its price after slippage.
pub record Fill : Type 0 where
  pub raw_price : ℤ
  pub size : ℕ
  pub reason : Reason

pub record Exit : Type 0 where
  pub price : ℤ
  pub fraction : ℕ
  pub reason : Reason
  pub observed_at : ℕ

pub record Position : Type 0 where
  pub entry : ℤ
  pub stop : ℤ
  pub original_stop : ℤ
  pub risk : ℕ
  pub entered_at : ℕ
  pub remaining : ℕ
  pub fraction : ℕ
  pub pnl : ℤ
  pub exits : List Exit
  pub target_index : ℕ
  -- `targets[target_index:]`
  pub targets_left : List ℤ
  pub adverse : ℤ
  pub favorable : ℤ

-- `Decimal(1)`
abbrev pub one : ℕ
one = 10000000000000000000000000000

-- `sign * x`
abbrev pub signed : Direction → ℤ → ℤ
signed Direction.long x = x
signed Direction.short x = neg_ℤ x

-- The better of two stops: `max(a, b) if sign > 0 else min(a, b)`.
abbrev pub better : Direction → ℤ → ℤ → ℤ
better Direction.long a b = max_ℤ a b
better Direction.short a b = min_ℤ a b

abbrev pub hits_stop : Direction → BacktestCandle → ℤ → Bool
hits_stop Direction.long c stop = leb_ℤ c.low stop
hits_stop Direction.short c stop = leb_ℤ stop c.high

abbrev pub hits_target : Direction → BacktestCandle → ℤ → Bool
hits_target Direction.long c target = leb_ℤ target c.high
hits_target Direction.short c target = leb_ℤ c.low target

-- The extreme of a bar against the position, and for it.
abbrev pub worst : Direction → BacktestCandle → ℤ
worst Direction.long c = c.low
worst Direction.short c = c.high

abbrev pub best : Direction → BacktestCandle → ℤ
best Direction.long c = c.high
best Direction.short c = c.low

-- The last target takes all that is available.
abbrev pub target_size : ℕ → ℕ → List ℤ → ℕ
target_size fraction available [] = available
target_size fraction available (target ∷ later) = min fraction available

-- The targets that a bar reaches, in order: the fills, what is then available, and where the next bar
-- goes on.
unfoldable pub take_targets :
    Direction → BacktestCandle → ℕ → ℕ → ℕ → List ℤ → List Fill × ℕ × ℕ × List ℤ
take_targets d c fraction available i [] = ([], available, i, [])
take_targets d c fraction available i (target ∷ later) =
    let size = target_size fraction available later in
    let rest = take_targets d c fraction (available - size) (suc i) later in
    if hits_target d c target
    then (
      record { raw_price = target; size = size; reason = Reason.take_profit (suc i) } ∷ rest.0,
      rest.1,
      rest.2,
      rest.3,
    )
    else ([], available, i, target ∷ later)

-- The fill of all that remains.
abbrev pub close_fill : ℤ → ℕ → Reason → List Fill
close_fill raw_price size reason =
    record { raw_price = raw_price; size = size; reason = reason } ∷ []

-- `last` is `index == len(candles) - 1`.
unfoldable pub fills_of :
    Management → Bool → Bool → BacktestCandle → Position → List Fill × ℕ × List ℤ
unfolding take_targets
fills_of m exits_now is_last c p =
    let d = m.direction in
    if leb_ℤ (signed d (c.open_price -ℤ p.stop)) (pos 0)
    then (close_fill c.open_price p.remaining Reason.stop_gap, p.target_index, p.targets_left)
    else if not (nat_beq c.observed_at p.entered_at) && exits_now
    then (
      close_fill c.open_price p.remaining Reason.exit_signal_reason,
      p.target_index,
      p.targets_left,
    )
    else if hits_stop d c p.stop
    then (close_fill p.stop p.remaining Reason.stop_loss_reason, p.target_index, p.targets_left)
    else (let (fills, available, i, left) =
          take_targets d c p.fraction p.remaining p.target_index p.targets_left in
        (
          fills
              ++ (if m.close_at_end && is_last && ltb 0 available
                  then close_fill c.close available Reason.end_of_history
                  else []),
          i,
          left,
        ))

-- The stop after a bar that leaves the position open.
abbrev pub break_even : Management → Position → Position
break_even m p =
    if ltb 0 p.target_index && m.move_to_break_even
    then record p { stop = better m.direction p.stop p.entry }
    else p

abbrev pub trail : Management → BacktestCandle → Position → Position
trail m c p =
    if m.trailing_stop
    then record p { stop = better m.direction p.stop (c.close -ℤ signed m.direction (pos p.risk)) }
    else p

abbrev pub observe : Direction → BacktestCandle → Position → Position
observe d c p = record p {
  adverse = max_ℤ p.adverse (signed d (p.entry -ℤ worst d c));
  favorable = max_ℤ p.favorable (signed d (best d c -ℤ p.entry));
}

module _ (slippage : ℕ) where
  abbrev pub apply_fill : Direction → BacktestCandle → Fill → Position → Position
  apply_fill d c f p =
      let price = f.raw_price -ℤ signed d (pos slippage) in
      record p {
        pnl = p.pnl +ℤ scale_ℤ f.size (signed d (price -ℤ p.entry));
        remaining = p.remaining - f.size;
        exits =
            p.exits
            ++ record {
              price = price;
              fraction = f.size;
              reason = f.reason;
              observed_at = c.observed_at;
            }
              ∷ [];
      }

  abbrev pub apply_fills : Direction → BacktestCandle → List Fill → Position → Position
  apply_fills d c [] p = p
  apply_fills d c (f ∷ fs) p = apply_fills d c fs (apply_fill d c f p)

  -- The position after the fills of a bar.
  abbrev pub fill_bar : Management → Bool → Bool → BacktestCandle → Position → Position
  fill_bar m exits_now is_last c p =
      let seen = observe m.direction c p in
      let (fills, i, left) = fills_of m exits_now is_last c seen in
      apply_fills m.direction c fills (record seen { target_index = i; targets_left = left })

  -- One bar of the inner loop.
  unfoldable pub hold_bar : Management → Bool → Bool → BacktestCandle → Position → Position
  hold_bar m exits_now is_last c p =
      let filled = fill_bar m exits_now is_last c p in
      if ltb 0 filled.remaining then trail m c (break_even m filled) else filled
