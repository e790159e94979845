-- ===== src/Strategies/Levels.antt =====
-- `protection_levels` (modules/strategies/signals.py) for the trade rules of packages/strategy_sdk/schema.py.
-- The multiples are whole numbers of 1 / `scale`. Prices are whole numbers of a quantum, the volatility of
-- `scale` times `scale` quanta, and the tick of `scale` quanta, so that the products are whole for an entry
-- that is a whole number of `scale` quanta. Decimals are finite.
pub mod Protective
use matrades.Common.{
  ℕ, ◌+◌, ◌*◌, ◌/◌, Bool, true, false, not, ◌||◌, Option, none, some, List, [], ◌∷◌, map, length,
  any, nat_beq, if◌then◌else◌,
}
use matrades.Common.Int.{ℤ, pos, negsuc, pos_part, ◌+ℤ◌, ◌-ℤ◌, neg_ℤ, leb_ℤ, abs_ℤ, beq_ℤ}
use matrades.Common.Result.{Result, ok, err}
use matrades.Backtest.{Direction}
use matrades.Backtest.Protection.{Signals, signed}

pub record TradeRules : Type 0 where
  pub direction : Direction
  pub scale : ℕ
  pub stop_volatility_multiple : ℕ
  pub take_profit_r_multiples : List ℕ

pub data LevelError : Type 0 where
  not_positive tick_not_positive no_distinct_prices : LevelError

-- `(x / step).to_integral_value(rounding=...) * step`
unfoldable pub floor_to : ℤ → ℕ → ℤ
floor_to (pos n) step = pos (n / step * step)
floor_to (negsuc n) step = neg_ℤ (pos ((n + step) / step * step))

unfoldable pub ceiling_to : ℤ → ℕ → ℤ
unfolding floor_to
ceiling_to x step = neg_ℤ (floor_to (neg_ℤ x) step)

-- The stop is rounded away from the entry, the targets too.
abbrev pub round_stop : Direction → ℤ → ℕ → ℤ
round_stop Direction.long x step = floor_to x step
round_stop Direction.short x step = ceiling_to x step

abbrev pub round_target : Direction → ℤ → ℕ → ℤ
round_target Direction.long x step = ceiling_to x step
round_target Direction.short x step = floor_to x step

-- `set(targets)`
abbrev pub distinct_prices : List ℤ → List ℤ
distinct_prices [] = []
distinct_prices (x ∷ xs) = if any (beq_ℤ x) xs then distinct_prices xs else x ∷ distinct_prices xs

abbrev pub check_levels : ℤ → List ℤ → Result LevelError (ℤ × List ℤ)
check_levels stop targets =
    if leb_ℤ stop (pos 0)
      || any (λ t. leb_ℤ t (pos 0)) targets
      || not (nat_beq (length (distinct_prices targets)) (length targets))
    then err LevelError.no_distinct_prices
    else ok (stop, targets)

-- The stop before rounding, and the targets before rounding for a stop.
abbrev pub raw_stop : TradeRules → ℤ → ℕ → ℤ
raw_stop rules entry volatility =
    entry
    -ℤ signed rules.direction (pos (volatility * rules.stop_volatility_multiple * rules.scale))

abbrev pub raw_target : TradeRules → ℤ → ℤ → ℕ → ℤ
raw_target rules entry stop multiple =
    entry +ℤ signed rules.direction (pos (abs_ℤ (entry -ℤ stop) * multiple / rules.scale))

abbrev pub levels_at : TradeRules → ℤ → ℕ → Option ℤ → Result LevelError (ℤ × List ℤ)
levels_at rules entry volatility none =
    let stop = raw_stop rules entry volatility in
    check_levels stop (map (raw_target rules entry stop) rules.take_profit_r_multiples)
levels_at rules entry volatility (some tick_size) =
    let step = pos_part tick_size * rules.scale in
    let stop = round_stop rules.direction (raw_stop rules entry volatility) step in
    if leb_ℤ tick_size (pos 0)
    then err LevelError.tick_not_positive
    else check_levels stop (
        map (λ multiple. round_target rules.direction (raw_target rules entry stop multiple) step)
          rules.take_profit_r_multiples)

unfoldable pub protection_levels : TradeRules → ℤ → ℤ → Option ℤ → Result LevelError (ℤ × List ℤ)
unfolding floor_to ceiling_to
protection_levels rules entry volatility tick_size =
    if leb_ℤ entry (pos 0) || leb_ℤ volatility (pos 0)
    then err LevelError.not_positive
    else levels_at rules entry (pos_part volatility) tick_size

-- `except ValueError: continue`
abbrev pub or_skip : Result LevelError (ℤ × List ℤ) → Option (ℤ × List ℤ)
or_skip (ok levels) = some levels
or_skip (err e) = none

-- What the simulation asks of a strategy: the signals at an index, and the levels for the volatility of the
-- bar before.
abbrev pub strategy_signals : TradeRules → Option ℤ → (ℕ → ℤ) → (ℕ → Bool) → (ℕ → Bool) → Signals
strategy_signals rules tick_size volatility entry_signal exit_signal = record {
  entry_signal = entry_signal;
  exit_signal = exit_signal;
  levels = λ index entry. or_skip (protection_levels rules entry (volatility index) tick_size);
}
