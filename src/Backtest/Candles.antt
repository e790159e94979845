-- ===== src/Backtest/Candles.antt =====
-- `validate_candles` (modules/backtesting/engine.py): the structure of the evidence. Prices are finite.
pub mod Chronology
pub mod Bounds
use matrades.Common.{
  ℕ, Bool, true, false, not, ◌&&◌, ◌||◌, List, [], ◌∷◌, map, length, any, all, nat_beq, ltb, leb,
  if◌then◌else◌,
}
use matrades.Common.Int.{ℤ, pos, ltb_ℤ, min_ℤ, max_ℤ}
use matrades.Common.Result.{Result, ok, err, raise_if, ◌>>◌}
use matrades.Backtest.{BacktestCandle}

pub data CandleError : Type 0 where
  too_few not_chronological not_positive inconsistent : CandleError

-- `sorted(timestamps)`
abbrev pub insert_sorted : ℕ → List ℕ → List ℕ
insert_sorted x [] = x ∷ []
insert_sorted x (y ∷ ys) = if leb x y then x ∷ y ∷ ys else y ∷ insert_sorted x ys

unfoldable pub sorted : List ℕ → List ℕ
sorted [] = []
sorted (x ∷ xs) = insert_sorted x (sorted xs)

-- `set(timestamps)`
unfoldable pub distinct : List ℕ → List ℕ
distinct [] = []
distinct (x ∷ xs) = if any (nat_beq x) xs then distinct xs else x ∷ distinct xs

abbrev pub list_beq : List ℕ → List ℕ → Bool
list_beq [] [] = true
list_beq [] (y ∷ ys) = false
list_beq (x ∷ xs) [] = false
list_beq (x ∷ xs) (y ∷ ys) = nat_beq x y && list_beq xs ys

abbrev pub prices : BacktestCandle → List ℤ
prices c = c.open_price ∷ c.high ∷ c.low ∷ c.close ∷ []

abbrev pub highest : BacktestCandle → ℤ
highest c = max_ℤ (max_ℤ (max_ℤ c.open_price c.high) c.low) c.close

abbrev pub lowest : BacktestCandle → ℤ
lowest c = min_ℤ (min_ℤ (min_ℤ c.open_price c.high) c.low) c.close

unfoldable pub check_candles : List BacktestCandle → Result CandleError (Unit {0})
check_candles [] = ok tt
check_candles (c ∷ cs) =
    raise_if (not (all (λ v. ltb_ℤ (pos 0) v) (prices c))) CandleError.not_positive
    >> raise_if (ltb_ℤ c.high (highest c) || ltb_ℤ (lowest c) c.low) CandleError.inconsistent
    >> check_candles cs

abbrev pub timestamps : List BacktestCandle → List ℕ
timestamps = map (λ c. c.observed_at)

unfoldable pub validate_candles : ℕ → List BacktestCandle → Result CandleError (Unit {0})
unfolding sorted distinct check_candles
validate_candles minimum candles =
    let times = timestamps candles in
    raise_if (ltb (length candles) minimum) CandleError.too_few
    >> raise_if
        (not (list_beq times (sorted times))
          || not (nat_beq (length (distinct times)) (length times)))
        CandleError.not_chronological
    >> check_candles candles
