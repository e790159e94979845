-- ===== src/Backtest/Candles/Bounds.antt =====
-- The checks of `validate_candles` (modules/backtesting/engine.py) against the structure they ask for.
use matrades.Common.{
  ℕ, ◌≤◌, ◌≡◌, ◌↔◌, refl, false, not, ◌||◌, List, [], ◌∷◌, arith, length, all, All, ltb, nat_beq,
}
use matrades.Common.Int.{ℤ, pos, ltb_ℤ, ◌≤ℤ◌, ◌<ℤ◌, max_ℤ, min_ℤ}
use matrades.Common.Result.{ok, guards_iff}
use matrades.Backtest.{BacktestCandle}
use matrades.Backtest.Candles.{
  sorted, distinct, list_beq, prices, highest, lowest, check_candles, timestamps, validate_candles,
  CandleError,
}
use matrades.Backtest.Candles.Chronology.{IsIncreasing, timestamps_lem}

-- A candle whose prices are positive and between its low and its high.
abbrev pub IsBounded : BacktestCandle → Type 0
IsBounded c =
    All (λ v. pos 0 <ℤ v) (prices c)
    × All (λ v. v ≤ℤ c.high) (prices c)
    × All (λ v. c.low ≤ℤ v) (prices c)

max_ℤ_iff : (a b c : ℤ) → (max_ℤ a b ≤ℤ c) ↔ ((a ≤ℤ c) × (b ≤ℤ c))
max_ℤ_iff a b c = ground arith

min_ℤ_iff : (a b c : ℤ) → (c ≤ℤ min_ℤ a b) ↔ ((c ≤ℤ a) × (c ≤ℤ b))
min_ℤ_iff a b c = ground arith

all_positive_iff :
    (l : List ℤ) → (not (all (λ v. ltb_ℤ (pos 0) v) l) ≡ false) ↔ All (λ v. pos 0 <ℤ v) l
all_positive_iff [] = ((λ h. tt), (λ h. refl))
all_positive_iff (v ∷ l) = (
  (λ h. (ground arith, (all_positive_iff l).0 (ground arith))),
  (λ (p, ps). ground (arith, (all_positive_iff l).1 ps)),
)

bounds_iff : (x h l y : ℤ) → ((ltb_ℤ h x || ltb_ℤ y l) ≡ false) ↔ ((x ≤ℤ h) × (l ≤ℤ y))
bounds_iff x h l y = ground arith

highest_iff : (c : BacktestCandle) (b : ℤ) → (highest c ≤ℤ b) ↔ All (λ v. v ≤ℤ b) (prices c)
highest_iff c b = (
  (λ g.
      let (g', k) = (max_ℤ_iff (max_ℤ (max_ℤ c.open_price c.high) c.low) c.close b).0 g in
      let (g'', l) = (max_ℤ_iff (max_ℤ c.open_price c.high) c.low b).0 g' in
      let (o, h) = (max_ℤ_iff c.open_price c.high b).0 g'' in (o, (h, (l, (k, tt))))),
  (λ (o, (h, (l, (k, u)))). (max_ℤ_iff (max_ℤ (max_ℤ c.open_price c.high) c.low) c.close b).1 (
    (max_ℤ_iff (max_ℤ c.open_price c.high) c.low b).1
        ((max_ℤ_iff c.open_price c.high b).1 (o, h), l),
    k,
  )),
)

lowest_iff : (c : BacktestCandle) (b : ℤ) → (b ≤ℤ lowest c) ↔ All (λ v. b ≤ℤ v) (prices c)
lowest_iff c b = (
  (λ g.
      let (g', k) = (min_ℤ_iff (min_ℤ (min_ℤ c.open_price c.high) c.low) c.close b).0 g in
      let (g'', l) = (min_ℤ_iff (min_ℤ c.open_price c.high) c.low b).0 g' in
      let (o, h) = (min_ℤ_iff c.open_price c.high b).0 g'' in (o, (h, (l, (k, tt))))),
  (λ (o, (h, (l, (k, u)))). (min_ℤ_iff (min_ℤ (min_ℤ c.open_price c.high) c.low) c.close b).1 (
    (min_ℤ_iff (min_ℤ c.open_price c.high) c.low b).1
        ((min_ℤ_iff c.open_price c.high b).1 (o, h), l),
    k,
  )),
)

check_candles_iff : (cs : List BacktestCandle) → (check_candles cs ≡ ok tt) ↔ All IsBounded cs
unfolding check_candles
check_candles_iff [] = ((λ h. tt), (λ h. refl))
check_candles_iff (c ∷ cs) =
    let positive = all_positive_iff (prices c) in
    let bounds = bounds_iff (highest c) c.high c.low (lowest c) in
    let guards =
      guards_iff (not (all (λ v. ltb_ℤ (pos 0) v) (prices c)))
        (ltb_ℤ c.high (highest c) || ltb_ℤ (lowest c) c.low) CandleError.not_positive
        CandleError.inconsistent (check_candles cs) in
    (
      (λ h.
          let (p, q, rest) = guards.0 h in
          let (above, below) = bounds.0 q in
          (
            (positive.0 p, (highest_iff c c.high).0 above, (lowest_iff c c.low).0 below),
            (check_candles_iff cs).0 rest,
          )),
      (λ ((p, above, below), rest). guards.1 (
        positive.1 p,
        bounds.1 ((highest_iff c c.high).1 above, (lowest_iff c c.low).1 below),
        (check_candles_iff cs).1 rest,
      )),
    )

-- Candles pass validation exactly when there are enough of them, each is observed before all later ones,
-- and the prices of each are positive and between its low and its high.
pub validate_candles_iff :
    (minimum : ℕ) (candles : List BacktestCandle)
    → (validate_candles minimum candles ≡ ok tt)
      ↔ ((minimum ≤ length candles) × IsIncreasing (timestamps candles) × All IsBounded candles)
unfolding validate_candles
validate_candles_iff minimum candles =
    let times = timestamps candles in
    let guards =
      guards_iff (ltb (length candles) minimum)
        (not (list_beq times (sorted times))
          || not (nat_beq (length (distinct times)) (length times)))
        CandleError.too_few CandleError.not_chronological (check_candles candles) in
    (
      (λ h.
          let (few, order, rest) = guards.0 h in
          (
            enough minimum (length candles) few,
            (timestamps_lem times).0 order,
            (check_candles_iff candles).0 rest,
          )),
      (λ (few, order, rest). guards.1 (
        not_few minimum (length candles) few,
        (timestamps_lem times).1 order,
        (check_candles_iff candles).1 rest,
      )),
    )
  where
    enough : (m n : ℕ) → ltb n m ≡ false → m ≤ n
    enough m n h = ground arith

    not_few : (m n : ℕ) → m ≤ n → ltb n m ≡ false
    not_few m n h = ground arith
