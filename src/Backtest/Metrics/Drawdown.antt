-- ===== src/Backtest/Metrics/Drawdown.antt =====
-- The maximum drawdown of the backtester's loops (modules/backtesting/ledger.py and
-- modules/backtesting/engine.py) against the losses of consecutive trades.
use matrades.Common.{◌≡◌, refl, sym, subst, ap, ◌∙◌, inl, inr, ◌⊎◌, List, [], ◌∷◌, ◌++◌, map, arith}
use matrades.Common.Int.{ℤ, pos, ◌+ℤ◌, ◌-ℤ◌, ◌≤ℤ◌, max_ℤ, neg_ℤ, int_laws}
use matrades.Backtest.{TradeResult}
use matrades.Backtest.Metrics.{Curve, curve_step, curve_from, no_curve, metrics}

-- What a run of trades earns.
abbrev pub total : List ℤ → ℤ
total [] = pos 0
total (x ∷ xs) = x +ℤ total xs

-- The part of both loops that the drawdown depends on.
abbrev pub drawdown_from : ℤ → ℤ → ℤ → List ℤ → ℤ
drawdown_from equity peak worst [] = worst
drawdown_from equity peak worst (x ∷ xs) =
    let peak' = max_ℤ peak (equity +ℤ x) in
    drawdown_from (equity +ℤ x) peak' (max_ℤ worst (peak' -ℤ (equity +ℤ x))) xs

-- The first part of a split, a part of it, and the rest.
abbrev pub HasRun : List ℤ → List ℤ → Type 0
HasRun whole run = (before : List ℤ) × (after : List ℤ) × (whole ≡ before ++ (run ++ after))

-- No run of consecutive trades loses more, and some run loses as much (the empty run loses nothing).
abbrev pub IsLargestLoss : List ℤ → ℤ → Type 0
IsLargestLoss pnls loss =
    ((run : List ℤ) → HasRun pnls run → neg_ℤ (total run) ≤ℤ loss)
    × ((run : List ℤ) × HasRun pnls run × (loss ≡ neg_ℤ (total run)))

max_ℤ_left : (a b : ℤ) → a ≤ℤ max_ℤ a b
max_ℤ_left a b = ground arith

max_ℤ_right : (a b : ℤ) → b ≤ℤ max_ℤ a b
max_ℤ_right a b = ground arith

max_ℤ-cases : (a b : ℤ) → (max_ℤ a b ≡ a) ⊎ (max_ℤ a b ≡ b)
max_ℤ-cases a b = ground arith

drawdown_from-grows :
    (equity peak worst : ℤ) (xs : List ℤ) → worst ≤ℤ drawdown_from equity peak worst xs
drawdown_from-grows equity peak worst [] = omega arith
drawdown_from-grows equity peak worst (x ∷ xs) =
    let peak' = max_ℤ peak (equity +ℤ x) in
    let worst' = max_ℤ worst (peak' -ℤ (equity +ℤ x)) in
    omega (
      arith,
      max_ℤ_left worst (peak' -ℤ (equity +ℤ x)),
      drawdown_from-grows (equity +ℤ x) peak' worst' xs,
    )

drawdown_from-prefix :
    (equity peak worst : ℤ) (run after : List ℤ)
    → peak ≤ℤ equity +ℤ worst
    → peak ≤ℤ equity +ℤ total run +ℤ drawdown_from equity peak worst (run ++ after)
drawdown_from-prefix equity peak worst [] after h =
    omega (int_laws, drawdown_from-grows equity peak worst after)
drawdown_from-prefix equity peak worst (x ∷ run) after h =
    let peak' = max_ℤ peak (equity +ℤ x) in
    let worst' = max_ℤ worst (peak' -ℤ (equity +ℤ x)) in
    let later =
      drawdown_from-prefix (equity +ℤ x) peak' worst' run after
        (omega (int_laws, max_ℤ_right worst (peak' -ℤ (equity +ℤ x)))) in
    omega (int_laws, max_ℤ_left peak (equity +ℤ x), later)

drawdown_from-run :
    (equity peak worst : ℤ) (before run after : List ℤ)
    → equity ≤ℤ peak
    → peak ≤ℤ equity +ℤ worst
    → neg_ℤ (total run) ≤ℤ drawdown_from equity peak worst (before ++ (run ++ after))
drawdown_from-run equity peak worst [] run after low h =
    omega (int_laws, drawdown_from-prefix equity peak worst run after h)
drawdown_from-run equity peak worst (x ∷ before) run after low h =
    let peak' = max_ℤ peak (equity +ℤ x) in
    drawdown_from-run (equity +ℤ x) peak' (max_ℤ worst (peak' -ℤ (equity +ℤ x))) before run after
      (max_ℤ_right peak (equity +ℤ x))
      (omega (int_laws, max_ℤ_right worst (peak' -ℤ (equity +ℤ x))))

-- Where a drawdown comes from: the one so far, a fall from the peak so far, or a run of these trades.
abbrev Source : ℤ → ℤ → ℤ → List ℤ → ℤ → Type 0
Source equity peak worst xs result =
    (result ≡ worst)
    ⊎ ((run : List ℤ) × (after : List ℤ) × (xs ≡ run ++ after)
        × (result ≡ peak -ℤ (equity +ℤ total run)))
    ⊎ ((run : List ℤ) × HasRun xs run × (result ≡ neg_ℤ (total run)))

drawdown_from-Source :
    (equity peak worst : ℤ) (xs : List ℤ)
    → Source equity peak worst xs (drawdown_from equity peak worst xs)
drawdown_from-Source equity peak worst [] = inl refl
drawdown_from-Source equity peak worst (x ∷ xs) =
    let equity' = equity +ℤ x in
    let peak' = max_ℤ peak equity' in
    let fall = peak' -ℤ equity' in
    let result = drawdown_from equity' peak' (max_ℤ worst fall) xs in
    elim (drawdown_from-Source equity' peak' (max_ℤ worst fall) xs) [
      | inl old ↦ elim (max_ℤ-cases worst fall) [
        | inl same ↦ inl (old ∙ same)
        | inr now ↦ from_peak [] xs refl (old ∙ now ∙ fall_now peak')
      ]
      | inr (inl (run, after, split, e)) ↦ from_peak run after split e
      | inr (inr (run, (before, after, split), e)) ↦
          inr (inr (run, (x ∷ before, after, ap (λ l. x ∷ l) split), e))
    ]
  where
    fall_now : (p : ℤ) → p -ℤ (equity +ℤ x) ≡ p -ℤ (equity +ℤ x +ℤ pos 0)
    fall_now p = omega int_laws

    deeper :
        (run : List ℤ) → peak -ℤ (equity +ℤ x +ℤ total run) ≡ peak -ℤ (equity +ℤ (x +ℤ total run))
    deeper run = omega int_laws

    here : (a b : ℤ) → a -ℤ (a +ℤ b) ≡ neg_ℤ b
    here a b = omega int_laws

    -- A fall from the new peak is one from the old peak, or a run from here.
    from_peak :
        {result : ℤ} (run after : List ℤ)
        → xs ≡ run ++ after
        → result ≡ max_ℤ peak (equity +ℤ x) -ℤ (equity +ℤ x +ℤ total run)
        → Source equity peak worst (x ∷ xs) result
    from_peak run after split e = elim (max_ℤ-cases peak (equity +ℤ x)) [
      | inl same ↦ inr (
          inl (
            x ∷ run,
            after,
            ap (λ l. x ∷ l) split,
            e ∙ ap (λ p. p -ℤ (equity +ℤ x +ℤ total run)) same ∙ deeper run,
          ))
      | inr new ↦ inr (
          inr (
            run,
            (x ∷ [], after, ap (λ l. x ∷ l) split),
            e ∙ ap (λ p. p -ℤ (equity +ℤ x +ℤ total run)) new ∙ here (equity +ℤ x) (total run),
          ))
    ]

pub drawdown_from-IsLargestLoss :
    (equity : ℤ) (pnls : List ℤ) → IsLargestLoss pnls (drawdown_from equity equity (pos 0) pnls)
drawdown_from-IsLargestLoss equity pnls = (
  (λ run (before, after, split).
      subst (λ l. neg_ℤ (total run) ≤ℤ drawdown_from equity equity (pos 0) l) (sym split)
        (drawdown_from-run equity equity (pos 0) before run after (omega arith) (omega int_laws))),
  elim (drawdown_from-Source equity equity (pos 0) pnls) [
    | inl none_lost ↦ ([], ([], pnls, refl), none_lost ∙ nothing)
    | inr (inl (run, after, split, e)) ↦ (run, ([], after, split), e ∙ lost (total run))
    | inr (inr found) ↦ found
  ],
)
  where
    nothing : pos 0 ≡ neg_ℤ (pos 0)
    nothing = omega int_laws

    lost : (b : ℤ) → equity -ℤ (equity +ℤ b) ≡ neg_ℤ b
    lost b = omega int_laws

curve_from-drawdown :
    (k : Curve) (pnls : List ℤ)
    → (curve_from k pnls).max_drawdown ≡ drawdown_from k.equity k.peak k.max_drawdown pnls
unfolding curve_from
curve_from-drawdown k [] = refl
curve_from-drawdown k (x ∷ xs) = curve_from-drawdown (curve_step x k) xs

-- The maximum drawdown of the metrics is the largest loss of a run of consecutive trades: no run loses
-- more, and one loses as much, the empty one when no run loses.
pub metrics-IsLargestLoss :
    (trades : List TradeResult)
    → IsLargestLoss (map (λ t. t.pnl) trades) (metrics trades).max_drawdown
unfolding metrics
metrics-IsLargestLoss trades =
    subst (IsLargestLoss (map (λ t. t.pnl) trades))
      (sym (curve_from-drawdown no_curve (map (λ t. t.pnl) trades)))
      (drawdown_from-IsLargestLoss (pos 0) (map (λ t. t.pnl) trades))
