-- ===== src/Backtest/Metrics/Account.antt =====
-- The account of `risk_normalized_account_metrics` (modules/backtesting/engine.py): its equity, its
-- drawdown and its days.
use matrades.Common.{
  ℕ, ◌≡◌, refl, sym, subst, ap, ◌∙◌, inl, inr, Bool, true, some, List, [], ◌∷◌, ◌++◌, arith, length,
  all, leb, nat_beq, nat_beq_iff, if◌then◌else◌, Bool-cases, Option-cases, some-injective, nat_eq,
}
use matrades.Common.Int.{ℤ, pos, ◌+ℤ◌, ◌-ℤ◌, ◌≤ℤ◌, leb_ℤ, max_ℤ, neg_ℤ, int_laws, +ℤ_assoc}
use matrades.Common.Dict.{Dict, lookup, insert, values, lookup-insert}
use matrades.Common.Result.{Result, ok, err, ok-injective}
use matrades.Backtest.{BacktestConfiguration, TradeResult}
use matrades.Backtest.Metrics.{
  AccountError, AccountCurve, AccountMetrics, Decimals, account_pnl, day_total, account_step,
  account_from, no_account, account_report, report_of, risk_normalized_account_metrics,
}
use matrades.Backtest.Metrics.Drawdown.{
  total, drawdown_from, IsLargestLoss, HasRun, drawdown_from-IsLargestLoss,
}

-- What the exits of one day earn.
abbrev pub earned_on : (ℕ → ℕ) → ℕ → List ℕ → List ℤ → ℤ
earned_on day d [] pnls = pos 0
earned_on day d (e ∷ es) [] = pos 0
earned_on day d (e ∷ es) (x ∷ xs) =
    if nat_beq (day e) d then x +ℤ earned_on day d es xs else earned_on day d es xs

append_assoc : (l k : List ℤ) (x : ℤ) → (l ++ x ∷ []) ++ k ≡ l ++ (x ∷ k)
append_assoc [] k x = refl
append_assoc (y ∷ l) k x = ap (λ r. y ∷ r) (append_assoc l k x)

append_nil : (l : List ℤ) → l ≡ l ++ []
append_nil [] = refl
append_nil (y ∷ l) = ap (λ r. y ∷ r) (append_nil l)

-- A profit less a loss, of which one is the gain and the other nothing.
gain_lem :
    (profit loss x : ℤ)
    → profit +ℤ max_ℤ (pos 0) x -ℤ (loss +ℤ max_ℤ (pos 0) (neg_ℤ x)) ≡ profit -ℤ loss +ℤ x
gain_lem profit loss x =
    apart (max_ℤ (pos 0) x) (max_ℤ (pos 0) (neg_ℤ x)) ∙ ap (λ v. profit -ℤ loss +ℤ v) (one_gain x)
  where
    apart : (a b : ℤ) → profit +ℤ a -ℤ (loss +ℤ b) ≡ profit -ℤ loss +ℤ (a -ℤ b)
    apart a b = omega int_laws

    one_gain : (x : ℤ) → max_ℤ (pos 0) x -ℤ max_ℤ (pos 0) (neg_ℤ x) ≡ x
    one_gain x = grind int_laws

module _ (decimal : Decimals) (risk_percent : ℤ) (day : ℕ → ℕ) where
  -- What the trades earn, from an equity on that grows with each.
  abbrev pub IsEarned : ℤ → List TradeResult → List ℤ → Type 0
  IsEarned equity [] [] = Unit
  IsEarned equity [] (x ∷ xs) = ⊥
  IsEarned equity (t ∷ ts) [] = ⊥
  IsEarned equity (t ∷ ts) (x ∷ xs) =
      (x
        ≡ decimal.divide
            (decimal.multiply (decimal.multiply (decimal.divide t.pnl (pos t.risk)) equity)
              risk_percent)
            (decimal.of_int 100))
      × IsEarned (equity +ℤ x) ts xs

  account_pnl_lem :
      (t : TradeResult) (equity : ℤ)
      → account_pnl decimal risk_percent t equity
        ≡ decimal.divide
            (decimal.multiply
              (decimal.multiply (decimal.divide t.pnl (pos t.risk)) equity)
              risk_percent)
            (decimal.of_int 100)
  unfolding account_pnl
  account_pnl_lem t equity = refl

  -- How a state of the loop comes from an earlier one by a list of gains.
  abbrev Earns : List TradeResult → List ℕ → AccountCurve → AccountCurve → List ℤ → Type 0
  Earns trades exits k k' pnls =
      (k'.account_pnls ≡ k.account_pnls ++ pnls)
      × (k'.equity ≡ k.equity +ℤ total pnls)
      × (k'.max_drawdown ≡ drawdown_from k.equity k.peak k.max_drawdown pnls)
      × (k'.gross_profit -ℤ k'.gross_loss ≡ k.gross_profit -ℤ k.gross_loss +ℤ total pnls)
      × ((d : ℕ)
          → day_total (lookup d k'.daily)
            ≡ day_total (lookup d k.daily) +ℤ earned_on day d exits pnls)
      × IsEarned k.equity trades pnls

  account_from-Earns :
      (k k' : AccountCurve) (trades : List TradeResult) (exits : List ℕ)
      → account_from decimal risk_percent day k trades exits ≡ ok k'
      → (pnls : List ℤ) × Earns trades exits k k' pnls
  unfolding account_from
  account_from-Earns k k' [] [] e =
      subst (λ k'. (pnls : List ℤ) × Earns [] [] k k' pnls) (ok-injective e)
        (
          [],
          (
            append_nil k.account_pnls,
            omega int_laws,
            refl,
            omega int_laws,
            λ d. omega int_laws,
            tt,
          ),
        )
  account_from-Earns k k' [] (x ∷ es) e = cc
  account_from-Earns k k' (t ∷ ts) [] e = cc
  account_from-Earns k k' (t ∷ ts) (x ∷ es) e = elim (Bool-cases (leb t.risk 0)) [
    | inl no_risk ↦ absurd (no_ok (rw no_risk at e))
    | inr risk ↦
        let pnl = account_pnl decimal risk_percent t k.equity in
        let (pnls, (listed, equity, worst, gains, days, earned)) =
          account_from-Earns (account_step decimal risk_percent day pnl x k) k' ts es
            (rw risk at e) in
        (
          pnl ∷ pnls,
          (
            listed ∙ append_assoc k.account_pnls pnls pnl,
            equity ∙ +ℤ_assoc k.equity pnl (total pnls),
            worst,
            gains
                ∙ ap (λ v. v +ℤ total pnls) (gain_lem k.gross_profit k.gross_loss pnl)
                ∙ +ℤ_assoc (k.gross_profit -ℤ k.gross_loss) pnl (total pnls),
            (λ d. days d ∙ day_step d pnl (day x) k.daily (earned_on day d es pnls)),
            (account_pnl_lem t k.equity, earned),
          ),
        )
  ]
    where
      no_ok : ¬ (
          ◌≡◌ {A = Result AccountError AccountCurve} (err AccountError.risk_not_positive) (ok k'))
      no_ok h = cc

      day_step :
          (d : ℕ) (pnl : ℤ) (now : ℕ) (daily : Dict ℕ ℤ) (later : ℤ)
          → day_total (lookup d (insert now (day_total (lookup now daily) +ℤ pnl) daily)) +ℤ later
            ≡ day_total (lookup d daily) +ℤ (if nat_beq now d then pnl +ℤ later else later)
      day_step d pnl now daily later =
          let v = day_total (lookup now daily) +ℤ pnl in
          elim (Bool-cases (nat_beq now d)) [
            | inl t ↦
                rw (lookup-insert now d v daily, t, (nat_beq_iff now d).0 t)
                  (+ℤ_assoc (day_total (lookup d daily)) pnl later)
            | inr t ↦ rw (lookup-insert now d v daily, t) refl
          ]

all-lookup :
    (test : ℤ → Bool) (d : ℕ) (v : ℤ) (daily : Dict ℕ ℤ)
    → all test (values daily) ≡ true
    → lookup d daily ≡ some v
    → test v ≡ true
all-lookup test d v [] h e = cc
all-lookup test d v ((j, w) ∷ daily) h e = elim (Bool-cases (nat_beq j d)) [
  | inl t ↦ subst (λ u. test u ≡ true) (some-injective (rw t at e)) (ground arith)
  | inr t ↦ all-lookup test d v daily (ground arith) (rw t at e)
]

module _ (decimal : Decimals) (risk_percent : ℤ) (day : ℕ → ℕ) (cfg : BacktestConfiguration) where
  -- An account's equity and its days within its limits.
  abbrev pub IsWithin : List ℕ → List ℤ → Type 0
  IsWithin exits pnls =
      ((run : List ℤ) → HasRun pnls run → neg_ℤ (total run) ≤ℤ pos cfg.max_total_loss)
      × ((d : ℕ) → neg_ℤ (pos cfg.max_daily_loss) ≤ℤ earned_on day d exits pnls)

  abbrev pub IsAccount : List TradeResult → List ℕ → AccountMetrics → Type 0
  IsAccount trades exits report =
      IsEarned decimal risk_percent day cfg.initial_equity trades report.pnls
      × (report.ending_equity ≡ cfg.initial_equity +ℤ total report.pnls)
      × (report.net_profit ≡ total report.pnls)
      × (report.profit -ℤ report.loss ≡ total report.pnls)
      × IsLargestLoss report.pnls report.drawdown
      × (report.policy_passed ≡ true → IsWithin exits report.pnls)

  account_report-IsAccount :
      (k : AccountCurve) (trades : List TradeResult) (exits : List ℕ) (pnls : List ℤ)
      → Earns decimal risk_percent day trades exits (no_account decimal risk_percent day cfg) k pnls
      → IsAccount trades exits (account_report decimal risk_percent day cfg k)
  account_report-IsAccount k trades exits pnls (listed, equity, worst, gains, days, earned) =
      let largest : IsLargestLoss pnls k.max_drawdown =
        subst (IsLargestLoss pnls) (sym worst)
          (drawdown_from-IsLargestLoss cfg.initial_equity pnls) in
      rw listed (
        earned,
        equity,
        ap (λ v. v -ℤ cfg.initial_equity) equity ∙ gained cfg.initial_equity (total pnls),
        gains ∙ nothing_before (total pnls),
        largest,
        λ passed. (
          (λ run in_pnls.
              within (neg_ℤ (total run)) k.max_drawdown (pos cfg.max_total_loss)
                (largest.0 run in_pnls) (ground arith)),
          λ d.
              subst (λ v. neg_ℤ (pos cfg.max_daily_loss) ≤ℤ v)
                (days d ∙ from_zero (earned_on day d exits pnls)) (day_within d (ground arith)),
        ),
      )
    where
      gained : (a b : ℤ) → a +ℤ b -ℤ a ≡ b
      gained a b = omega int_laws

      nothing_before : (b : ℤ) → pos 0 -ℤ pos 0 +ℤ b ≡ b
      nothing_before b = omega int_laws

      from_zero : (b : ℤ) → pos 0 +ℤ b ≡ b
      from_zero b = omega int_laws

      within : (a b c : ℤ) → a ≤ℤ b → leb_ℤ b c ≡ true → a ≤ℤ c
      within a b c h t = ground arith

      day_within :
          (d : ℕ)
          → all (λ v. leb_ℤ (neg_ℤ (pos cfg.max_daily_loss)) v) (values k.daily) ≡ true
          → neg_ℤ (pos cfg.max_daily_loss) ≤ℤ day_total (lookup d k.daily)
      day_within d h = elim (Option-cases (lookup d k.daily)) [
        | inl e ↦ rw e (omega int_laws)
        | inr (v, e) ↦ rw e (at_least v (all-lookup _ d v k.daily h e))
      ]
        where
          at_least :
              (v : ℤ)
              → leb_ℤ (neg_ℤ (pos cfg.max_daily_loss)) v ≡ true
              → neg_ℤ (pos cfg.max_daily_loss) ≤ℤ v
          at_least v t = ground arith

  report_of-IsAccount :
      (result : Result AccountError AccountCurve) (trades : List TradeResult) (exits : List ℕ)
      (report : AccountMetrics)
      → report_of decimal risk_percent day cfg result ≡ ok report
      → ((k : AccountCurve)
          → result ≡ ok k
          → IsAccount trades exits (account_report decimal risk_percent day cfg k))
      → IsAccount trades exits report
  report_of-IsAccount (err e) trades exits report h each = cc
  report_of-IsAccount (ok k) trades exits report h each =
      subst (IsAccount trades exits) (ok-injective h) (each k refl)

  -- A report of the account adds up: each trade earns its profit over its risk, times the equity at its
  -- time, which is the initial one and what the earlier trades earned, times the risk percentage over 100;
  -- the ending equity is the initial one and what the trades earned, the
  -- net profit and gross profit less gross loss are what they earned, and the drawdown is the largest loss
  -- of a run of consecutive trades. If the policy passed, no run loses more than the limit on the total
  -- loss, and the exits of each day earn no less than the limit on the daily loss, negated.
  pub risk_normalized_account_metrics-IsAccount :
      (trades : List TradeResult) (exited_at : List ℕ) (report : AccountMetrics)
      → risk_normalized_account_metrics decimal risk_percent day trades exited_at cfg ≡ ok report
      → IsAccount trades exited_at report
  unfolding risk_normalized_account_metrics
  risk_normalized_account_metrics-IsAccount trades exited_at report e =
      elim (Bool-cases (nat_beq (length trades) (length exited_at))) [
        | inr t ↦ absurd (no_report (rw t at e))
        | inl t ↦
            report_of-IsAccount (account_from decimal risk_percent day start trades exited_at)
              trades exited_at report (rw t at e)
              (λ k got.
                let (pnls, earns) =
                  account_from-Earns decimal risk_percent day start k trades exited_at got in
                account_report-IsAccount k trades exited_at pnls earns)
      ]
    where
      start : AccountCurve
      start = no_account decimal risk_percent day cfg

      no_report : ¬ (
          ◌≡◌ {A = Result AccountError AccountMetrics}
            (err AccountError.exits_do_not_match)
            (ok report))
      no_report h = cc
