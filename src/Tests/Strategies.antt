-- ===== src/Tests/Strategies.antt =====
-- Runs of the strategies, the broker's terms and the trade ticket.
use matrades.Common.{
  ℕ, ◌-◌, ◌≤◌, ◌<◌, ◌≡◌, refl, true, false, nat_beq, none, some, List, [], ◌∷◌, arith, any, All,
  ◌*◌,
}
use matrades.Common.Int.{pos, ◌+ℤ◌, ◌-ℤ◌, neg_ℤ, ◌<ℤ◌}
use matrades.Common.Result.{ok}
use matrades.Domain.{QuantityUnit, InstrumentType, round_down}
use matrades.Risk.Models.{Direction}
use matrades.Risk.Financial.{type_aware_loss_per_unit}
use matrades.Risk.Terms.{
  LiveTradeTerms, IsTradable, validate_size, maximum_stepped_size, maximum_stepped_size_largest,
}
use matrades.Trading.Ticket.{
  TradeTicket, Lists, IsLossSide, IsWinSide, is_hard_block, loss_to, scenarios, build_trade_ticket,
  build_trade_ticket-IsSound,
}
use matrades.Backtest.{TradeResult}
use matrades.Backtest.Protection.Loop.{simulate_protected_trades}
use matrades.Backtest.Protection.Positive.{results_of, exit_times_of}
use matrades.Backtest.Metrics.{AccountMetrics, risk_normalized_account_metrics}
use matrades.Strategies.Levels.{
  TradeRules, floor_to, ceiling_to, protection_levels, strategy_signals,
}
use matrades.Strategies.Levels.Protective.{IsProtective, protection_levels-IsProtective}
use matrades.Strategies.Simulated.{simulated_strategy-returns}
use matrades.Strategies.Lifecycle.{
  StrategyState, is_allowed, transition, History, drafted, moved, stage, History-stages,
}
use matrades.Common.{◌↔◌}
use matrades.Strategies.Matching.{
  Operator, Operand, Conditions, IsEntry, entry_matches, entry_matches_iff,
}
use matrades.Strategies.Screening.{
  Backtested, screen_one, key_le, screen_hypotheses, screen_hypotheses-IsBest,
}
use matrades.Tests.Risk.{reduced}
use matrades.Tests.Backtest.{decimals, candles, management, configuration}

abbrev rules : TradeRules
rules = record {
  direction = matrades.Backtest.Direction.long;
  scale = 2;
  stop_volatility_multiple = 3;
  take_profit_r_multiples = 2 ∷ 4 ∷ [];
}

levels-run :
    protection_levels rules (pos 1000) (pos 5) (some (pos 5))
    ≡ ok (pos 970, pos 1030 ∷ pos 1060 ∷ [])
unfolding protection_levels floor_to ceiling_to ◌+ℤ◌ ◌-ℤ◌ neg_ℤ
levels-run = refl

protection_levels-IsProtective_example :
    IsProtective matrades.Backtest.Direction.long (pos 1000) (pos 970) (pos 1030 ∷ pos 1060 ∷ [])
protection_levels-IsProtective_example =
    protection_levels-IsProtective rules (pos 1000) (pos 5) (some (pos 5)) (pos 970)
      (pos 1030 ∷ pos 1060 ∷ []) (omega arith, omega arith, (omega arith, (omega arith, tt)))
      levels-run

simulated_strategy-returns_example :
    (report : AccountMetrics) × (risk_normalized_account_metrics decimals
        (pos 1)
        (λ t. t)
        (results_of (
          simulate_protected_trades
            (strategy_signals rules none (λ index. pos 1) (λ index. true) (λ index. false))
            management
            configuration
            candles))
        (exit_times_of (
          simulate_protected_trades
            (strategy_signals rules none (λ index. pos 1) (λ index. true) (λ index. false))
            management
            configuration
            candles))
        configuration
      ≡ ok report)
simulated_strategy-returns_example =
    simulated_strategy-returns rules none (λ index. pos 1) (λ index. true) (λ index. false)
      management configuration candles decimals (pos 1) (λ t. t)
      (omega arith, omega arith, (omega arith, (omega arith, tt))) refl

abbrev past : List StrategyState
past =
    StrategyState.active ∷ StrategyState.approved ∷ StrategyState.paper_trading
    ∷ StrategyState.validating ∷ StrategyState.backtesting ∷ StrategyState.implemented
    ∷ StrategyState.specified ∷ StrategyState.draft ∷ []

released : History past StrategyState.active
unfolding transition is_allowed
released =
    moved
      (moved
        (moved
          (moved
            (moved
              (moved (moved drafted StrategyState.specified refl) StrategyState.implemented refl)
              StrategyState.backtesting refl)
            StrategyState.validating refl)
          StrategyState.paper_trading refl)
        StrategyState.approved refl)
      StrategyState.active refl

History-stages_example : any (λ x. nat_beq (stage x) 4) past ≡ true
History-stages_example = History-stages 4 released (omega arith)

abbrev run : ℕ → Backtested
run id = record {
  trade_count = id;
  net_profit = pos (10 - id);
  r = pos id;
  gates = true ∷ false ∷ [];
}

screen_hypotheses-IsBest_example :
    ((id : ℕ)
      → (screen_hypotheses run (3 ∷ 0 ∷ 2 ∷ [])).selected_hypothesis_id ≡ some id
      → (0 < (run id).trade_count)
        × (pos 0 <ℤ (run id).net_profit)
        × All
            (λ r. r.eligible ≡ true → key_le (screen_one run id) r ≡ true)
            (screen_hypotheses run (3 ∷ 0 ∷ 2 ∷ [])).results)
    × ((screen_hypotheses run (3 ∷ 0 ∷ 2 ∷ [])).selected_hypothesis_id ≡ none
        → All (λ r. r.eligible ≡ false) (screen_hypotheses run (3 ∷ 0 ∷ 2 ∷ [])).results)
screen_hypotheses-IsBest_example = screen_hypotheses-IsBest run (3 ∷ 0 ∷ 2 ∷ [])

abbrev terms : LiveTradeTerms
terms = record {
  account_currency = 1;
  price_currency = 1;
  quantity_unit = QuantityUnit.lots;
  contract_multiplier = pos 1;
  tick_size = pos 1;
  tick_value = none;
  quantity_minimum = 10;
  quantity_maximum = 105;
  quantity_step = 20;
  specification_version_id = 4;
}

maximum-run : maximum_stepped_size terms ≡ ok 100
unfolding maximum_stepped_size round_down validate_size
maximum-run = refl

maximum_stepped_size_largest_example :
    (validate_size terms 100 ≡ ok tt)
    × ((other : ℕ) → validate_size terms other ≡ ok tt → other ≤ 100)
maximum_stepped_size_largest_example = maximum_stepped_size_largest terms 100 maximum-run

abbrev ticket : TradeTicket
ticket = record {
  account_currency = 1;
  requested_risk_limit = pos 900;
  potential_loss_before_costs = 600;
  targets =
      record {
        price = pos 120;
        profit_before_costs = 1200;
        research_fraction = none;
        broker_hard_take_profit = true;
      }
      ∷ record {
        price = pos 130;
        profit_before_costs = 1800;
        research_fraction = some (pos 1);
        broker_hard_take_profit = false;
      }
      ∷ [];
}

ticket-run :
    build_trade_ticket terms InstrumentType.cfd 2 1 Direction.buy
      (pos 100)
      (pos 90)
      (pos 120 ∷ pos 130 ∷ [])
      (none ∷ some (pos 1) ∷ [])
      (pos 900)
      reduced
    ≡ ok ticket
unfolding build_trade_ticket scenarios type_aware_loss_per_unit validate_size ◌-ℤ◌
ticket-run = refl

build_trade_ticket-IsSound_example :
    (is_hard_block reduced.decision ≡ false)
    × (0 < reduced.approved_size)
    × IsTradable terms reduced.approved_size
    × IsLossSide Direction.buy (pos 100) (pos 90)
    × All (IsWinSide Direction.buy (pos 100)) (pos 120 ∷ pos 130 ∷ [])
    × ((per_unit : ℕ) × (loss_to terms InstrumentType.cfd 1 (pos 100) (pos 90) ≡ ok per_unit)
        × (ticket.potential_loss_before_costs ≡ reduced.approved_size * per_unit))
    × Lists true (pos 120 ∷ pos 130 ∷ []) ticket.targets
build_trade_ticket-IsSound_example =
    build_trade_ticket-IsSound terms InstrumentType.cfd 2 1 Direction.buy (pos 100) (pos 90)
      (pos 120 ∷ pos 130 ∷ []) (none ∷ some (pos 1) ∷ []) (pos 900) reduced ticket ticket-run

abbrev conditions : Conditions
conditions = record {
  entry =
      record { feature = 1; operator = Operator.greater; value = Operand.name 2 }
      ∷ record { feature = 1; operator = Operator.less; value = Operand.number (pos 90) }
      ∷ [];
  confirmations = [];
  filters = [];
  exit = record { feature = 1; operator = Operator.less; value = Operand.name 2 } ∷ [];
  invalidation =
      record { feature = 3; operator = Operator.equal; value = Operand.number (pos 0) } ∷ [];
  regimes_ask_news = false;
}

entry_matches_iff_example :
    (entry_matches (λ f. true) conditions ((1, pos 50) ∷ (2, pos 40) ∷ []) ≡ true)
    ↔ IsEntry (λ f. true) conditions ((1, pos 50) ∷ (2, pos 40) ∷ [])
entry_matches_iff_example =
    entry_matches_iff (λ f. true) conditions ((1, pos 50) ∷ (2, pos 40) ∷ [])
