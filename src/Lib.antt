-- ===== src/Lib.antt =====
-- Verification of Matrades, a trading assistant that sizes, authorizes and dispatches trades. This
-- library models the deterministic core of its Python services: what limits a trade's risk, who may
-- send a command to a broker, and what happens to the command afterwards.
--
-- How the parts interact. A risk context (account, policy limits, open positions) and a candidate
-- trade go through the risk engine, which approves a size. A Trade Plan is built from the result and
-- claims its risk in the reservations. The execution service authorizes the plan under the account's
-- permissions and kill switches, makes an idempotent command of it in the ledger, and dispatches it;
-- a guard checks every authority input again before an adapter sees the command. A command with an
-- uncertain outcome is reconciled with the broker's facts before a retry. Commands are kept in the
-- durable store, with an audit trail and an outbox, and workers lease them from it. Before that, a
-- strategy is backtested: its levels protect each simulated trade, the trades make an account, a screen
-- picks a hypothesis, and the strategy goes through its lifecycle to release. A trade ticket shows
-- the broker's terms, the loss at the stop and the profit at the targets.
--
-- Files, and the code they model:
--   Common            shared notation and lemmas: tests, lists, dicts, results, Decimals, texts
--   Domain            packages/shared/domain_types.py
--   Policy            modules/policy/models.py, effective_limits.py
--   Accounts          modules/accounts/models.py, service.py, snapshots.py
--   Risk.Models       modules/risk/models.py
--   Risk.Financial    financial_math.py, position_sizing.py, drawdown.py, reserved_risk.py,
--                     trade_capacity.py; Risk.Exposure is exposure.py
--   Risk.Checks, Risk.Engine, Risk.Evaluate
--                     modules/risk/engine.py: the checks of a typed candidate, the stages of
--                     `evaluate`, and their composition
--   Risk.Reservations modules/risk/reservations.py: the persistent store; Risk.Reservations.Book is
--                     the in-memory `ReservationBook`
--   Trading.Models    modules/trading/models.py
--   Trading.Safety    permissions.py, kill_switches.py
--   Trading.Plans     trade_plans.py
--   Trading.Authorization, Trading.Authority
--                     execution.py up to the ledger, authorization.py; authority.py
--   Trading.Ledger, Trading.Dispatch
--                     execution.py: `ExecutionLedger` and the service's commands; transitions and
--                     `dispatch`
--   Trading.Reconciliation, Trading.Monitor
--                     reconciliation.py and reconciliation_decisions.py; monitor.py
--   Risk.Terms        modules/risk/live_terms.py: the volumes a broker takes
--   Trading.Ticket    modules/trading/ticket.py
--   Store             packages/shared/store.py, persistence.py, outbox.py; Store.Commands is
--                     modules/trading/execution_store.py, Store.Idempotency
--                     packages/shared/idempotency.py
--   Backtest          modules/backtesting: Candles and the account of Metrics are engine.py,
--                     Protection is protection.py, Metrics ledger.py, Costs
--                     costs.py
--   Strategies        modules/strategies: Levels is `protection_levels` of signals.py, Lifecycle
--                     lifecycle.py, Matching `matches` and `entry_matches` of signals.py, Screening
--                     screening.py; Simulated composes Levels with Backtest
--   Bridge            bridges/mt5/commands.py
--   PropFirms         modules/prop_firms/models.py, service.py; Guardrails is
--                     modules/policy/guardrails.py
--   Connections       modules/connections/circuit_breaker.py; Binding is resolution.py
--   Tests             concrete runs
--
-- State. An object with state is a record, and a method a function that takes it and returns the
-- result with the state as the call leaves it, also where the call raises. What the database refuses
-- when a session flushes is an error of the call: a second row with a unique value, and an update of a
-- row that is gone. A Python dict is an
-- association list in insertion order. Fresh identifiers (`uuid4`) and the instants that a call reads
-- (`utc_now()`) are arguments; where a theorem needs an identifier to be fresh, it says so.
--
-- Numbers. A Decimal is a whole number of a quantum that belongs to its dimension; the quantum of money
-- is the product of those of quantity and of the loss for one unit of quantity, so products are exact.
-- The division in `size_for_risk` is kept as an exact quotient until it is rounded down to the
-- increment, and that of a futures distance by its tick is exact by the choice of the quantum. The
-- rounding of the Decimal context, 28 digits, is not modelled. Instants are whole microseconds. A
-- text or an identifier that is only compared or copied is a natural number, and an empty text counts
-- as none where the code tests it so. `Decimal("Infinity")` is a constructor of its own, and a risk
-- snapshot that would hold it is refused, as pydantic 2.13 refuses a Decimal that is not finite. Where
-- the code compares the texts of Decimals, a Decimal has its number and its exponent.
--
-- Parameters. The broker's adapters and the digest (JSON and SHA-256) are functions that dispatch,
-- authorization and the idempotency store take as arguments; no hypothesis about them is used. The
-- encoder of JSON data is a parameter of the durable store, and where a theorem needs it to keep data
-- that is JSON as it is, it says so. The backtester's account takes the division and the multiplication
-- of Python's Decimals and the day of an instant as functions. The simulation asks a record `Signals`: its theorems hold
-- for any, but for those that need a stop on the losing side, which `protection_levels` gives.
--
-- Fuel. The outer loop of the simulation runs on fuel, one unit for each candle; each of its rounds
-- passes at least one candle. Every other function recurses on a list.
--
-- Not modelled: the API, the workers and the web application, the database sessions and row locks
-- (each operation is one step on the tables, and a lease is also split after its read), the JSON file of
-- the bridge's queue, the sorting and deduplication of `limiting_constraints`, fields that are only
-- stored for display or audit, the features and news states that strategies are matched on, the run of
-- the backtester with its robustness statistics, and the research, knowledge, agent and market-data
-- modules.
pub mod Common
pub mod Domain
pub mod Policy
pub mod Accounts
pub mod Risk
pub mod Trading
pub mod Bridge
pub mod PropFirms
pub mod Connections
pub mod Store
pub mod Backtest
pub mod Strategies
pub mod Tests
