-- ===== src/Strategies.antt =====
-- Strategies (modules/strategies/, packages/strategy_sdk/): their price protection, their signals, the
-- screening of hypotheses, the validation gates and the lifecycle.
pub mod Levels
pub mod Simulated
pub mod Lifecycle
pub mod Matching
pub mod Screening
