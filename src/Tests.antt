-- ===== src/Tests.antt =====
-- Tests and the concrete runs that the theorems are applied to.
mod Risk
mod Reservations
mod Trading
mod Commands
mod Services
mod Store
mod Backtest
mod Strategies
