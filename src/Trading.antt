-- ===== src/Trading.antt =====
-- The trading domain (modules/trading): plans, commands, their authorization and dispatch, and the
-- reconciliation of a command with the broker's facts.
pub mod Models
pub mod Safety
pub mod Plans
pub mod Authorization
pub mod Authority
pub mod Ledger
pub mod Dispatch
pub mod Reconciliation
pub mod Ticket
pub mod Monitor
