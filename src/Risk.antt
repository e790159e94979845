-- ===== src/Risk.antt =====
-- The risk authority (modules/risk): its models, its arithmetic, the exposure by group, the engine
-- that decides a candidate trade, and the reservations of risk capacity.
pub mod Models
pub mod Financial
pub mod Exposure
pub mod Sizing
pub mod Checks
pub mod Engine
pub mod Evaluate
pub mod Reservations
pub mod Terms
