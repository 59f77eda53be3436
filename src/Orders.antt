-- ===== src/Orders.antt =====
-- The order domain: the write model of one order, src/domain/orders.
pub mod State
pub mod Errors
pub mod Events
pub mod Commands
pub mod Invariants
pub mod Lifecycle
pub mod Aggregate
pub mod Risk
