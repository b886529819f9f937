-- ===== src/Execution.antt =====
-- zcastor/execution/: orders, their booking, and the engine that acts on a decision.
pub mod Orders
pub mod Journal
pub mod Spot
pub mod Booking
pub mod Engine
