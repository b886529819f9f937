-- ===== src/Market.antt =====
-- zcastor/market/: the levels, the session opens, and the two venues behind one reading port.
pub mod Levels
pub mod Session
pub mod Port
pub mod Mt5
pub mod Binance
pub mod Snapshot
