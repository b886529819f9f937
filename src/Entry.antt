-- ===== src/Entry.antt =====
-- zcastor/entry/: zone entries.
pub mod Pending
pub mod Zones
pub mod Watcher
