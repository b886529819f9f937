-- ===== src/Resolve.antt =====
-- zcastor/resolve/: what happened after a signal.
pub mod Classify
pub mod Resolver
