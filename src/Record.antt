-- ===== src/Record.antt =====
-- zcastor/record/: what is kept of the decisions.
pub mod DecisionLog
pub mod Dossier
pub mod Rollover
pub mod Publisher
pub mod Disclosure
pub mod Canonical
pub mod Proof
