-- ===== src/Risk.antt =====
-- zcastor/risk/: what the gates ask about recent entries.
pub mod Zones
pub mod Coherence
