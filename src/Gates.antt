-- ===== src/Gates.antt =====
-- zcastor/gates/: the gate stack.
pub mod Verdict
pub mod Pipeline
pub mod Context
pub mod Payload
pub mod Cost
pub mod Structure
pub mod Feed
pub mod Exposure
pub mod Laws
pub mod Stack
