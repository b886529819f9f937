-- ===== src/Anchor.antt =====
-- zcastor/anchor/: what goes to the chain.
pub mod Record
pub mod Outbox
pub mod Null
pub mod Nvnm
pub mod Index
