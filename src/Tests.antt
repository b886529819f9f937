-- ===== src/Tests.antt =====
-- Runs at concrete inputs, and the theorems applied to them.
mod Gates
mod Anchor
mod Entry
mod Market
mod Chain
mod Published
mod Levels
mod Venues
mod Targets
mod Watcher
mod Index
mod Desk
mod Stack
mod Engine
mod Execution
mod Records
mod Calls
