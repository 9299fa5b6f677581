-- ===== src/Tests.antt =====
-- Concrete inputs at which the theorems apply.
mod Data
mod Trading
mod Messages
mod Signing
mod Schedule
mod Money
mod Settling
mod Submitting
mod Deciding
mod Batching
mod Swapping
mod Committing
mod Warming
