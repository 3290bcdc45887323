-- ===== src/Tests.antt =====
-- Runs of the model on small tables, and the theorems applied to them.
pub mod Fixtures
pub mod Histories
pub mod Settled
pub mod Lifecycle
pub mod Payments
pub mod Verdicts
pub mod Community
pub mod Shop
pub mod Chat
pub mod Limits
