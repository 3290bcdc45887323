-- ===== src/Refinement.antt =====
-- The operations refine the abstract ledger: one that returns has taken a step of it.
pub mod Escrow
pub mod Decide
pub mod Place
pub mod Finish
pub mod Extend
pub mod Cancel
pub mod Cancelled
pub mod Split
pub mod Disputes
