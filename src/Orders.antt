-- ===== src/Orders.antt =====
-- modules/orders: the operations of
-- src/modules/orders/infrastructure/persistence/prisma-orders.repository.ts. Each is a transaction,
-- and what the method does after it has committed: the socket message, then the deadline jobs.
pub mod Windows
pub mod Guards
pub mod Place
pub mod Returns
pub mod Decide
pub mod Deliver
pub mod Finish
pub mod Versions
pub mod Stale
pub mod Extend
pub mod Cancel
pub mod Attention
pub mod Deadlines
