-- ===== src/Orders/Cancel.antt =====
-- Cancellations of orders: a request by either party, the other's decision, and the expiry, from
-- src/modules/orders/infrastructure/persistence/prisma-orders.repository.ts.
pub mod Reason
pub mod Request
pub mod Decide
pub mod Returns
