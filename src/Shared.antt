-- ===== src/Shared.antt =====
-- src/shared/utils: pagination and order codes.
pub mod Pagination
pub mod OrderCode
pub mod Idempotency
pub mod Exclusive
pub mod Throttler
pub mod Admitted
