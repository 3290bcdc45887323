-- ===== src/Disputes.antt =====
-- modules/disputes: filing, the answer, evidence and the admin's verdict
-- (src/modules/disputes).
pub mod Payout
pub mod File
pub mod Guarded
pub mod Resolve
