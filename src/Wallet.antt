-- ===== src/Wallet.antt =====
-- modules/wallet: balances, the escrow moves that orders and disputes call, deposits and
-- withdrawals (src/modules/wallet).
pub mod Escrow
pub mod Funds
pub mod Commands
pub mod Pending
pub mod Withdraw
pub mod Decided
pub mod Outcome
