-- ===== src/Ledger.antt =====
-- What the marketplace promises about money: an abstract ledger of users and orders, the steps that
-- it may take, and what every step preserves. The operations of Wallet, Orders and Disputes are
-- shown to be such steps.
pub mod Balances
pub mod Held
pub mod Step
pub mod Preserve
