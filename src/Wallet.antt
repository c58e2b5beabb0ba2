-- ===== src/Wallet.antt =====
-- wallet_service.py: one module for each group of its methods.
pub mod Addresses
pub mod Vault
pub mod Routes
pub mod Users
pub mod Locks
pub mod Charges
pub mod Deposits
pub mod Withdrawals
