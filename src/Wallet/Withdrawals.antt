-- ===== src/Wallet/Withdrawals.antt =====
-- wallet_service.py: withdrawals, from the request on.
pub mod Request
pub mod Fees
pub mod Marks
pub mod Results
pub mod FeesOnce
pub mod Reserved
pub mod Refund
pub mod Settlement
pub mod History
