-- ===== src/Provider.antt =====
-- withdrawal_provider_service/app.py: the manual withdrawal queue behind its HTTP handlers.
pub mod Addresses
pub mod Store
pub mod Handlers
pub mod Replay
