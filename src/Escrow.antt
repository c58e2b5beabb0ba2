-- ===== src/Escrow.antt =====
-- escrow_service.py: the escrow's life, from its creation to its end.
mod Rows
pub mod Lists
pub mod Checks
pub mod Create
pub mod Settle
pub mod Dispute
pub mod Service
pub mod Linked
pub mod Effects
pub mod Payout
pub mod Life
pub mod History
pub mod Returns
pub mod Permits
pub mod Exits
pub mod Book
pub mod Balances
pub mod Conservation
pub use Rows.*
unfoldable pub use Rows.{escrow_row, set_status, event}
