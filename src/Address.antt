-- ===== src/Address.antt =====
-- What the address checks of wallet_service.py and withdrawal_provider_service/app.py call outside
-- the program (hashlib, eth_utils, bip_utils, Python's case mapping), and the operations of Python's
-- `str` and `int` that both use. eth_utils and bip_utils are installed.
pub mod Bytes
use escrow_hub.Common.{ℕ, Bool, List}
use escrow_hub.Text.{Text}
unfoldable pub use Bytes.*

pub record Libraries : Type 0 where
  -- hashlib.sha256(…).digest() of bytes
  pub sha256 : List ℕ → List ℕ
  -- str.lower, str.upper, str.isalpha
  pub lower : Text → Text
  pub upper : Text → Text
  pub is_alpha : ℕ → Bool
  -- eth_utils
  pub is_address : Text → Bool
  pub is_checksum_address : Text → Bool
  pub to_checksum_address : Text → Text
  -- whether SolAddrDecoder.DecodeAddr returns
  pub decodes_sol : Text → Bool
