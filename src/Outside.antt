-- ===== src/Outside.antt =====
-- What the wallet service calls outside its own code: the price feed, the clock, Python's string
-- conversions, hashlib, the libraries of the address check and the ciphers of stored fields.
use escrow_hub.Common.{ℕ}
use escrow_hub.Text.{Text}
use escrow_hub.Address.{Libraries}
use escrow_hub.Decimal.{Decimal}
use escrow_hub.Outcome.{Error}
use escrow_hub.Price.{Quotes}
use escrow_hub.Wallet.Vault.{Vault}

pub record Outside : Type 0 where
  pub live_prices : Quotes
  -- seconds, for `datetime.now(timezone.utc)` and CURRENT_TIMESTAMP
  pub now : ℕ
  pub str_int : ℕ → Text
  pub str_decimal : Decimal → Text
  pub sha256_hex : Text → Text
  pub libraries : Libraries
  pub vault : Vault
  -- `sanitize_runtime_error`, with its `max_len`
  pub sanitize_runtime_error : ℕ → Text → Text
  -- `str(exc)`
  pub str_exception : Error → Text
