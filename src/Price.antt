-- ===== src/Price.antt =====
-- price_service.py: the fixed price tables, and the minimum value of an escrow.
pub mod Cache
pub mod Sourced
use escrow_hub.Common.{ℕ, Bool, true, false, ◌≡◌}
use escrow_hub.Decimal.{Decimal, of_ℕ, lt, ◌*ᵈ◌}
use escrow_hub.Asset.{Asset, btc, eth, ltc, usdt, sol}
use escrow_hub.Outcome.{Result, ok, err, raise_if, below_minimum_escrow, ◌>>=◌, ◌>>◌}

-- What `get_usd_price` gives for each asset: a price, or an exception.
abbrev pub Quotes : Type 0
Quotes = Asset → Result Decimal

-- `MIN_ESCROW_USD`
abbrev pub min_escrow_usd : Decimal
min_escrow_usd = of_ℕ 40

-- The fallback table of `EscrowService`.
unfoldable pub escrow_fallback_prices : Quotes
escrow_fallback_prices btc = ok (of_ℕ 30000)
escrow_fallback_prices eth = ok (of_ℕ 1500)
escrow_fallback_prices ltc = ok (of_ℕ 50)
escrow_fallback_prices usdt = ok (of_ℕ 1)
escrow_fallback_prices sol = ok (of_ℕ 100)

-- The fallback table of `WalletService`.
unfoldable pub wallet_fallback_prices : Quotes
wallet_fallback_prices btc = ok (of_ℕ 65000)
wallet_fallback_prices eth = ok (of_ℕ 3500)
wallet_fallback_prices ltc = ok (of_ℕ 80)
wallet_fallback_prices usdt = ok (of_ℕ 1)
wallet_fallback_prices sol = ok (of_ℕ 100)

-- `PriceService.get_usd_value`
unfoldable pub get_usd_value : Quotes → Asset → Decimal → Result Decimal
get_usd_value prices asset amount = do price ← prices asset; ok (amount *ᵈ price)

unfoldable pub validate_minimum_escrow_usd : Quotes → Asset → Decimal → Result (Unit {0})
unfolding get_usd_value
validate_minimum_escrow_usd prices asset amount = do
  value ← get_usd_value prices asset amount
  raise_if (lt value min_escrow_usd) below_minimum_escrow
