-- ===== src/Wallet/Charges.antt =====
-- wallet_service.py: rounding to an asset's places, and the fees of deposits and withdrawals.
pub mod Split
use escrow_hub.Common.{ℕ, Bool, if◌then◌else◌}
use escrow_hub.Asset.{Asset, quantum_places}
use escrow_hub.Decimal.{Decimal, zero_amount, ◌+ᵈ◌, ◌-ᵈ◌, ◌*ᵈ◌, div_hundred, lt, quantize}
use escrow_hub.Outcome.{Result, ok, withdrawal_minimum_not_positive, raise_if, or_else, ◌>>=◌, ◌>>◌}
use escrow_hub.Settings.{Settings}
use escrow_hub.Price.{Quotes, get_usd_value, wallet_fallback_prices}

unfoldable pub quantize_asset : Asset → Decimal → Decimal
quantize_asset asset amount = quantize (quantum_places asset) amount

-- `if value < Decimal("0"): value = Decimal("0")`
abbrev pub at_least_zero : Decimal → Decimal
at_least_zero value = if lt value zero_amount then zero_amount else value

-- `if value > top: value = top`
abbrev pub at_most : Decimal → Decimal → Decimal
at_most top value = if lt top value then top else value

unfoldable pub deposit_platform_fee : Settings → Asset → Decimal → Decimal
deposit_platform_fee settings asset gross_amount = at_most (quantize_asset asset gross_amount) (
    at_least_zero
      (quantize_asset asset (div_hundred (gross_amount *ᵈ settings.deposit_platform_fee_percent))))

unfoldable pub deposit_net_credit : Settings → Asset → Decimal → Decimal
deposit_net_credit settings asset gross_amount =
    let gross = quantize_asset asset gross_amount in
    quantize_asset asset (at_least_zero (gross -ᵈ deposit_platform_fee settings asset gross))

unfoldable pub withdrawal_platform_fee : Settings → Asset → Decimal → Decimal
withdrawal_platform_fee settings asset amount =
    at_least_zero
      (quantize_asset asset (div_hundred (amount *ᵈ settings.withdrawal_platform_fee_percent)))

unfoldable pub withdrawal_network_fee : Settings → Asset → Decimal
withdrawal_network_fee settings asset =
    quantize_asset asset (at_least_zero (settings.withdrawal_network_fee asset))

unfoldable pub withdrawal_total_debit : Settings → Asset → Decimal → Decimal
withdrawal_total_debit settings asset amount = quantize_asset asset (
    amount
    +ᵈ withdrawal_platform_fee settings asset amount
    +ᵈ withdrawal_network_fee settings asset)

-- `withdrawal_minimum_usd`
unfoldable pub withdrawal_minimum_usd : Settings → Result Decimal
withdrawal_minimum_usd settings = do
  raise_if (if lt zero_amount settings.withdrawal_minimum_usd then Bool.false else Bool.true)
      withdrawal_minimum_not_positive
  ok (quantize 2 settings.withdrawal_minimum_usd)

-- `price_service.get_usd_value`, and the fallback table where that raises.
unfoldable pub usd_value : Quotes → Asset → Decimal → Result Decimal
unfolding get_usd_value
usd_value live asset amount =
    or_else (get_usd_value live asset amount) (get_usd_value wallet_fallback_prices asset amount)
