-- ===== src/Fee.antt =====
-- fee_service.py: the fees of an escrow, in hundredths of the asset.
pub mod Bounds
use escrow_hub.Common.{ℕ, Bool, true, false, if◌then◌else◌, ◌||◌}
use escrow_hub.Decimal.{Decimal, of_ℕ, zero_amount, ◌+ᵈ◌, ◌-ᵈ◌, ◌*ᵈ◌, div_hundred, lt, quantize}
use escrow_hub.Outcome.{Result, ok, err, fee_percent_out_of_range, ◌>>=◌}

-- `Settings.escrow_platform_fee_percent` and `MAX_BOT_EXTRA_FEE_PERCENT`.
abbrev pub default_platform_percent : Decimal
default_platform_percent = of_ℕ 3

abbrev pub max_bot_extra_fee_percent : Decimal
max_bot_extra_fee_percent = of_ℕ 3

pub record FeeBreakdown : Type 0 where
  pub platform_fee : Decimal
  pub bot_fee : Decimal
  pub total_fee : Decimal
  pub seller_payout : Decimal

unfoldable pub money : Decimal → Decimal
money value = quantize 2 value

unfoldable pub validate_bot_extra_fee_percent : Decimal → Result Decimal
validate_bot_extra_fee_percent pct =
    if lt pct zero_amount || lt max_bot_extra_fee_percent pct
    then err fee_percent_out_of_range
    else ok pct

-- The first argument of these is the configured `escrow_platform_fee_percent`.
unfoldable pub calculate_platform_fee : Decimal → Decimal → Decimal
calculate_platform_fee pct amount = money (div_hundred (amount *ᵈ pct))

unfoldable pub calculate_bot_extra_fee : Decimal → Decimal → Result Decimal
calculate_bot_extra_fee amount bot_extra_fee_percent = do
  pct ← validate_bot_extra_fee_percent bot_extra_fee_percent
  ok (money (div_hundred (amount *ᵈ pct)))

unfoldable pub calculate_total_fees : Decimal → Decimal → Decimal → Result FeeBreakdown
calculate_total_fees platform_percent amount bot_extra_fee_percent = do
  let platform_fee = calculate_platform_fee platform_percent amount
  bot_fee ← calculate_bot_extra_fee amount bot_extra_fee_percent
  let total_fee = money (platform_fee +ᵈ bot_fee)
  let seller_payout = money (amount -ᵈ total_fee)
  ok (record {
    platform_fee = platform_fee;
    bot_fee = bot_fee;
    total_fee = total_fee;
    seller_payout = seller_payout;
  })
