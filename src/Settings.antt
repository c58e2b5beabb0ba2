-- ===== src/Settings.antt =====
-- config/settings.py: the values, parsed, that the services read.
use escrow_hub.Common.{ℕ, Bool, List}
use escrow_hub.Decimal.{Decimal}
use escrow_hub.Asset.{Asset}

pub record Settings : Type 0 where
  pub moderator_ids : List ℕ
  pub escrow_platform_fee_percent : Decimal
  pub deposit_platform_fee_percent : Decimal
  pub withdrawal_platform_fee_percent : Decimal
  pub withdrawal_network_fee : Asset → Decimal
  pub withdrawal_minimum_usd : Decimal
  pub withdrawal_daily_limit_usd : Decimal
  pub withdrawal_min_interval_seconds : ℕ
  pub withdrawals_enabled : Bool
