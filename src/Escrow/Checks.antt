-- ===== src/Escrow/Checks.antt =====
-- escrow_service.py: what `create_escrow` checks before its transaction.
use escrow_hub.Common.{ℕ, ltb, ◌==◌}
use escrow_hub.Text.{Text, strip, is_empty, length}
use escrow_hub.Asset.{Asset}
use escrow_hub.Decimal.{Decimal}
use escrow_hub.Settings.{Settings}
use escrow_hub.Fee.{FeeBreakdown, calculate_total_fees}
use escrow_hub.Price.{Quotes, validate_minimum_escrow_usd, escrow_fallback_prices}
use escrow_hub.Outcome.{
  Result, ok, or_else, or_raise, raise_if, ◌>>=◌, ◌>>◌, tenant_not_found, deal_with_self,
  description_required, description_too_long,
}
use escrow_hub.Tenant.{get_tenant}
use escrow_hub.Db.{Db}

-- The live price and then the fallback price: `except Exception` also catches the refusal of an
-- amount that is worth too little at the live price.
unfoldable pub check_minimum : Quotes → Asset → Decimal → Result (Unit {0})
unfolding validate_minimum_escrow_usd escrow_fallback_prices
check_minimum prices asset amount =
    or_else (validate_minimum_escrow_usd prices asset amount)
      (validate_minimum_escrow_usd escrow_fallback_prices asset amount)

unfoldable pub create_checks :
    Settings → Quotes → ℕ → ℕ → ℕ → Asset → Decimal → Text → Db → Result (FeeBreakdown × Text)
unfolding check_minimum strip calculate_total_fees get_tenant
create_checks settings prices bot_id buyer_id seller_id asset amount description db = do
  tenant ← or_raise (get_tenant bot_id db) tenant_not_found
  raise_if (buyer_id == seller_id) deal_with_self
  check_minimum prices asset amount
  let text = strip description
  raise_if (is_empty text) description_required
  raise_if (ltb 500 (length text)) description_too_long
  fees ←
      calculate_total_fees settings.escrow_platform_fee_percent amount tenant.bot_extra_fee_percent
  ok (fees, text)
