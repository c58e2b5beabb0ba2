-- ===== src/Escrow/Create.antt =====
-- escrow_service.py: `create_escrow` and `accept_escrow`.
use escrow_hub.Common.{ℕ, suc, not, ◌∷◌, ◌==◌}
use escrow_hub.Text.{Text}
use escrow_hub.Asset.{Asset}
use escrow_hub.Decimal.{Decimal, lt}
use escrow_hub.Settings.{Settings}
use escrow_hub.Fee.{calculate_total_fees}
use escrow_hub.Outcome.{
  Result, insufficient_balance, escrow_not_pending, only_seller_accepts, escrow_not_found,
  attribute_error,
}
use escrow_hub.Outcome
use escrow_hub.Table.{find}
use escrow_hub.Tenant.{get_tenant}
use escrow_hub.Wallet.Users.{available_balance}
use escrow_hub.Wallet.Locks.{lock_for_escrow}
use escrow_hub.Db.{
  Db, Action, pure, raise_if, ◌>>=◌, ◌>>◌, EscrowRow, pending, active, escrow_created,
  escrow_accepted,
}
use escrow_hub.Escrow.Rows.{EscrowView, escrow_row, set_status, event, is_status}

-- INSERT INTO escrows: the id of the new row.
unfoldable pub insert_escrow : EscrowRow → Action ℕ
insert_escrow row db =
    pure db.next_escrow
      (record db { escrows = (db.next_escrow, row) ∷ db.escrows; next_escrow = suc db.next_escrow })

-- The statements of the transaction of `create_escrow`.
unfoldable pub create_body : ℕ → ℕ → ℕ → Asset → Decimal → Text → Action ℕ
unfolding insert_escrow event
create_body bot_id buyer_id seller_id asset amount description = do
  available ← available_balance buyer_id asset
  raise_if (lt available amount) insufficient_balance
  escrow_id ← insert_escrow (record {
    bot_id = bot_id;
    buyer_id = buyer_id;
    seller_id = seller_id;
    asset = asset;
    amount = amount;
    status = pending;
    description = description;
  })
  lock_for_escrow escrow_id buyer_id asset amount
  event escrow_id (escrow_created amount asset)
  pure escrow_id

-- The statements of the transaction of `accept_escrow`.
unfoldable pub accept_body : ℕ → ℕ → Action (Unit {0})
unfolding escrow_row set_status event
accept_body escrow_id seller_user_id = do
  row ← escrow_row escrow_id
  raise_if (not (is_status row.status pending)) escrow_not_pending
  raise_if (not (row.seller_id == seller_user_id)) only_seller_accepts
  set_status escrow_id active
  event escrow_id (escrow_accepted seller_user_id)

-- `_escrow(escrow_id)` and `get_tenant(row["bot_id"])` with the fees, after the transaction.
unfoldable pub read_view : Settings → ℕ → Db → Result EscrowView
read_view settings escrow_id db =
    Outcome.◌>>=◌ (Outcome.or_raise (find escrow_id db.escrows) escrow_not_found) λ row.
      Outcome.◌>>=◌ (Outcome.or_raise (get_tenant row.bot_id db) attribute_error) λ tenant.
        Outcome.◌>>=◌
          (calculate_total_fees settings.escrow_platform_fee_percent row.amount
            tenant.bot_extra_fee_percent)
          λ fees. Outcome.ok (record {
            escrow_id = escrow_id;
            bot_id = row.bot_id;
            buyer_id = row.buyer_id;
            seller_id = row.seller_id;
            asset = row.asset;
            amount = row.amount;
            status = row.status;
            fee_breakdown = fees;
            description = row.description;
          })
