-- ===== src/Escrow/Service.antt =====
-- escrow_service.py: the methods of `EscrowService`, each around its transaction.
use escrow_hub.Common.{ℕ, Bool, false, not, ◌||◌, List, [], ◌∷◌, ◌==◌}
use escrow_hub.Text.{Text}
use escrow_hub.Asset.{Asset}
use escrow_hub.Decimal.{Decimal}
use escrow_hub.Settings.{Settings}
use escrow_hub.Price.{Quotes}
use escrow_hub.Outcome
use escrow_hub.Outcome.{Result, unauthorized_moderator}
use escrow_hub.Fee.{FeeBreakdown}
use escrow_hub.Db.{EscrowRow, pending, completed, Resolution}
use escrow_hub.Db.Transaction.{Call, transaction, reads, pure, lift, ◌>>=◌, ◌>>◌}
use escrow_hub.Escrow.Rows.{EscrowView}
use escrow_hub.Escrow.Checks.{create_checks}
use escrow_hub.Escrow.Create.{create_body, accept_body, read_view}
use escrow_hub.Escrow.Settle.{release_body, cancel_body, cancel_mutual_body}
use escrow_hub.Escrow.Dispute.{dispute_body, resolve_body}

-- The view that `create_escrow` returns.
abbrev pub created_view : ℕ → ℕ → ℕ → ℕ → Asset → Decimal → Text → FeeBreakdown → EscrowView
created_view escrow_id bot_id buyer_id seller_id asset amount text fees = record {
  escrow_id = escrow_id;
  bot_id = bot_id;
  buyer_id = buyer_id;
  seller_id = seller_id;
  asset = asset;
  amount = amount;
  status = pending;
  fee_breakdown = fees;
  description = text;
}

unfoldable pub create_escrow :
    Settings → Quotes → ℕ → ℕ → ℕ → Asset → Decimal → Text → Call EscrowView
create_escrow settings prices bot_id buyer_id seller_id asset amount description = do
  (fees, text) ←
      reads (create_checks settings prices bot_id buyer_id seller_id asset amount description)
  escrow_id ← transaction (create_body bot_id buyer_id seller_id asset amount text)
  pure (created_view escrow_id bot_id buyer_id seller_id asset amount text fees)

unfoldable pub accept_escrow : Settings → ℕ → ℕ → Call EscrowView
accept_escrow settings escrow_id seller_user_id = do
  transaction (accept_body escrow_id seller_user_id)
  reads (read_view settings escrow_id)

-- The view that `release` returns, from the row that it read.
abbrev pub released_view : ℕ → EscrowRow → FeeBreakdown → EscrowView
released_view escrow_id row fees = record {
  escrow_id = escrow_id;
  bot_id = row.bot_id;
  buyer_id = row.buyer_id;
  seller_id = row.seller_id;
  asset = row.asset;
  amount = row.amount;
  status = completed;
  fee_breakdown = fees;
  description = row.description;
}

unfoldable pub release : Settings → ℕ → ℕ → Call EscrowView
release settings escrow_id actor_user_id = do
  (row, fees) ← transaction (release_body settings escrow_id actor_user_id)
  pure (released_view escrow_id row fees)

unfoldable pub dispute : ℕ → ℕ → Text → Call (Unit {0})
dispute escrow_id opened_by_user_id reason =
    transaction (dispute_body escrow_id opened_by_user_id reason)

unfoldable pub cancel_escrow : ℕ → ℕ → Call (Unit {0})
cancel_escrow escrow_id actor_user_id = transaction (cancel_body escrow_id actor_user_id)

unfoldable pub cancel_escrow_mutual : ℕ → ℕ → ℕ → Call (Unit {0})
cancel_escrow_mutual escrow_id requester responder =
    transaction (cancel_mutual_body escrow_id requester responder)

abbrev pub mem_id : ℕ → List ℕ → Bool
mem_id k [] = false
mem_id k (j ∷ js) = j == k || mem_id k js

unfoldable pub resolve_dispute : Settings → ℕ → ℕ → Resolution → Decimal → Call (Unit {0})
resolve_dispute settings escrow_id admin_user_id resolution split_percent = do
  lift (Outcome.raise_if (not (mem_id admin_user_id settings.moderator_ids)) unauthorized_moderator)
  transaction (resolve_body settings escrow_id admin_user_id resolution split_percent)
