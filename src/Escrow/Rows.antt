-- ===== src/Escrow/Rows.antt =====
-- escrow_service.py: the rows that every operation reads and writes, and what it returns.
use escrow_hub.Common.{ℕ, Bool, true, false, ◌∷◌, ◌==◌, ◌||◌}
use escrow_hub.Text.{Text}
use escrow_hub.Asset.{Asset}
use escrow_hub.Decimal.{Decimal}
use escrow_hub.Fee.{FeeBreakdown}
use escrow_hub.Outcome.{escrow_not_found}
use escrow_hub.Table.{find, update}
use escrow_hub.Db.{
  Action, gets, or_raise, modify, ◌>>=◌, EscrowRow, EscrowStatus, pending, active, completed,
  cancelled, disputed, Event,
}

pub record EscrowView : Type 0 where
  pub escrow_id : ℕ
  pub bot_id : ℕ
  pub buyer_id : ℕ
  pub seller_id : ℕ
  pub asset : Asset
  pub amount : Decimal
  pub status : EscrowStatus
  pub fee_breakdown : FeeBreakdown
  pub description : Text

-- `_escrow`
unfoldable pub escrow_row : ℕ → Action EscrowRow
escrow_row escrow_id = do or_raise (← gets (λ db. find escrow_id db.escrows)) escrow_not_found

-- UPDATE escrows SET status=… WHERE id=?
abbrev pub with_status : EscrowStatus → EscrowRow → EscrowRow
with_status s row = record row { status = s }

unfoldable pub set_status : ℕ → EscrowStatus → Action (Unit {0})
set_status escrow_id s =
    modify λ db. record db { escrows = update escrow_id (with_status s) db.escrows }

-- `_event`
unfoldable pub event : ℕ → Event → Action (Unit {0})
event escrow_id e = modify λ db. record db { escrow_events = (escrow_id, e) ∷ db.escrow_events }

abbrev pub is_status : EscrowStatus → EscrowStatus → Bool
is_status EscrowStatus.pending pending = true
is_status EscrowStatus.active active = true
is_status EscrowStatus.completed completed = true
is_status EscrowStatus.cancelled cancelled = true
is_status EscrowStatus.disputed disputed = true
is_status _ _ = false

-- `user_id in {row["buyer_id"], row["seller_id"]}`
abbrev pub is_participant : ℕ → EscrowRow → Bool
is_participant user_id row = user_id == row.buyer_id || user_id == row.seller_id
