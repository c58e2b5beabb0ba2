-- ===== src/Escrow/Dispute.antt =====
-- escrow_service.py: `dispute` and `resolve_dispute`.
use escrow_hub.Common.{ℕ, not, ◌||◌, none, some, [], ◌∷◌, ◌==◌, if◌then◌else◌}
use escrow_hub.Text.{Text}
use escrow_hub.Decimal.{Decimal, ◌*ᵈ◌, ◌-ᵈ◌, div_hundred}
use escrow_hub.Settings.{Settings}
use escrow_hub.Fee.{calculate_total_fees}
use escrow_hub.Outcome.{
  not_disputable, only_participants_dispute, escrow_not_disputed, invalid_resolution,
  attribute_error,
}
use escrow_hub.Table.{Table, find}
use escrow_hub.Tenant.{get_tenant}
use escrow_hub.Ledger.{add_entry}
use escrow_hub.Wallet.Locks.{cancel_escrow_lock, held_lock, mark_released}
use escrow_hub.Db.{
  Action, pure, raise, gets, lift, raise_if, or_raise, modify, ◌>>=◌, ◌>>◌, EscrowRow, pending,
  active, completed, disputed, Dispute, open_dispute, resolved, Resolution, release_seller,
  refund_buyer, split, other_resolution, escrow_disputed, dispute_resolved, user, platform_revenue,
  bot_owner_revenue, escrow_release, adjustment, platform_fee, bot_fee, escrow_ref,
}
use escrow_hub.Escrow.Rows.{escrow_row, set_status, event, is_status, is_participant}
use escrow_hub.Escrow.Settle.{pay_out}

-- INSERT INTO disputes, by the escrow's id.
unfoldable pub insert_dispute : ℕ → ℕ → Text → Action (Unit {0})
insert_dispute escrow_id opened_by_user_id reason = modify λ db. record db {
  disputes =
      (
        escrow_id,
        record {
          opened_by_user_id = opened_by_user_id;
          reason = reason;
          status = open_dispute;
          resolution_json = none;
        },
      )
      ∷ db.disputes;
}

unfoldable pub dispute_body : ℕ → ℕ → Text → Action (Unit {0})
unfolding escrow_row set_status insert_dispute event
dispute_body escrow_id opened_by_user_id reason = do
  row ← escrow_row escrow_id
  raise_if (not (is_status row.status pending || is_status row.status active)) not_disputable
  raise_if (not (is_participant opened_by_user_id row)) only_participants_dispute
  set_status escrow_id disputed
  insert_dispute escrow_id opened_by_user_id reason
  event escrow_id (escrow_disputed reason)

-- The seller's part of the locked amount goes through the fees, the buyer's part does not.
unfoldable pub split_lock : Settings → ℕ → EscrowRow → Decimal → Action (Unit {0})
unfolding mark_released add_entry
split_lock settings escrow_id row split_percent = do
  lock ← held_lock (← gets (λ db. find escrow_id db.escrow_locks))
  let seller_part = div_hundred (lock.amount *ᵈ split_percent)
  let buyer_part = lock.amount -ᵈ seller_part
  tenant ← or_raise (← gets (get_tenant row.bot_id)) attribute_error
  fees ← lift (
      calculate_total_fees settings.escrow_platform_fee_percent seller_part
        tenant.bot_extra_fee_percent)
  mark_released escrow_id
  add_entry user (some row.seller_id) (some row.seller_id) row.asset fees.seller_payout
      escrow_release escrow_ref escrow_id
  add_entry user (some row.buyer_id) (some row.buyer_id) row.asset buyer_part adjustment escrow_ref
      escrow_id
  add_entry platform_revenue none none row.asset fees.platform_fee platform_fee escrow_ref escrow_id
  add_entry bot_owner_revenue (some tenant.owner_user_id) (some tenant.owner_user_id) row.asset
      fees.bot_fee bot_fee escrow_ref escrow_id

abbrev pub ignore {ℓ} : {A : Type ℓ} → Action A → Action (Unit {0})
ignore m = do _ ← m; pure tt

unfoldable pub settle_dispute : Settings → ℕ → EscrowRow → Resolution → Decimal → Action (Unit {0})
settle_dispute settings escrow_id row release_seller percent =
    ignore (pay_out settings escrow_id row)
settle_dispute settings escrow_id row refund_buyer percent = cancel_escrow_lock escrow_id
settle_dispute settings escrow_id row split percent = split_lock settings escrow_id row percent
settle_dispute settings escrow_id row (other_resolution _) percent = raise invalid_resolution

-- UPDATE disputes SET status='resolved', … WHERE escrow_id=? AND status='open'
abbrev pub resolve_row : Resolution → Decimal → Dispute → Dispute
resolve_row resolution percent d = elim d.status [
  | open_dispute ↦ record d { status = resolved; resolution_json = some (resolution, percent) }
  | _ ↦ d
]

unfoldable pub resolve_rows : ℕ → Resolution → Decimal → Table Dispute → Table Dispute
resolve_rows escrow_id resolution percent [] = []
resolve_rows escrow_id resolution percent ((j, d) ∷ t) =
    (j, if j == escrow_id then resolve_row resolution percent d else d)
    ∷ resolve_rows escrow_id resolution percent t

unfoldable pub close_disputes : ℕ → Resolution → Decimal → Action (Unit {0})
unfolding resolve_rows
close_disputes escrow_id resolution percent =
    modify λ db. record db { disputes = resolve_rows escrow_id resolution percent db.disputes }

unfoldable pub record_action : ℕ → ℕ → Resolution → Action (Unit {0})
record_action admin_user_id escrow_id resolution = modify λ db. record db {
  admin_actions =
      record { admin_user_id = admin_user_id; escrow_id = escrow_id; resolution = resolution }
      ∷ db.admin_actions;
}

unfoldable pub resolve_body : Settings → ℕ → ℕ → Resolution → Decimal → Action (Unit {0})
unfolding escrow_row set_status close_disputes record_action event
resolve_body settings escrow_id admin_user_id resolution percent = do
  row ← escrow_row escrow_id
  raise_if (not (is_status row.status disputed)) escrow_not_disputed
  settle_dispute settings escrow_id row resolution percent
  set_status escrow_id completed
  close_disputes escrow_id resolution percent
  record_action admin_user_id escrow_id resolution
  event escrow_id (dispute_resolved resolution)
