-- ===== src/Escrow/Settle.antt =====
-- escrow_service.py: `release`, `cancel_escrow` and `cancel_escrow_mutual`.
use escrow_hub.Common.{ℕ, Bool, true, false, not, ◌&&◌, ◌||◌, Option, none, some, ◌==◌}
use escrow_hub.Settings.{Settings}
use escrow_hub.Fee.{FeeBreakdown, calculate_total_fees}
use escrow_hub.Outcome.{
  escrow_not_active, only_buyer_releases, only_participants_cancel, cancel_needs_consent,
  not_cancellable, mutual_needs_active, mutual_needs_participants, mutual_needs_two,
  no_open_cancel_request, attribute_error,
}
use escrow_hub.Table.{find, update}
use escrow_hub.Tenant.{get_tenant}
use escrow_hub.Wallet.Locks.{release_escrow, cancel_escrow_lock}
use escrow_hub.Db.{
  Action, pure, raise, gets, lift, raise_if, or_raise, modify, ◌>>=◌, ◌>>◌, EscrowRow, EscrowStatus,
  pending, active, completed, cancelled, disputed, CancelRequest, RequestStatus, open_request,
  accepted, escrow_released, escrow_cancelled, escrow_cancelled_mutual,
}
use escrow_hub.Escrow.Rows.{escrow_row, set_status, event, is_status, is_participant}

-- The tenant's fees for a row, and the release of the lock by them. A missing tenant raises
-- AttributeError.
unfoldable pub pay_out : Settings → ℕ → EscrowRow → Action FeeBreakdown
pay_out settings escrow_id row = do
  tenant ← or_raise (← gets (get_tenant row.bot_id)) attribute_error
  fees ← lift (
      calculate_total_fees settings.escrow_platform_fee_percent row.amount
        tenant.bot_extra_fee_percent)
  release_escrow escrow_id row.seller_id fees.platform_fee fees.bot_fee fees.seller_payout
      tenant.owner_user_id row.asset
  pure fees

unfoldable pub release_body : Settings → ℕ → ℕ → Action (EscrowRow × FeeBreakdown)
unfolding escrow_row set_status event
release_body settings escrow_id actor_user_id = do
  row ← escrow_row escrow_id
  raise_if (not (is_status row.status active)) escrow_not_active
  raise_if (not (row.buyer_id == actor_user_id)) only_buyer_releases
  fees ← pay_out settings escrow_id row
  set_status escrow_id completed
  event escrow_id (escrow_released fees.seller_payout actor_user_id)
  pure (row, fees)

-- Who may cancel, by the status.
abbrev pub check_cancel : EscrowStatus → ℕ → EscrowRow → Action (Unit {0})
check_cancel pending actor_user_id row =
    raise_if (not (is_participant actor_user_id row)) only_participants_cancel
check_cancel active actor_user_id row = raise cancel_needs_consent
check_cancel completed actor_user_id row = raise not_cancellable
check_cancel cancelled actor_user_id row = raise not_cancellable
check_cancel disputed actor_user_id row = raise not_cancellable

unfoldable pub cancel_body : ℕ → ℕ → Action (Unit {0})
unfolding escrow_row set_status event
cancel_body escrow_id actor_user_id = do
  row ← escrow_row escrow_id
  check_cancel row.status actor_user_id row
  cancel_escrow_lock escrow_id
  set_status escrow_id cancelled
  event escrow_id (escrow_cancelled actor_user_id)

abbrev pub is_open : RequestStatus → Bool
is_open open_request = true
is_open _ = false

-- SELECT … FROM active_cancel_requests WHERE escrow_id=? AND requester_user_id=? AND …
abbrev pub matches_request : ℕ → ℕ → Option CancelRequest → Bool
matches_request requester responder none = false
matches_request requester responder (some r) =
    r.requester_user_id == requester && r.responder_user_id == responder && is_open r.status

abbrev pub set_accepted : CancelRequest → CancelRequest
set_accepted r = record r { status = accepted }

unfoldable pub accept_request : ℕ → Action (Unit {0})
accept_request escrow_id = modify λ db. record db {
  active_cancel_requests = update escrow_id set_accepted db.active_cancel_requests;
}

-- The guards of `cancel_escrow_mutual`.
unfoldable pub check_mutual : ℕ → ℕ → ℕ → EscrowRow → Action (Unit {0})
check_mutual escrow_id requester responder row = do
  raise_if (not (is_status row.status active)) mutual_needs_active
  raise_if (not (is_participant requester row) || not (is_participant responder row))
      mutual_needs_participants
  raise_if (requester == responder) mutual_needs_two
  request ← gets (λ db. find escrow_id db.active_cancel_requests)
  raise_if (not (matches_request requester responder request)) no_open_cancel_request

unfoldable pub cancel_mutual_body : ℕ → ℕ → ℕ → Action (Unit {0})
unfolding escrow_row set_status event accept_request
cancel_mutual_body escrow_id requester responder = do
  row ← escrow_row escrow_id
  check_mutual escrow_id requester responder row
  cancel_escrow_lock escrow_id
  set_status escrow_id cancelled
  accept_request escrow_id
  event escrow_id (escrow_cancelled_mutual requester responder)
