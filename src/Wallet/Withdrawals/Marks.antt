-- ===== src/Wallet/Withdrawals/Marks.antt =====
-- wallet_service.py: the status changes of a withdrawal row. The guards against a change of a key
-- or a reference are in the caller (`record_withdrawal_provider_result`).
use escrow_hub.Common.{ℕ, Bool, true, false, not, Option, none, some, if◌then◌else◌}
use escrow_hub.Text.{Text, take, codes, is_empty}
use escrow_hub.Outcome.{withdrawal_not_found, not_in_signer_retry, unsupported_transition}
use escrow_hub.Outside.{Outside}
use escrow_hub.Table.{find, update}
use escrow_hub.Tenant.{is_some}
use escrow_hub.Ledger.{add_entry, reserved_amount}
use escrow_hub.Wallet.Withdrawals.Fees.{
  book_withdrawal_platform_fee_if_needed, settle_withdrawal_network_fee_if_needed,
}
use escrow_hub.Db.{
  Db, Action, pure, raise, raise_if, gets, modify, run_if, or_raise, ◌>>=◌, ◌>>◌, Withdrawal,
  WithdrawalStatus, user, withdrawal_release, withdrawal_ref,
}

-- UPDATE withdrawals … WHERE id=?
unfoldable pub change : ℕ → (Withdrawal → Withdrawal) → Action (Unit {0})
change id f = modify λ db. record db { withdrawals = update id f db.withdrawals }

-- COALESCE
abbrev pub coalesce {ℓ} : {A : Type ℓ} → Option A → Option A → Option A
coalesce none b = b
coalesce (some a) b = some a

-- `(text or default)[:64]`
abbrev pub short_or : Text → Option Text → Option Text
short_or default none = some (take 64 default)
short_or default (some s) = some (take 64 (if is_empty s then default else s))

abbrev pub set_broadcasted :
    ℕ → Text → Option Text → Option Text → Option ℕ → Withdrawal → Withdrawal
set_broadcasted now txid provider_ref external_status broadcasted_at w = record w {
  status = WithdrawalStatus.broadcasted;
  txid = some txid;
  provider_ref = coalesce w.provider_ref provider_ref;
  external_status = coalesce (short_or (codes "broadcasted") external_status) w.external_status;
  broadcasted_at = coalesce broadcasted_at (coalesce w.broadcasted_at (some now));
  last_reconciled_at = none;
}

-- `if row and row["network_fee_actual_amount"] not in {None, ""}`
abbrev pub fee_is_known : ℕ → Db → Bool
fee_is_known withdrawal_id db = elim (find withdrawal_id db.withdrawals) [
  | none ↦ false
  | some w ↦ is_some w.network_fee_actual_amount
]

unfoldable pub mark_withdrawal_broadcasted :
    Outside → ℕ → Text → Option Text → Option Text → Option ℕ → Action (Unit {0})
unfolding change
mark_withdrawal_broadcasted o withdrawal_id txid provider_ref external_status broadcasted_at = do
  book_withdrawal_platform_fee_if_needed withdrawal_id
  change withdrawal_id (set_broadcasted o.now txid provider_ref external_status broadcasted_at)
  known ← gets (fee_is_known withdrawal_id)
  run_if known (settle_withdrawal_network_fee_if_needed o.now false withdrawal_id)

abbrev pub set_submitted : ℕ → Option Text → Option Text → Option ℕ → Withdrawal → Withdrawal
set_submitted now provider_ref external_status submitted_at w = record w {
  status = WithdrawalStatus.submitted;
  external_status = short_or (codes "submitted") external_status;
  submitted_at = coalesce submitted_at (coalesce w.submitted_at (some now));
  provider_ref = coalesce w.provider_ref provider_ref;
  last_reconciled_at = none;
}

unfoldable pub mark_withdrawal_submitted :
    Outside → ℕ → Option Text → Option Text → Option ℕ → Action (Unit {0})
unfolding change
mark_withdrawal_submitted o withdrawal_id provider_ref external_status submitted_at =
    change withdrawal_id (set_submitted o.now provider_ref external_status submitted_at)

abbrev pub set_confirmed : ℕ → Text → Option Text → Option Text → Withdrawal → Withdrawal
set_confirmed now txid provider_ref external_status w = record w {
  status = WithdrawalStatus.confirmed;
  txid = some txid;
  provider_ref = coalesce w.provider_ref provider_ref;
  external_status = short_or (codes "confirmed") external_status;
  broadcasted_at = coalesce w.broadcasted_at (some now);
  last_reconciled_at = some now;
}

unfoldable pub mark_withdrawal_confirmed :
    Outside → ℕ → Text → Option Text → Option Text → Action (Unit {0})
unfolding change
mark_withdrawal_confirmed o withdrawal_id txid provider_ref external_status = do
  book_withdrawal_platform_fee_if_needed withdrawal_id
  change withdrawal_id (set_confirmed o.now txid provider_ref external_status)
  settle_withdrawal_network_fee_if_needed o.now true withdrawal_id

abbrev pub set_reconciled : ℕ → Withdrawal → Withdrawal
set_reconciled now w = record w { last_reconciled_at = some now }

unfoldable pub mark_withdrawal_reconciled : Outside → ℕ → Action (Unit {0})
unfolding change
mark_withdrawal_reconciled o withdrawal_id = change withdrawal_id (set_reconciled o.now)

abbrev pub set_signer_retry : ℕ → Text → Withdrawal → Withdrawal
set_signer_retry now reason w = record w {
  status = WithdrawalStatus.signer_retry;
  txid = none;
  external_status = some (codes "ambiguous");
  failure_reason = some reason;
  last_reconciled_at = some now;
}

unfoldable pub mark_withdrawal_signer_retry : Outside → ℕ → Text → Action (Unit {0})
unfolding change
mark_withdrawal_signer_retry o withdrawal_id reason = do
  row ← gets (λ db. find withdrawal_id db.withdrawals)
  run_if (is_some row)
      (change withdrawal_id (set_signer_retry o.now (o.sanitize_runtime_error 220 reason)))

abbrev pub set_failed : Text → Withdrawal → Withdrawal
set_failed reason w = record w {
  status = WithdrawalStatus.failed;
  txid = none;
  external_status = some (codes "failed");
  failure_reason = some reason;
}

-- The row is set to failed, and what it reserved is paid back.
unfoldable pub fail_row : Outside → ℕ → Text → Option Withdrawal → Action (Unit {0})
unfolding change add_entry
fail_row o withdrawal_id reason none = pure tt
fail_row o withdrawal_id reason (some w) = do
  change withdrawal_id (set_failed (o.sanitize_runtime_error 220 reason))
  add_entry user (some w.user_id) (some w.user_id) w.asset (reserved_amount w) withdrawal_release
      withdrawal_ref withdrawal_id

unfoldable pub mark_withdrawal_failed : Outside → ℕ → Text → Action (Unit {0})
unfolding fail_row
mark_withdrawal_failed o withdrawal_id reason = do
  row ← gets (λ db. find withdrawal_id db.withdrawals)
  fail_row o withdrawal_id reason row

-- The statuses that an administrator asks for, and any other.
pub data AdminStatus : Type 0 where
  to_pending to_failed to_other : AdminStatus

abbrev pub is_signer_retry : WithdrawalStatus → Bool
is_signer_retry WithdrawalStatus.signer_retry = true
is_signer_retry _ = false

abbrev pub reason_or : Text → Option Text → Text
reason_or default none = default
reason_or default (some s) = if is_empty s then default else s

abbrev pub requeue : Text → Withdrawal → Withdrawal
requeue reason w = record w { status = WithdrawalStatus.pending; failure_reason = some reason }

unfoldable pub admin_change : Outside → ℕ → Option Text → AdminStatus → Action (Unit {0})
unfolding change
admin_change o withdrawal_id reason to_pending =
    change withdrawal_id (requeue (take 500 (reason_or (codes "requeued by admin") reason)))
admin_change o withdrawal_id reason to_failed =
    mark_withdrawal_failed o withdrawal_id (reason_or (codes "marked failed by admin") reason)
admin_change o withdrawal_id reason to_other = raise unsupported_transition

unfoldable pub set_withdrawal_status : Outside → ℕ → AdminStatus → Option Text → Action (Unit {0})
set_withdrawal_status o withdrawal_id status reason = do
  w ← or_raise (← gets (λ db. find withdrawal_id db.withdrawals)) withdrawal_not_found
  raise_if (not (is_signer_retry w.status)) not_in_signer_retry
  admin_change o withdrawal_id reason status
