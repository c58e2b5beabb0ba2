-- ===== src/Signer/Queue.antt =====
-- signer/signer_service.py and wallet_service.py: which withdrawals a pass of the worker takes.
use escrow_hub.Common.{
  ℕ, ◌+◌, max, Bool, true, false, ◌&&◌, ◌||◌, Option, none, some, [], ◌∷◌, if◌then◌else◌, leb,
}
use escrow_hub.Text.{Text, take}
use escrow_hub.Outcome.{Result, ok}
use escrow_hub.Outcome
use escrow_hub.Wallet.Vault.{Vault, decrypt_text}
use escrow_hub.Outside.{Outside}
use escrow_hub.Table.{Table, find}
use escrow_hub.Wallet.Withdrawals.Marks.{coalesce}
use escrow_hub.Db.{Db, Action, pure, gets, lift, ◌>>=◌, Withdrawal, WithdrawalStatus}
use escrow_hub.Signer.{Provider, execute_single, reconcile_single}

-- The seconds before a row of each status is asked about again.
pub record Intervals : Type 0 where
  pub submitted_after : ℕ
  pub broadcasted_after : ℕ
  pub signer_retry_after : ℕ

-- `_reconcile_intervals`, of the configured values
unfoldable pub reconcile_intervals : ℕ → ℕ → ℕ → Intervals
reconcile_intervals submitted broadcasted signer_retry = record {
  submitted_after = max 15 submitted;
  broadcasted_after = max 30 broadcasted;
  signer_retry_after = max 60 signer_retry;
}

abbrev pub older : ℕ → ℕ → Option ℕ → Bool
older now after none = false
older now after (some t) = leb (t + after) now

-- `last_reconciled_at`, or else when the row came to its status, is long enough ago.
abbrev pub is_due : ℕ → ℕ → Option ℕ → Option ℕ → Bool
is_due now after none since = older now after since
is_due now after (some t) since = older now after (some t)

unfoldable pub due_for_reconcile : Intervals → ℕ → Withdrawal → Bool
due_for_reconcile i now w = elim w.status [
  | WithdrawalStatus.submitted ↦
      is_due now i.submitted_after w.last_reconciled_at
        (coalesce w.submitted_at (some w.created_at))
  | WithdrawalStatus.broadcasted ↦
      is_due now i.broadcasted_after w.last_reconciled_at
        (coalesce w.broadcasted_at (coalesce w.submitted_at (some w.created_at)))
  | WithdrawalStatus.signer_retry ↦
      is_due now i.signer_retry_after w.last_reconciled_at (some w.created_at)
  | _ ↦ false
]

abbrev pub is_unresolved : WithdrawalStatus → Bool
is_unresolved WithdrawalStatus.submitted = true
is_unresolved WithdrawalStatus.broadcasted = true
is_unresolved WithdrawalStatus.signer_retry = true
is_unresolved _ = false

-- The rows with their destinations in plain text.
abbrev pub with_destination : Text → Withdrawal → Withdrawal
with_destination plain w = record w { destination_address = plain }

unfoldable pub decrypted : Vault → Table Withdrawal → Result (Table Withdrawal)
decrypted v [] = ok []
decrypted v ((id, w) ∷ rows) =
    Outcome.◌>>=◌ (decrypt_text v w.destination_address)
      λ plain. Outcome.◌>>=◌ (decrypted v rows) λ rest. ok ((id, with_destination plain w) ∷ rest)

-- `unresolved_withdrawal_for_reconcile_by_id`
unfoldable pub unresolved_withdrawal_for_reconcile_by_id :
    Vault → Intervals → ℕ → Bool → ℕ → Db → Result (Option Withdrawal)
unfolding due_for_reconcile
unresolved_withdrawal_for_reconcile_by_id v i now ignore_backoff id db =
    elim (find id db.withdrawals) [
      | none ↦ ok none
      | some w ↦
          if (ignore_backoff && is_unresolved w.status) || due_for_reconcile i now w
          then Outcome.◌>>=◌ (decrypt_text v w.destination_address)
              (λ plain. ok (some (with_destination plain w)))
          else ok none
    ]

-- The rows that pass a test, the oldest first.
abbrev pub oldest_first :
    (Withdrawal → Bool) → Table Withdrawal → Table Withdrawal → Table Withdrawal
oldest_first wanted [] taken = taken
oldest_first wanted ((id, w) ∷ rows) taken =
    oldest_first wanted rows (if wanted w then (id, w) ∷ taken else taken)

abbrev pub is_pending : Withdrawal → Bool
is_pending w = elim w.status [ WithdrawalStatus.pending ↦ true | _ ↦ false ]

-- `pending_withdrawals`
unfoldable pub pending_withdrawals : Vault → Db → Result (Table Withdrawal)
unfolding decrypted
pending_withdrawals v db = decrypted v (oldest_first is_pending db.withdrawals [])

-- ORDER BY created_at ASC, id ASC, of rows by falling id: the newest row goes behind those that are
-- as old.
unfoldable pub insert_by_age : ℕ × Withdrawal → Table Withdrawal → Table Withdrawal
insert_by_age row [] = row ∷ []
insert_by_age row (other ∷ rows) =
    let later = insert_by_age row rows in
    if leb other.1.created_at row.1.created_at then other ∷ later else row ∷ other ∷ rows

unfoldable pub by_age : (Withdrawal → Bool) → Table Withdrawal → Table Withdrawal
unfolding insert_by_age
by_age wanted [] = []
by_age wanted ((id, w) ∷ rows) =
    let older = by_age wanted rows in if wanted w then insert_by_age (id, w) older else older

-- `unresolved_withdrawals_for_reconcile`
unfoldable pub unresolved_withdrawals_for_reconcile :
    Vault → Intervals → ℕ → ℕ → Db → Result (Table Withdrawal)
unfolding decrypted by_age
unresolved_withdrawals_for_reconcile v i now limit db =
    decrypted v (take limit (by_age (due_for_reconcile i now) db.withdrawals))

-- The sum of what each row counts.
unfoldable pub for_each : (ℕ → Withdrawal → Action ℕ) → Table Withdrawal → Action ℕ
for_each act [] = pure 0
for_each act ((id, w) ∷ rows) = do one ← act id w; others ← for_each act rows; pure (one + others)

-- `process_withdrawals` of a provider that is ready
unfoldable pub process_withdrawals : Outside → Provider → Intervals → Action ℕ
unfolding for_each
process_withdrawals o p i = do
  pending ← gets (pending_withdrawals o.vault)
  queue ← lift pending
  executed ← for_each (λ id w. execute_single o p id w w.destination_address) queue
  unresolved ← gets (unresolved_withdrawals_for_reconcile o.vault i o.now 100)
  due ← lift unresolved
  reconciled ← for_each (λ id w. reconcile_single o p id w) due
  pure (executed + reconciled)

-- `reconcile_withdrawal_by_id` of a provider that is ready
unfoldable pub reconcile_withdrawal_by_id : Outside → Provider → Intervals → ℕ → Bool → Action ℕ
reconcile_withdrawal_by_id o p i id force = do
  row ← lift (← gets (unresolved_withdrawal_for_reconcile_by_id o.vault i o.now force id))
  elim row [ none ↦ pure 0 | some w ↦ reconcile_single o p id w ]
