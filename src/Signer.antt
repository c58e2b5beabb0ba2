-- ===== src/Signer.antt =====
-- signer/signer_service.py: the worker that sends the withdrawals to the provider and asks it
-- about those under way. A provider's answer, or its failure, is an argument.
pub mod Queue
pub mod Handled
pub mod Marked
pub mod Attempt
pub mod Single
pub mod Pass
use escrow_hub.Common.{
  ℕ, suc, ◌+◌, ◌≤◌, Bool, true, false, not, ◌&&◌, ◌||◌, Option, none, some, List, [], ◌∷◌,
  if◌then◌else◌, leb, ◌==◌,
}
use escrow_hub.Text.{Text, codes, is_empty, text_eq, strip, lower, upper}
use escrow_hub.Asset.{Asset, name}
use escrow_hub.Decimal.{Decimal}
use escrow_hub.Outcome.{
  Error, Result, ok, err, retryable, deterministic, misconfigured, missing_idempotency_key,
}
use escrow_hub.Outcome
use escrow_hub.Outside.{Outside}
use escrow_hub.Table.{Table, find}
use escrow_hub.Wallet.Withdrawals.Marks.{
  mark_withdrawal_submitted, mark_withdrawal_broadcasted, mark_withdrawal_confirmed,
  mark_withdrawal_signer_retry, mark_withdrawal_failed, mark_withdrawal_reconciled, coalesce,
}
use escrow_hub.Wallet.Withdrawals.Results.{
  ProviderResult, text_of, non_blank, differ, record_withdrawal_provider_result,
  persist_withdrawal_idempotency,
}
use escrow_hub.Db.{
  Db, Action, pure, raise, lift, raise_if, gets, ◌>>=◌, ◌>>◌, Withdrawal, WithdrawalStatus,
}

-- `str(value or "")`
abbrev pub given_text : Option Text → Text
given_text none = []
given_text (some s) = s

-- `WithdrawalExecutionRequest` and `WithdrawalReconciliationRequest`
pub record ExecutionRequest : Type 0 where
  pub withdrawal_id : ℕ
  pub user_id : ℕ
  pub asset : Asset
  pub amount : Decimal
  pub destination_address : Text
  pub idempotency_key : Text

pub record ReconciliationRequest : Type 0 where
  pub withdrawal_id : ℕ
  pub idempotency_key : Text
  pub provider_ref : Option Text

-- `WithdrawalProvider`
pub record Provider : Type 0 where
  pub provider_origin : Text
  pub execute_withdrawal : ExecutionRequest → Result ProviderResult
  pub reconcile_withdrawal : ReconciliationRequest → Result ProviderResult

-- What `_map_result` returns, each with its txid.
pub data Mapped : Type 0 where
  submitted : Mapped
  broadcasted confirmed : Text → Mapped

unfoldable pub on_chain : (Text → Mapped) → Option Text → Result Mapped
on_chain status txid = if is_empty (text_of txid) then err retryable else ok (status (text_of txid))

unfoldable pub map_result : ProviderResult → Result Mapped
unfolding on_chain
map_result r =
    let status = lower (strip r.status) in
    if text_eq status (codes "submitted")
    then ok submitted
    else if text_eq status (codes "broadcasted")
    then on_chain broadcasted r.txid
    else if text_eq status (codes "confirmed")
    then on_chain confirmed r.txid
    else if text_eq status (codes "rejected") || text_eq status (codes "permanent_failure")
    then err deterministic
    else err retryable

-- The status change that a mapped result asks for.
unfoldable pub mark : Outside → ℕ → ProviderResult → Mapped → Action (Unit {0})
mark o id r submitted =
    mark_withdrawal_submitted o id r.provider_ref r.external_status r.submitted_at
mark o id r (broadcasted txid) =
    mark_withdrawal_broadcasted o id txid r.provider_ref r.external_status r.broadcasted_at
mark o id r (confirmed txid) = mark_withdrawal_confirmed o id txid r.provider_ref r.external_status

-- The body of the `try` of `_execute_single`, on a row read from the queue, of a provider that has
-- `execute_withdrawal`; the address has been decrypted by then.
unfoldable pub execute : Outside → Provider → ℕ → Withdrawal → Text → Action (Unit {0})
unfolding mark
execute o p id w destination_address = do
  raise_if (is_empty (strip w.idempotency_key)) missing_idempotency_key
  persist_withdrawal_idempotency id (strip w.idempotency_key)
  r ← lift (
      p.execute_withdrawal (record {
        withdrawal_id = id;
        user_id = w.user_id;
        asset = w.asset;
        amount = w.amount;
        destination_address = destination_address;
        idempotency_key = strip w.idempotency_key;
      }))
  mapped ← lift (map_result r)
  raise_if
      (not (is_empty (text_of r.asset)) && not (text_eq (upper (text_of r.asset)) (name w.asset)))
      retryable
  record_withdrawal_provider_result o id p.provider_origin (strip w.idempotency_key) r
  mark o id r mapped

-- `isinstance(exc, DeterministicSigningError)`: a configuration error is one.
abbrev pub is_deterministic : Error → Bool
is_deterministic deterministic = true
is_deterministic misconfigured = true
is_deterministic _ = false

-- The `except` of `_execute_single`.
unfoldable pub give_up : Outside → ℕ → Error → Action (Unit {0})
give_up o id e =
    if is_deterministic e
    then mark_withdrawal_failed o id (o.sanitize_runtime_error 220 (o.str_exception e))
    else mark_withdrawal_signer_retry o id (o.sanitize_runtime_error 220 (o.str_exception e))

-- `try: m; return 1 except: k; return 0`, with what m has written kept
abbrev pub attempt : Action (Unit {0}) → (Error → Action (Unit {0})) → Action ℕ
attempt m k db = let (r, db') = m db in elim r [ ok _ ↦ (ok 1, db') | err e ↦ (k e >> pure 0) db' ]

unfoldable pub execute_single : Outside → Provider → ℕ → Withdrawal → Text → Action ℕ
unfolding execute give_up
execute_single o p id w destination_address =
    attempt (execute o p id w destination_address) (give_up o id)

-- The body of the `try` of `_reconcile_single`.
unfoldable pub reconcile : Outside → Provider → ℕ → Withdrawal → Action (Unit {0})
unfolding mark
reconcile o p id w = do
  r ← lift (
      p.reconcile_withdrawal (record {
        withdrawal_id = id;
        idempotency_key = w.idempotency_key;
        provider_ref = non_blank (given_text w.provider_ref);
      }))
  raise_if (differ (text_of w.provider_ref) (text_of r.provider_ref)) retryable
  raise_if (differ (upper (text_of r.asset)) (name w.asset)) retryable
  mapped ← lift (map_result r)
  record_withdrawal_provider_result o id p.provider_origin w.idempotency_key r
  mark_withdrawal_reconciled o id
  mark o id r mapped

unfoldable pub retry_later : Outside → ℕ → Error → Action (Unit {0})
retry_later o id e = do
  mark_withdrawal_signer_retry o id (o.sanitize_runtime_error 220 (o.str_exception e))
  mark_withdrawal_reconciled o id

unfoldable pub reconcile_single : Outside → Provider → ℕ → Withdrawal → Action ℕ
unfolding reconcile retry_later
reconcile_single o p id w = attempt (reconcile o p id w) (retry_later o id)
