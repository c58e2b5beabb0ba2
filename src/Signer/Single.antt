-- ===== src/Signer/Single.antt =====
-- signer_service.py: what `_execute_single` and `_reconcile_single` do to the queue.
use escrow_hub.Common.{ℕ, refl, Bool, Option, none, some, Bool-cases, Option-cases, inl, inr, arith}
use escrow_hub.Text.{Text, is_empty, strip, upper}
use escrow_hub.Asset.{name}
use escrow_hub.Outcome.{
  Error, withdrawal_not_found, idempotency_mismatch, missing_idempotency_key, retryable,
}
use escrow_hub.Outside.{Outside}
use escrow_hub.Table.{find}
use escrow_hub.Tenant.{is_some}
use escrow_hub.Db.{Action, Withdrawal, lift, raise_if, or_raise, gets, ◌>>=◌}
use escrow_hub.Wallet.Withdrawals.Results.{
  ProviderResult, record_withdrawal_provider_result, record_on_row, with_result,
  persist_withdrawal_idempotency, with_first_key, check_result, differ, text_of,
}
use escrow_hub.Wallet.Withdrawals.Marks.{
  change, mark_withdrawal_signer_retry, mark_withdrawal_failed, mark_withdrawal_reconciled,
  fail_row,
}
use escrow_hub.Signer.{
  Provider, map_result, Mapped, submitted, broadcasted, confirmed, mark, execute, give_up,
  is_deterministic, execute_single, reconcile, retry_later, reconcile_single,
}
use escrow_hub.Signer.Attempt.{Finishes, attempt-Keeps, attempt-Finishes, attempt-Ends}
use escrow_hub.Signer.Handled.{Keeps, Ends, reads-Keeps, change-Keeps, >>=-Keeps, >>=-Ends}
use escrow_hub.Signer.Marked.{
  Takes, mark_withdrawal_submitted-Takes, mark_withdrawal_broadcasted-Takes,
  mark_withdrawal_confirmed-Takes, mark_withdrawal_signer_retry-Takes, mark_withdrawal_failed-Takes,
  mark_withdrawal_reconciled-Keeps,
}

record_on_row-Keeps :
    (o : Outside) (id : ℕ) (origin key : Text) (r : ProviderResult) (row : Option Withdrawal)
    → Keeps (record_on_row o id origin key r row)
unfolding record_on_row
record_on_row-Keeps o id origin key r none = reads-Keeps _ λ db. refl
record_on_row-Keeps o id origin key r (some w) =
    >>=-Keeps (lift (check_result origin key r w)) _ (reads-Keeps _ λ db. refl)
      λ read. change-Keeps id (with_result o origin key r read.0 read.1) (λ w h. h) (λ w. refl)

record-Keeps :
    (o : Outside) (id : ℕ) (origin key : Text) (r : ProviderResult)
    → Keeps (record_withdrawal_provider_result o id origin key r)
unfolding record_withdrawal_provider_result
record-Keeps o id origin key r =
    >>=-Keeps (gets (λ db. find id db.withdrawals)) _ (reads-Keeps _ λ db. refl)
      (record_on_row-Keeps o id origin key r)

mark-Takes : (o : Outside) (id : ℕ) (r : ProviderResult) (m : Mapped) → Takes id (mark o id r m)
unfolding mark
mark-Takes o id r submitted = mark_withdrawal_submitted-Takes o id _ _ _
mark-Takes o id r (broadcasted txid) = mark_withdrawal_broadcasted-Takes o id txid _ _ _
mark-Takes o id r (confirmed txid) = mark_withdrawal_confirmed-Takes o id txid _ _

give_up-Takes : (o : Outside) (id : ℕ) (e : Error) → Takes id (give_up o id e)
unfolding give_up
give_up-Takes o id e = elim (Bool-cases (is_deterministic e)) [
  | inl d ↦ rw d (mark_withdrawal_failed-Takes o id _)
  | inr d ↦ rw d (mark_withdrawal_signer_retry-Takes o id _)
]

failed-Finishes :
    (o : Outside) (id : ℕ) (reason : Text) → Finishes (mark_withdrawal_failed o id reason)
unfolding mark_withdrawal_failed fail_row change
failed-Finishes o id reason = record {
  finishes = λ db. elim (Option-cases (find id db.withdrawals)) [
    | inl e ↦ (tt, ground arith)
    | inr (w, e) ↦ (tt, ground arith)
  ];
}

retry-Finishes :
    (o : Outside) (id : ℕ) (reason : Text) → Finishes (mark_withdrawal_signer_retry o id reason)
unfolding mark_withdrawal_signer_retry change
retry-Finishes o id reason = record {
  finishes = λ db. elim (Bool-cases (is_some (find id db.withdrawals))) [
    | inl e ↦ (tt, ground arith)
    | inr e ↦ (tt, ground arith)
  ];
}

give_up-Finishes : (o : Outside) (id : ℕ) (e : Error) → Finishes (give_up o id e)
unfolding give_up
give_up-Finishes o id e = elim (Bool-cases (is_deterministic e)) [
  | inl d ↦ rw d (failed-Finishes o id _)
  | inr d ↦ rw d (retry-Finishes o id _)
]

raise_if-Keeps : (c : Bool) (e : Error) → Keeps (raise_if c e)
raise_if-Keeps c e = reads-Keeps (raise_if c e) λ db. refl

persist-Keeps : (id : ℕ) (key : Text) → Keeps (persist_withdrawal_idempotency id key)
unfolding persist_withdrawal_idempotency
persist-Keeps id key =
    >>=-Keeps (gets (λ db. find id db.withdrawals)) _ (reads-Keeps _ λ db. refl) λ row.
      >>=-Keeps (or_raise row withdrawal_not_found) _ (or_raise-Keeps row) λ w.
        >>=-Keeps (raise_if (differ (strip w.idempotency_key) (strip key)) idempotency_mismatch) _
          (raise_if-Keeps _ _)
          λ _. change-Keeps id (with_first_key (strip key)) (λ w h. h) (λ w. refl)
  where
    or_raise-Keeps : (row : Option Withdrawal) → Keeps (or_raise row withdrawal_not_found)
    or_raise-Keeps none = reads-Keeps _ λ db. refl
    or_raise-Keeps (some w) = reads-Keeps _ λ db. refl

module _ {ℓ} {A : Type ℓ} (m : Action A) (f : A → Action (Unit {0})) where
  >>=-Takes : {id : ℕ} → Keeps m → ((a : A) → Takes id (f a)) → Takes id (m >>= f)
  >>=-Takes km tf = record {
    keeps = >>=-Keeps m f km λ a. (tf a).keeps;
    ends = >>=-Ends m f km λ a. (tf a).ends;
  }

execute-Takes :
    (o : Outside) (p : Provider) (id : ℕ) (w : Withdrawal) (address : Text)
    → Takes id (execute o p id w address)
unfolding execute
execute-Takes o p id w address =
    >>=-Takes (raise_if (is_empty (strip w.idempotency_key)) missing_idempotency_key) _
      (raise_if-Keeps _ _)
      λ _.
        >>=-Takes (persist_withdrawal_idempotency id (strip w.idempotency_key)) _
          (persist-Keeps id _)
          λ _. >>=-Takes (lift (p.execute_withdrawal _)) _ (reads-Keeps _ λ db. refl) λ r.
            >>=-Takes (lift (map_result r)) _ (reads-Keeps _ λ db. refl) λ mapped.
              >>=-Takes (raise_if _ retryable) _ (raise_if-Keeps _ _) λ _.
                >>=-Takes
                  (record_withdrawal_provider_result o id p.provider_origin
                    (strip w.idempotency_key) r)
                  _ (record-Keeps o id _ _ r) λ _. mark-Takes o id r mapped

reconcile-Keeps :
    (o : Outside) (p : Provider) (id : ℕ) (w : Withdrawal) → Keeps (reconcile o p id w)
unfolding reconcile
reconcile-Keeps o p id w =
    >>=-Keeps (lift (p.reconcile_withdrawal _)) _ (reads-Keeps _ λ db. refl) λ r.
      >>=-Keeps (raise_if (differ (text_of w.provider_ref) (text_of r.provider_ref)) retryable) _
        (reads-Keeps _ λ db. refl)
        λ _.
          >>=-Keeps (raise_if (differ (upper (text_of r.asset)) (name w.asset)) retryable) _
            (reads-Keeps _ λ db. refl)
            λ _. >>=-Keeps (lift (map_result r)) _ (reads-Keeps _ λ db. refl) λ mapped.
              >>=-Keeps
                (record_withdrawal_provider_result o id p.provider_origin w.idempotency_key r) _
                (record-Keeps o id _ _ r)
                λ _.
                  >>=-Keeps (mark_withdrawal_reconciled o id) _
                    (mark_withdrawal_reconciled-Keeps o id) λ _. (mark-Takes o id r mapped).keeps

retry_later-Keeps : (o : Outside) (id : ℕ) (e : Error) → Keeps (retry_later o id e)
unfolding retry_later
retry_later-Keeps o id e =
    >>=-Keeps (mark_withdrawal_signer_retry o id (o.sanitize_runtime_error 220 (o.str_exception e)))
      (λ _. mark_withdrawal_reconciled o id) (mark_withdrawal_signer_retry-Takes o id _).keeps
      λ _. mark_withdrawal_reconciled-Keeps o id

retry_later-Finishes : (o : Outside) (id : ℕ) (e : Error) → Finishes (retry_later o id e)
unfolding retry_later mark_withdrawal_reconciled change
retry_later-Finishes o id e = record {
  finishes = λ db.
      let (u, returns) =
        (retry-Finishes o id (o.sanitize_runtime_error 220 (o.str_exception e))).finishes db in
      (tt, ground arith);
}

-- What a pass asks of the work on one row.
pub record Works (m : Action ℕ) : Type 0 where
  pub keeps : Keeps m
  pub finishes : Finishes m

pub execute_single-Works :
    (o : Outside) (p : Provider) (id : ℕ) (w : Withdrawal) (address : Text)
    → Works (execute_single o p id w address)
unfolding execute_single
execute_single-Works o p id w address = record {
  keeps =
      attempt-Keeps (execute o p id w address) (give_up o id) (execute-Takes o p id w address).keeps
        λ e. (give_up-Takes o id e).keeps;
  finishes = attempt-Finishes (execute o p id w address) (give_up o id) (give_up-Finishes o id);
}

pub execute_single-Ends :
    (o : Outside) (p : Provider) (id : ℕ) (w : Withdrawal) (address : Text)
    → Ends id (execute_single o p id w address)
unfolding execute_single
execute_single-Ends o p id w address =
    let taken = execute-Takes o p id w address in
    attempt-Ends (execute o p id w address) (give_up o id) taken.keeps taken.ends
      λ e. (give_up-Takes o id e).ends

pub reconcile_single-Works :
    (o : Outside) (p : Provider) (id : ℕ) (w : Withdrawal) → Works (reconcile_single o p id w)
unfolding reconcile_single
reconcile_single-Works o p id w = record {
  keeps =
      attempt-Keeps (reconcile o p id w) (retry_later o id) (reconcile-Keeps o p id w)
        (retry_later-Keeps o id);
  finishes = attempt-Finishes (reconcile o p id w) (retry_later o id) (retry_later-Finishes o id);
}
