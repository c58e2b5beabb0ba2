-- ===== src/Tests/SignerRuns.antt =====
-- A pass of the worker over one withdrawal.
use escrow_hub.Common.{ℕ, ◌≡◌, refl, true, none, some}
use escrow_hub.Text.{codes, starts_with}
use escrow_hub.Wallet.Vault.{decrypt_text}
use escrow_hub.Outcome.{ok, err, retryable}
use escrow_hub.Signer.{Provider}
use escrow_hub.Signer.Queue.{reconcile_intervals, process_withdrawals}
use escrow_hub.Signer.Handled.{AllOpen, is_stored, is_handled}
use escrow_hub.Signer.Pass.{process_withdrawals-handled}
use escrow_hub.Tests.{some_outside, some_vault}
use escrow_hub.Tests.WalletRuns.{withdrawing_db}

-- It accepts a withdrawal, and is not there for a question.
abbrev a_provider : Provider
a_provider = record {
  provider_origin = codes "external_http";
  execute_withdrawal = λ request. ok (record {
    status = codes "submitted";
    txid = none;
    asset = none;
    provider_ref = some (codes "ref1");
    external_status = none;
    message = none;
    submitted_at = none;
    broadcasted_at = none;
    metadata = none;
  });
  reconcile_withdrawal = λ request. err retryable;
}

opens_all : AllOpen some_vault withdrawing_db.withdrawals
unfolding decrypt_text starts_with
opens_all = ((codes "0xdead", refl), tt)

pass_example :
    let after =
      process_withdrawals some_outside a_provider (reconcile_intervals 45 120 300) withdrawing_db in
    ((n : ℕ) × (after.0 ≡ ok n)) × (is_handled 1 after.1 ≡ true)
unfolding escrow_hub.Table.find
pass_example =
    process_withdrawals-handled some_outside a_provider (reconcile_intervals 45 120 300) 1
      withdrawing_db opens_all stored
  where
    stored : is_stored 1 withdrawing_db ≡ true
    stored = refl
