-- ===== src/Tests/RefundRuns.antt =====
-- A withdrawal that is requested and fails.
use escrow_hub.Common.{◌≡◌, arith}
use escrow_hub.Text.{codes}
use escrow_hub.Asset.{usdt, quantum_places}
use escrow_hub.Decimal.{of_ℕ}
use escrow_hub.Ledger.Sums.{book}
use escrow_hub.Wallet.Withdrawals.Marks.{mark_withdrawal_failed}
use escrow_hub.Wallet.Withdrawals.Refund.{mark_withdrawal_failed-withdrawal_body}
use escrow_hub.Tests.{funded_db, some_outside, some_settings}
use escrow_hub.Tests.WalletRuns.{a_withdrawal, a_withdrawal-ok}

refund_example :
    book 6 (mark_withdrawal_failed some_outside 1 (codes "rejected") a_withdrawal.1).1 1 usdt
    ≡ book 6 funded_db 1 usdt
unfolding quantum_places
refund_example =
    mark_withdrawal_failed-withdrawal_body some_outside some_settings 1 usdt (of_ℕ 20)
      (codes "0xdead") funded_db 6 (codes "rejected") 1 usdt (omega arith) (omega arith)
      a_withdrawal-ok
