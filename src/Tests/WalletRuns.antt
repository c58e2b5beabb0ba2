-- ===== src/Tests/WalletRuns.antt =====
-- Deposits, withdrawals, the provider and the watchers at concrete inputs.
use escrow_hub.Outside.{Outside}
use escrow_hub.Escrow.Book.{pay}
use escrow_hub.Common.{
  ◌+◌, ◌-ℤ◌, ℕ, ◌≡◌, ◌≤◌, refl, none, some, Option, List, [], ◌∷◌, false, true, Bool, arith, pos,
  ◌+ℤ◌, ◌≤ℤ◌, if◌then◌else◌,
}
use escrow_hub.Text.{codes}
use escrow_hub.Asset.{usdt, quantum_places, ethereum}
use escrow_hub.Decimal.{Decimal, of_ℕ, units}
use escrow_hub.Outcome.{Result, ok}
use escrow_hub.Price.{wallet_fallback_prices}
use escrow_hub.Db.{Db, Withdrawal}
use escrow_hub.Ledger.Sums.{book, counted, holdings}
use escrow_hub.Wallet.Charges.{
  withdrawal_total_debit, quantize_asset, deposit_platform_fee, deposit_net_credit,
}
use escrow_hub.Wallet.Charges.Split.{Splits, deposit-Splits}
use escrow_hub.Wallet.Deposits.{Transfer, Amounts, deposit_amounts, credit_body}
use escrow_hub.Wallet.Deposits.Once.{report_all, report_all-le}
use escrow_hub.Wallet.Deposits.Booked.{credit_body-holdings}
use escrow_hub.Wallet.Withdrawals.Request.{Ticket, new_withdrawal, withdrawal_body}
use escrow_hub.Wallet.Withdrawals.Reserved.{withdrawal_body-available}
use escrow_hub.Ledger
use escrow_hub.Wallet.Withdrawals.FeesOnce.{fees_booked}
use escrow_hub.Wallet.Withdrawals.Fees.{actual_fee, settle_fee}
use escrow_hub.Wallet.Withdrawals.Settlement.{revenue, estimate, settle_fee-holdings}
use escrow_hub.Wallet.Withdrawals.History.{
  Mark, broadcasts, confirms, apply_marks, apply_marks-fees_booked,
}
use escrow_hub.Provider.Store.{
  ProviderStore, ExecuteRequest, get_by_idempotency, get_by_provider_ref, submitted_record,
  add_record,
}
use escrow_hub.Provider.Handlers.{execute_request, record_to_response}
use escrow_hub.Provider.Replay.{execute_request_again}
use escrow_hub.Watcher.{write_watcher_cursor, read_watcher_cursor}
use escrow_hub.Watcher.Health.{apply_reports, cursor_kept}
use escrow_hub.Tests.{some_outside, funded_db, some_settings}

deposit_example :
    Splits 6
      (quantize_asset usdt (of_ℕ 70))
      (deposit_platform_fee some_settings usdt (quantize_asset usdt (of_ℕ 70)))
      (deposit_net_credit some_settings usdt (quantize_asset usdt (of_ℕ 70)))
unfolding quantum_places
deposit_example = deposit-Splits some_settings usdt (of_ℕ 70) (omega arith)

abbrev a_transfer : ℕ → Bool → Transfer
a_transfer confirmations finalized = record {
  asset = usdt;
  txid = codes "0xab";
  unique_key = codes "0xab:0";
  chain_family = ethereum;
  confirmations = confirmations;
  finalized = finalized;
}

abbrev micros : ℕ → Decimal
micros n = record { coeff = pos n; places = 6 }

abbrev some_amounts : Amounts
some_amounts = record { gross = micros 70000000; fee = micros 700000; net = micros 69300000 }

-- The same transfer is seen, then final, then reported again.
abbrev reports : List (ℕ × Transfer × Amounts)
reports =
    (1, a_transfer 1 false, some_amounts)
    ∷ (1, a_transfer 12 true, some_amounts)
    ∷ (2, a_transfer 13 true, some_amounts)
    ∷ []

once_example : report_all reports funded_db ≤ 1
once_example = report_all-le (codes "0xab:0") reports funded_db (refl, (refl, (refl, tt))) tt

some-Splits : Splits 6 some_amounts.gross some_amounts.fee some_amounts.net
unfolding units escrow_hub.Common.scale ◌+ℤ◌ escrow_hub.Common.pow10
some-Splits = record {
  fee_nonneg = omega arith;
  net_nonneg = omega arith;
  fee_places = omega arith;
  net_places = omega arith;
  whole = refl;
}

credited-ok : (credit_body 1 (a_transfer 12 true) some_amounts funded_db).0 ≡ ok true
unfolding credit_body escrow_hub.Table.find_where escrow_hub.Wallet.Deposits.new_deposit
    escrow_hub.Wallet.Deposits.book_deposit escrow_hub.Decimal.lt escrow_hub.Common.scale
    escrow_hub.Common.pow10
credited-ok = refl

credit_example :
    holdings 6 usdt (credit_body 1 (a_transfer 12 true) some_amounts funded_db).1
    ≡ holdings 6 usdt funded_db +ℤ units 6 some_amounts.gross
credit_example =
    credit_body-holdings 6 1 (a_transfer 12 true) some_amounts funded_db some-Splits true
      credited-ok

abbrev pub withdrawing_db : Db
withdrawing_db = record funded_db {
  withdrawals =
      (1, new_withdrawal 900 1 usdt (of_ℕ 20) (micros 200000) (of_ℕ 1) (codes "0xdead")) ∷ [];
  next_withdrawal = 2;
}

abbrev some_marks : List (ℕ × Mark)
some_marks =
    (1, broadcasts (codes "0x01") none none none) ∷ (1, confirms (codes "0x01") none none) ∷ []

marks_example : fees_booked 1 (apply_marks some_outside some_marks withdrawing_db) ≤ 1
unfolding escrow_hub.Wallet.Withdrawals.FeesOnce.count
marks_example = apply_marks-fees_booked 1 some_outside some_marks withdrawing_db no_fee
  where
    no_fee : fees_booked 1 withdrawing_db ≤ 1
    no_fee = omega arith

abbrev empty_store : ProviderStore
empty_store = record { records = []; next_id = 1; audit_log = [] }

abbrev a_request : ExecuteRequest
a_request = record {
  withdrawal_id = 1;
  user_id = 1;
  asset = usdt;
  amount = codes "20";
  destination_address = codes "0xdead";
  idempotency_key = codes "wdrow:1:abc";
}

abbrev an_hour_later : Outside
an_hour_later = record some_outside { now = some_outside.now + 3600 }

again_example :
    (execute_request some_outside a_request empty_store ≡ (
      ok (record_to_response (submitted_record some_outside a_request)),
      add_record (submitted_record some_outside a_request) empty_store,
    ))
    × (execute_request an_hour_later a_request
          (execute_request some_outside a_request empty_store).1
        ≡ execute_request some_outside a_request empty_store)
unfolding get_by_idempotency escrow_hub.Table.find_where get_by_provider_ref
again_example = execute_request_again some_outside a_request empty_store an_hour_later refl refl

cursor_example :
    read_watcher_cursor (codes "eth") (
      apply_reports
        (λ t. t)
        (codes "eth")
        (record { at = 5; success = false; error = some (codes "down"); health = none } ∷ [])
        (write_watcher_cursor 4 (codes "eth") 77 []))
    ≡ some 77
cursor_example =
    cursor_kept (λ t. t) 4 (codes "eth") 77
      (record { at = 5; success = false; error = some (codes "down"); health = none } ∷ []) []

-- Two units were reserved for the network, and it took one and a half.
abbrev settling : Withdrawal
settling = record (new_withdrawal 900 1 usdt (of_ℕ 20) (micros 200000) (of_ℕ 2) (codes "0xdead")) {
  network_fee_actual_amount = some (micros 1500000);
}

settle_example :
    let after = (settle_fee 1000 1 settling withdrawing_db).1 in
    let q = quantum_places usdt in
    (revenue q after usdt
      ≡ revenue q withdrawing_db usdt +ℤ counted q usdt usdt (actual_fee settling))
    × (book q after 1 usdt
        ≡ pay 1 usdt
            (units q (estimate settling) -ℤ units q (actual_fee settling))
            (book q withdrawing_db)
            1
            usdt)
    × (holdings q usdt after ≡ holdings q usdt withdrawing_db +ℤ units q (estimate settling))
unfolding units escrow_hub.Common.scale quantize_asset escrow_hub.Decimal.quantize
    escrow_hub.Common.on_magnitude
settle_example = settle_fee-holdings 1000 1 settling withdrawing_db 1 usdt took
  where
    took : pos 0 ≤ℤ units (quantum_places usdt) (actual_fee settling)
    took = omega arith

abbrev pub a_withdrawal : Result Ticket × Db
a_withdrawal =
    withdrawal_body some_outside some_settings 1 usdt (of_ℕ 20) (codes "0xdead") funded_db

abbrev pub a_ticket : Ticket
a_ticket = record {
  id = 1;
  asset = usdt;
  amount = of_ℕ 20;
  platform_fee_amount = micros 200000;
  network_fee_amount = micros 1000000;
  total_debit = micros 21200000;
  destination_address = codes "0xdead";
}

pub a_withdrawal-ok : a_withdrawal.0 ≡ ok a_ticket
unfolding withdrawal_body escrow_hub.Wallet.Vault.encrypt_field escrow_hub.Table.find
    escrow_hub.Wallet.Withdrawals.Request.check_limits escrow_hub.Table.find_where
    wallet_fallback_prices escrow_hub.Decimal.lt escrow_hub.Common.scale escrow_hub.Common.pow10
    escrow_hub.Decimal.◌*ᵈ◌ escrow_hub.Common.◌*ℤ◌ escrow_hub.Decimal.quantize
    escrow_hub.Common.on_magnitude escrow_hub.Common.half_up
    escrow_hub.Wallet.Withdrawals.Request.withdrawn_usd_last_24h escrow_hub.Decimal.◌+ᵈ◌ ◌+ℤ◌
    Ledger.available_balance Ledger.net_user_ledger_balance Ledger.sum_where
    escrow_hub.Asset.asset_eq withdrawal_total_debit
    escrow_hub.Wallet.Charges.withdrawal_platform_fee
    escrow_hub.Wallet.Charges.withdrawal_network_fee quantize_asset quantum_places
    escrow_hub.Decimal.div_hundred escrow_hub.Decimal.units
a_withdrawal-ok = refl

some_debit-places : (withdrawal_total_debit some_settings usdt (of_ℕ 20)).places ≤ 6
unfolding withdrawal_total_debit quantize_asset escrow_hub.Decimal.quantize quantum_places
some_debit-places = omega arith

reserve_example :
    (units 6 (Ledger.available_balance 1 usdt a_withdrawal.1)
      ≡ units 6 (Ledger.available_balance 1 usdt funded_db)
        -ℤ units 6 (withdrawal_total_debit some_settings usdt (of_ℕ 20)))
    × (pos 0 ≤ℤ units 6 (Ledger.available_balance 1 usdt a_withdrawal.1))
reserve_example =
    withdrawal_body-available some_outside some_settings 1 usdt (of_ℕ 20) (codes "0xdead") funded_db
      6 (omega arith, tt) some_debit-places a_withdrawal-ok
