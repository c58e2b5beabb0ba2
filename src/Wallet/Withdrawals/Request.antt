-- ===== src/Wallet/Withdrawals/Request.antt =====
-- wallet_service.py: `request_withdrawal` and what it asks of the user's earlier withdrawals.
use escrow_hub.Common.{
  ℕ, suc, ◌+◌, Bool, true, false, not, ◌&&◌, none, some, [], ◌∷◌, ◌++◌, if◌then◌else◌, ◌==◌, ltb,
  leb,
}
use escrow_hub.Text.{Text, codes, take, strip}
use escrow_hub.Asset.{Asset, name}
use escrow_hub.Decimal.{Decimal, zero_amount, ◌+ᵈ◌, neg, lt}
use escrow_hub.Outcome.{
  Result, ok, rate_limited, below_minimum_withdrawal, daily_limit_exceeded, insufficient_balance,
  withdrawals_disabled, amount_not_positive,
}
use escrow_hub.Outcome
use escrow_hub.Settings.{Settings}
use escrow_hub.Price.{Quotes}
use escrow_hub.Outside.{Outside}
use escrow_hub.Table.{Table, find_where, update}
use escrow_hub.Ledger
use escrow_hub.Ledger.{add_entry}
use escrow_hub.Wallet.Addresses.{validate_withdrawal_address}
use escrow_hub.Wallet.Vault.{encrypt_field}
use escrow_hub.Wallet.Users.{assert_not_frozen}
use escrow_hub.Wallet.Charges.{
  withdrawal_platform_fee, withdrawal_network_fee, withdrawal_total_debit, withdrawal_minimum_usd,
  usd_value,
}
use escrow_hub.Wallet.Deposits.{ensure_user_statement}
use escrow_hub.Db.{
  Db, Action, pure, gets, modify, lift, raise_if, ◌>>=◌, ◌>>◌, Withdrawal, WithdrawalStatus, user,
  withdrawal_reserve, withdrawal_ref,
}
use escrow_hub.Db.Transaction.{Call, transaction}
use escrow_hub.Db.Transaction

-- What `request_withdrawal` returns.
pub record Ticket : Type 0 where
  pub id : ℕ
  pub asset : Asset
  pub amount : Decimal
  pub platform_fee_amount : Decimal
  pub network_fee_amount : Decimal
  pub total_debit : Decimal
  pub destination_address : Text

-- The statuses that count against the daily limit.
abbrev pub is_under_way : WithdrawalStatus → Bool
is_under_way WithdrawalStatus.pending = true
is_under_way WithdrawalStatus.submitted = true
is_under_way WithdrawalStatus.broadcasted = true
is_under_way WithdrawalStatus.signer_retry = true
is_under_way _ = false

abbrev pub day : ℕ
day = 86400

abbrev pub counts_today : ℕ → ℕ → Withdrawal → Bool
counts_today now user_id w =
    w.user_id == user_id && is_under_way w.status && leb now (w.created_at + day)

unfoldable pub add_value : Quotes → Withdrawal → Result Decimal → Result Decimal
unfolding usd_value
add_value live w rest =
    Outcome.◌>>=◌ rest
      λ total. Outcome.◌>>=◌ (usd_value live w.asset w.amount) λ value. ok (total +ᵈ value)

unfoldable pub withdrawn_usd_last_24h : Quotes → ℕ → ℕ → Table Withdrawal → Result Decimal
withdrawn_usd_last_24h live now user_id [] = ok zero_amount
withdrawn_usd_last_24h live now user_id ((_, w) ∷ rows) =
    let rest = withdrawn_usd_last_24h live now user_id rows in
    if counts_today now user_id w then add_value live w rest else rest

abbrev pub of_user : ℕ → Withdrawal → Bool
of_user user_id w = w.user_id == user_id

-- Whether the user's last withdrawal was made less than the interval ago.
unfoldable pub too_soon : ℕ → ℕ → ℕ → Table Withdrawal → Bool
too_soon interval now user_id rows = ltb 0 interval && elim (find_where (of_user user_id) rows) [
  | none ↦ false
  | some (_, w) ↦ ltb now (w.created_at + interval)
]

unfoldable pub build_withdrawal_idempotency_key : Outside → ℕ → ℕ → Asset → Decimal → Text → Text
build_withdrawal_idempotency_key o withdrawal_id user_id asset amount destination_address =
    let bar = codes "|" in
    let payload : Text =
      o.str_int withdrawal_id
      ++ bar
      ++ o.str_int user_id
      ++ bar
      ++ name asset
      ++ bar
      ++ o.str_decimal amount
      ++ bar
      ++ strip destination_address in
    codes "wdrow:" ++ o.str_int withdrawal_id ++ codes ":" ++ take 24 (o.sha256_hex payload)

-- The row that the INSERT makes, with the columns that it leaves out.
abbrev pub new_withdrawal : ℕ → ℕ → Asset → Decimal → Decimal → Decimal → Text → Withdrawal
new_withdrawal now user_id asset amount fee network_fee destination = record {
  user_id = user_id;
  asset = asset;
  amount = amount;
  platform_fee_amount = fee;
  network_fee_amount = network_fee;
  network_fee_actual_amount = none;
  network_fee_settled_at = none;
  destination_address = destination;
  status = WithdrawalStatus.pending;
  txid = none;
  failure_reason = none;
  provider_origin = none;
  provider_ref = none;
  idempotency_key = [];
  external_status = none;
  submitted_at = none;
  broadcasted_at = none;
  last_reconciled_at = none;
  tx_metadata_json = none;
  created_at = now;
}

unfoldable pub insert_withdrawal : Withdrawal → Action ℕ
insert_withdrawal w db = pure db.next_withdrawal (record db {
  withdrawals = (db.next_withdrawal, w) ∷ db.withdrawals;
  next_withdrawal = suc db.next_withdrawal;
})

abbrev pub with_key : Text → Withdrawal → Withdrawal
with_key key w = record w { idempotency_key = key }

unfoldable pub set_key : ℕ → Text → Action (Unit {0})
set_key id key = modify λ db. record db { withdrawals = update id (with_key key) db.withdrawals }

-- The limits, before anything is written.
unfoldable pub check_limits : Outside → Settings → ℕ → Asset → Decimal → Db → Result (Unit {0})
unfolding too_soon usd_value withdrawal_minimum_usd
check_limits o settings user_id asset amount db =
    Outcome.◌>>◌
      (Outcome.raise_if
        (too_soon settings.withdrawal_min_interval_seconds o.now user_id db.withdrawals)
        rate_limited)
      (Outcome.◌>>=◌ (usd_value o.live_prices asset amount) λ request_usd.
        Outcome.◌>>=◌ (withdrawal_minimum_usd settings) λ minimum_usd.
          Outcome.◌>>◌ (Outcome.raise_if (lt request_usd minimum_usd) below_minimum_withdrawal) (
            Outcome.◌>>=◌ (withdrawn_usd_last_24h o.live_prices o.now user_id db.withdrawals)
              λ spent.
                Outcome.raise_if (lt settings.withdrawal_daily_limit_usd (spent +ᵈ request_usd))
                  daily_limit_exceeded))

-- The statements of the transaction.
unfoldable pub withdrawal_body : Outside → Settings → ℕ → Asset → Decimal → Text → Action Ticket
unfolding insert_withdrawal set_key add_entry assert_not_frozen
withdrawal_body o settings user_id asset amount destination_address = do
  assert_not_frozen user_id
  limits ← gets (check_limits o settings user_id asset amount)
  lift limits
  balance ← gets (Ledger.available_balance user_id asset)
  raise_if (lt balance (withdrawal_total_debit settings asset amount)) insufficient_balance
  encrypted_destination ← lift (encrypt_field o.vault destination_address)
  wid ← insert_withdrawal (
      new_withdrawal o.now user_id asset amount (withdrawal_platform_fee settings asset amount)
        (withdrawal_network_fee settings asset) encrypted_destination)
  set_key wid (build_withdrawal_idempotency_key o wid user_id asset amount destination_address)
  add_entry user (some user_id) (some user_id) asset
      (neg (withdrawal_total_debit settings asset amount)) withdrawal_reserve withdrawal_ref wid
  pure (record {
    id = wid;
    asset = asset;
    amount = amount;
    platform_fee_amount = withdrawal_platform_fee settings asset amount;
    network_fee_amount = withdrawal_network_fee settings asset;
    total_debit = withdrawal_total_debit settings asset amount;
    destination_address = destination_address;
  })

unfoldable pub request_withdrawal : Outside → Settings → ℕ → Asset → Decimal → Text → Call Ticket
request_withdrawal o settings user_id asset amount destination_address =
    Transaction.◌>>◌
      (Transaction.lift (Outcome.raise_if (not settings.withdrawals_enabled) withdrawals_disabled))
      (Transaction.◌>>◌
        (Transaction.lift (Outcome.raise_if (not (lt zero_amount amount)) amount_not_positive))
        (Transaction.◌>>◌
          (Transaction.lift (validate_withdrawal_address o.libraries asset destination_address))
          (Transaction.◌>>=◌ (ensure_user_statement user_id) λ resolved_user_id.
            transaction
              (withdrawal_body o settings resolved_user_id asset amount destination_address))))
