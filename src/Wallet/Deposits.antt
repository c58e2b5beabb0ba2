-- ===== src/Wallet/Deposits.antt =====
-- wallet_service.py: `credit_deposit_if_confirmed`.
pub mod Once
pub mod Booked
use escrow_hub.Common.{
  ℕ, suc, max, Bool, true, false, not, Option, none, some, List, [], ◌∷◌, if◌then◌else◌,
}
use escrow_hub.Text.{Text, text_eq}
use escrow_hub.Asset.{Asset, ChainFamily}
use escrow_hub.Decimal.{Decimal, zero_amount, lt}
use escrow_hub.Settings.{Settings}
use escrow_hub.Table.{Table, find, find_where, update}
use escrow_hub.Tenant.{is_some}
use escrow_hub.Ledger.{add_entry}
use escrow_hub.Wallet.Users.{known_user, ensure_user_row}
use escrow_hub.Wallet.Charges.{quantize_asset, deposit_platform_fee, deposit_net_credit}
use escrow_hub.Db.{
  Db, Action, pure, gets, modify, run_if, ◌>>=◌, ◌>>◌, Deposit, DepositStatus, seen, credited,
  rejected, user, platform_revenue, EntryType, deposit_ref,
}
use escrow_hub.Db.Transaction.{Call, transaction, statement}
use escrow_hub.Db.Transaction

-- What a watcher reports of one transfer.
pub record Transfer : Type 0 where
  pub asset : Asset
  pub txid : Text
  pub unique_key : Text
  pub chain_family : ChainFamily
  pub confirmations : ℕ
  pub finalized : Bool

-- The amounts of a credit.
pub record Amounts : Type 0 where
  pub gross : Decimal
  pub fee : Decimal
  pub net : Decimal

unfoldable pub deposit_amounts : Settings → Asset → Decimal → Amounts
deposit_amounts settings asset amount =
    let gross = quantize_asset asset amount in
    record {
      gross = gross;
      fee = deposit_platform_fee settings asset gross;
      net = deposit_net_credit settings asset gross;
    }

abbrev pub has_key : Text → Deposit → Bool
has_key unique_key d = text_eq d.unique_key unique_key

abbrev pub is_credited : DepositStatus → Bool
is_credited seen = false
is_credited credited = true
is_credited rejected = false

abbrev pub new_row : ℕ → Transfer → Amounts → Deposit
new_row user_id t a = record {
  user_id = user_id;
  asset = t.asset;
  amount = a.gross;
  txid = t.txid;
  unique_key = t.unique_key;
  chain_family = t.chain_family;
  confirmations = t.confirmations;
  status = if t.finalized then credited else seen;
  credited_amount = a.net;
  platform_fee_amount = a.fee;
}

-- INSERT INTO deposits: the id of the new row.
unfoldable pub insert_deposit : ℕ → Transfer → Amounts → Action ℕ
insert_deposit user_id t a db = pure db.next_deposit (record db {
  deposits = (db.next_deposit, new_row user_id t a) ∷ db.deposits;
  next_deposit = suc db.next_deposit;
})

-- UPDATE deposits, with the status that it sets.
abbrev pub reported : Transfer → Amounts → DepositStatus → Deposit → Deposit
reported t a status d = record d {
  confirmations = max d.confirmations t.confirmations;
  amount = a.gross;
  credited_amount = a.net;
  platform_fee_amount = a.fee;
  status = status;
}

unfoldable pub update_deposit : ℕ → Transfer → Amounts → DepositStatus → Action (Unit {0})
update_deposit id t a status =
    modify λ db. record db { deposits = update id (reported t a status) db.deposits }

-- The two entries of a credit, each where its amount is positive.
unfoldable pub book_deposit : ℕ → Asset → Amounts → ℕ → Action (Unit {0})
unfolding add_entry
book_deposit user_id asset a deposit_id = do
  run_if (lt zero_amount a.net) (
      add_entry user (some user_id) (some user_id) asset a.net EntryType.deposit deposit_ref
        deposit_id)
  run_if (lt zero_amount a.fee) (
      add_entry platform_revenue none none asset a.fee EntryType.deposit_platform_fee deposit_ref
        deposit_id)

unfoldable pub new_deposit : ℕ → Transfer → Amounts → Action Bool
unfolding insert_deposit
new_deposit user_id t a = do
  deposit_id ← insert_deposit user_id t a
  run_if t.finalized (book_deposit user_id t.asset a deposit_id)
  pure t.finalized

unfoldable pub known_deposit : ℕ → Transfer → Amounts → ℕ → DepositStatus → Action Bool
unfolding update_deposit
known_deposit user_id t a deposit_id status =
    if is_credited status
    then (do update_deposit deposit_id t a status; pure false)
    else if t.finalized
    then (do
      update_deposit deposit_id t a credited
      book_deposit user_id t.asset a deposit_id
      pure true)
    else (do update_deposit deposit_id t a status; pure false)

-- The statements of the transaction.
unfoldable pub credit_body : ℕ → Transfer → Amounts → Action Bool
credit_body user_id t a = do
  row ← gets (λ db. find_where (has_key t.unique_key) db.deposits)
  elim row [
    | none ↦ new_deposit user_id t a
    | some (deposit_id, d) ↦ known_deposit user_id t a deposit_id d.status
  ]

-- `_ensure_user_row` outside the transaction: a row that it inserts opens one.
unfoldable pub ensure_user_statement : ℕ → Call ℕ
ensure_user_statement user_ref c =
    statement (not (is_some (known_user user_ref c.working.users))) (ensure_user_row user_ref) c

unfoldable pub credit_deposit_if_confirmed : Settings → ℕ → Decimal → Transfer → Call Bool
credit_deposit_if_confirmed settings user_id amount t =
    Transaction.◌>>=◌ (ensure_user_statement user_id) (λ resolved_user_id.
      transaction (credit_body resolved_user_id t (deposit_amounts settings t.asset amount)))
