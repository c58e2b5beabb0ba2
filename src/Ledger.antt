-- ===== src/Ledger.antt =====
-- ledger_service.py: the ledger and the balances that are sums over it.
pub mod Sums
use escrow_hub.Common.{
  ℕ, Bool, true, false, ◌&&◌, Option, none, some, List, [], ◌∷◌, if◌then◌else◌, ◌==◌,
}
use escrow_hub.Decimal.{Decimal, zero_amount, ◌+ᵈ◌}
use escrow_hub.Asset.{Asset, asset_eq}
use escrow_hub.Table.{Table}
use escrow_hub.Db.{
  Db, Action, modify, AccountType, user, platform_revenue, bot_owner_revenue, EntryType, RefType,
  LedgerEntry, Lock, LockStatus, locked, released, Withdrawal, WithdrawalStatus,
}

unfoldable pub add_entry :
    AccountType
    → Option ℕ
    → Option ℕ
    → Asset
    → Decimal
    → EntryType
    → RefType
    → ℕ
    → Action (Unit {0})
add_entry account_type account_owner_id user_id asset amount entry_type ref_type ref_id =
    modify λ db. record db {
      ledger_entries =
          record {
            account_type = account_type;
            account_owner_id = account_owner_id;
            user_id = user_id;
            asset = asset;
            amount = amount;
            entry_type = entry_type;
            ref_type = ref_type;
            ref_id = ref_id;
          }
          ∷ db.ledger_entries;
    }

-- `column = ?`, which is false of NULL.
abbrev pub column_is : Option ℕ → ℕ → Bool
column_is none k = false
column_is (some j) k = j == k

abbrev pub is_user : AccountType → Bool
is_user user = true
is_user platform_revenue = false
is_user bot_owner_revenue = false

-- The sum of the amounts that pass a test, from the oldest row on.
unfoldable pub sum_where {ℓ} : {A : Type ℓ} → (A → Bool) → (A → Decimal) → List A → Decimal
sum_where p amount [] = zero_amount
sum_where p amount (x ∷ xs) =
    let rest = sum_where p amount xs in if p x then rest +ᵈ amount x else rest

abbrev pub of_user : ℕ → Asset → LedgerEntry → Bool
of_user user_id asset e =
    is_user e.account_type && column_is e.account_owner_id user_id && asset_eq e.asset asset

-- `_net_user_ledger_balance`, over the rows of the table
unfoldable pub net_user_ledger_balance : ℕ → Asset → List LedgerEntry → Decimal
net_user_ledger_balance user_id asset rows = sum_where (of_user user_id asset) (λ e. e.amount) rows

unfoldable pub available_balance : ℕ → Asset → Db → Decimal
available_balance user_id asset db = net_user_ledger_balance user_id asset db.ledger_entries

abbrev pub is_locked : LockStatus → Bool
is_locked locked = true
is_locked released = false

abbrev pub is_pending : WithdrawalStatus → Bool
is_pending WithdrawalStatus.pending = true
is_pending _ = false

abbrev pub lock_of_user : ℕ → Asset → ℕ × Lock → Bool
lock_of_user user_id asset (_, l) =
    l.user_id == user_id && asset_eq l.asset asset && is_locked l.status

abbrev pub pending_of_user : ℕ → Asset → ℕ × Withdrawal → Bool
pending_of_user user_id asset (_, w) =
    w.user_id == user_id && asset_eq w.asset asset && is_pending w.status

-- What a withdrawal row reserves.
abbrev pub reserved_amount : Withdrawal → Decimal
reserved_amount w = w.amount +ᵈ w.platform_fee_amount +ᵈ w.network_fee_amount

unfoldable pub locked_balance : ℕ → Asset → Db → Decimal
locked_balance user_id asset db =
    sum_where (lock_of_user user_id asset) (λ row. row.1.amount) db.escrow_locks
    +ᵈ sum_where (pending_of_user user_id asset) (λ row. reserved_amount row.1) db.withdrawals

unfoldable pub total_balance : ℕ → Asset → Db → Decimal
total_balance user_id asset db =
    available_balance user_id asset db +ᵈ locked_balance user_id asset db
