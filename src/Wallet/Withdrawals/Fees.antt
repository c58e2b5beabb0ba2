-- ===== src/Wallet/Withdrawals/Fees.antt =====
-- wallet_service.py: the platform's fee and the network's, booked once a withdrawal is on chain.
use escrow_hub.Common.{
  ℕ, Bool, true, false, not, ◌&&◌, ◌||◌, Option, none, some, List, [], ◌∷◌, if◌then◌else◌, ◌==◌,
}
use escrow_hub.Decimal.{Decimal, zero_amount, ◌-ᵈ◌, neg, lt}
use escrow_hub.Table.{find, update}
use escrow_hub.Tenant.{is_some}
use escrow_hub.Ledger.{add_entry}
use escrow_hub.Wallet.Charges.{quantize_asset}
use escrow_hub.Db.{
  Db, Action, pure, modify, run_if, ◌>>◌, Withdrawal, LedgerEntry, EntryType, RefType, AccountType,
  user, platform_revenue, bot_owner_revenue, withdrawal_platform_fee, withdrawal_network_fee,
  withdrawal_network_fee_refund, withdrawal_network_fee_adjustment, deposit_ref, escrow_ref,
  withdrawal_ref,
}

abbrev pub is_withdrawal_ref : RefType → Bool
is_withdrawal_ref deposit_ref = false
is_withdrawal_ref escrow_ref = false
is_withdrawal_ref withdrawal_ref = true

abbrev pub is_platform : AccountType → Bool
is_platform user = false
is_platform platform_revenue = true
is_platform bot_owner_revenue = false

abbrev pub is_platform_fee : EntryType → Bool
is_platform_fee withdrawal_platform_fee = true
is_platform_fee _ = false

abbrev pub is_network_fee : EntryType → Bool
is_network_fee withdrawal_network_fee = true
is_network_fee withdrawal_network_fee_refund = true
is_network_fee withdrawal_network_fee_adjustment = true
is_network_fee _ = false

abbrev pub books_platform_fee : ℕ → LedgerEntry → Bool
books_platform_fee withdrawal_id e =
    is_platform e.account_type
    && is_withdrawal_ref e.ref_type
    && e.ref_id == withdrawal_id
    && is_platform_fee e.entry_type

abbrev pub books_network_fee : ℕ → LedgerEntry → Bool
books_network_fee withdrawal_id e =
    is_withdrawal_ref e.ref_type && e.ref_id == withdrawal_id && is_network_fee e.entry_type

unfoldable pub any_entry : (LedgerEntry → Bool) → List LedgerEntry → Bool
any_entry p [] = false
any_entry p (e ∷ es) = p e || any_entry p es

unfoldable pub withdrawal_fee_booked : ℕ → Db → Bool
withdrawal_fee_booked withdrawal_id db =
    any_entry (books_platform_fee withdrawal_id) db.ledger_entries

-- The entry, where the row is there and its fee is positive.
unfoldable pub book_fee : ℕ → Option Withdrawal → Action (Unit {0})
unfolding add_entry
book_fee withdrawal_id none = pure tt
book_fee withdrawal_id (some w) = run_if (lt zero_amount w.platform_fee_amount) (
    add_entry platform_revenue none none w.asset w.platform_fee_amount withdrawal_platform_fee
      withdrawal_ref withdrawal_id)

unfoldable pub book_withdrawal_platform_fee_if_needed : ℕ → Action (Unit {0})
unfolding withdrawal_fee_booked
book_withdrawal_platform_fee_if_needed withdrawal_id db =
    if withdrawal_fee_booked withdrawal_id db
    then (pure tt db)
    else book_fee withdrawal_id (find withdrawal_id db.withdrawals) db

-- What the network took, or the estimate where the provider did not say.
abbrev pub actual_fee : Withdrawal → Decimal
actual_fee w = quantize_asset w.asset (elim w.network_fee_actual_amount [
  | some raw ↦ raw
  | none ↦ quantize_asset w.asset w.network_fee_amount
])

abbrev pub fee_delta : Withdrawal → Decimal
fee_delta w = quantize_asset w.asset (actual_fee w -ᵈ quantize_asset w.asset w.network_fee_amount)

unfoldable pub book_user_fee : ℕ → Withdrawal → EntryType → Action (Unit {0})
unfolding add_entry
book_user_fee withdrawal_id w entry_type =
    add_entry user (some w.user_id) (some w.user_id) w.asset (neg (fee_delta w)) entry_type
      withdrawal_ref withdrawal_id

-- The user's share of the difference to the estimate: a refund, an adjustment or nothing.
unfoldable pub book_delta : ℕ → Withdrawal → Action (Unit {0})
unfolding book_user_fee
book_delta withdrawal_id w =
    if lt (fee_delta w) zero_amount
    then book_user_fee withdrawal_id w withdrawal_network_fee_refund
    else run_if (lt zero_amount (fee_delta w))
        (book_user_fee withdrawal_id w withdrawal_network_fee_adjustment)

abbrev pub settled_at : ℕ → Withdrawal → Withdrawal
settled_at now w = record w { network_fee_settled_at = some now }

unfoldable pub settle_fee : ℕ → ℕ → Withdrawal → Action (Unit {0})
unfolding add_entry book_delta
settle_fee now withdrawal_id w = do
  run_if (lt zero_amount (actual_fee w)) (
      add_entry platform_revenue none none w.asset (actual_fee w) withdrawal_network_fee
        withdrawal_ref withdrawal_id)
  book_delta withdrawal_id w
  modify (λ db. record db { withdrawals = update withdrawal_id (settled_at now) db.withdrawals })

-- The early returns of `_settle_withdrawal_network_fee_if_needed`.
abbrev pub needs_settlement : Bool → ℕ → Withdrawal → Db → Bool
needs_settlement force withdrawal_id w db =
    (force || (not (is_some w.network_fee_settled_at) && is_some w.network_fee_actual_amount))
    && not (any_entry (books_network_fee withdrawal_id) db.ledger_entries)

unfoldable pub settle_withdrawal_network_fee_if_needed : ℕ → Bool → ℕ → Action (Unit {0})
settle_withdrawal_network_fee_if_needed now force withdrawal_id db =
    elim (find withdrawal_id db.withdrawals) [
      | none ↦ pure tt db
      | some w ↦
          if needs_settlement force withdrawal_id w db
          then settle_fee now withdrawal_id w db
          else (pure tt db)
    ]
