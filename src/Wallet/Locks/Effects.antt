-- ===== src/Wallet/Locks/Effects.antt =====
-- What the lock operations do, branch by branch.
use escrow_hub.Common.{ℕ, ◌≡◌, false, Option, none, some, ◌∷◌, arith, Option-cases, inl, inr}
use escrow_hub.Decimal.{Decimal, neg, lt}
use escrow_hub.Asset.{Asset}
use escrow_hub.Outcome.{ok}
use escrow_hub.Table.{Table, find, update}
use escrow_hub.Ledger.{add_entry, is_locked}
use escrow_hub.Ledger
use escrow_hub.Wallet.Users.{known_user, ensure_user_row, available_balance}
use escrow_hub.Wallet.Users.Resolve.{resolve_user, after_ensure, ensure_user_row_lem}
use escrow_hub.Wallet.Locks.{set_released, lock_for_escrow, release_escrow, cancel_escrow_lock}
use escrow_hub.Db.{
  Db, Lock, locked, LedgerEntry, AccountType, EntryType, user, platform_revenue, bot_owner_revenue,
  escrow_lock, escrow_unlock, escrow_release, platform_fee, bot_fee, escrow_ref,
}

-- A ledger row about an escrow.
abbrev pub entry : AccountType → Option ℕ → Asset → Decimal → EntryType → ℕ → LedgerEntry
entry account owner asset amount kind escrow_id = record {
  account_type = account;
  account_owner_id = owner;
  user_id = owner;
  asset = asset;
  amount = amount;
  entry_type = kind;
  ref_type = escrow_ref;
  ref_id = escrow_id;
}

abbrev pub released_locks : ℕ → Db → Table Lock
released_locks escrow_id db = update escrow_id set_released db.escrow_locks

abbrev pub after_cancel : ℕ → Lock → Db → Db
after_cancel escrow_id l db = record db {
  escrow_locks = released_locks escrow_id db;
  ledger_entries =
      entry user (some l.user_id) l.asset l.amount escrow_unlock escrow_id ∷ db.ledger_entries;
}

abbrev pub after_release : ℕ → ℕ → Decimal → Decimal → Decimal → ℕ → Asset → Db → Db
after_release escrow_id seller_id platform_amount bot_amount seller_payout bot_owner_id asset db =
    record db {
      escrow_locks = released_locks escrow_id db;
      ledger_entries =
          entry bot_owner_revenue (some bot_owner_id) asset bot_amount bot_fee escrow_id
          ∷ entry platform_revenue none asset platform_amount platform_fee escrow_id
          ∷ entry user (some seller_id) asset seller_payout escrow_release escrow_id
          ∷ db.ledger_entries;
    }

-- A call that returns has found a lock that is still held.
abbrev pub Held : ℕ → Db → Lock → Type 0
Held escrow_id db l = (find escrow_id db.escrow_locks ≡ some l) × (l.status ≡ locked)

pub cancel_escrow_lock-ok :
    (escrow_id : ℕ) (db : Db)
    → (cancel_escrow_lock escrow_id db).0 ≡ ok tt
    → (l : Lock) × Held escrow_id db l
      × ((cancel_escrow_lock escrow_id db).1 ≡ after_cancel escrow_id l db)
unfolding cancel_escrow_lock
cancel_escrow_lock-ok escrow_id db h = elim (Option-cases (find escrow_id db.escrow_locks)) [
  | inl e ↦ absurd (ground arith)
  | inr (l, e) ↦ (l, (e, ground arith), ground arith)
]

pub release_escrow-ok :
    (escrow_id seller_id : ℕ) (p b s : Decimal) (owner : ℕ) (asset : Asset) (db : Db)
    → (release_escrow escrow_id seller_id p b s owner asset db).0 ≡ ok tt
    → (l : Lock) × Held escrow_id db l
      × ((release_escrow escrow_id seller_id p b s owner asset db).1
          ≡ after_release escrow_id seller_id p b s owner asset db)
unfolding release_escrow
release_escrow-ok escrow_id seller_id p b s owner asset db h =
    elim (Option-cases (find escrow_id db.escrow_locks)) [
      | inl e ↦ absurd (ground arith)
      | inr (l, e) ↦ (l, (e, ground arith), ground arith)
    ]

-- The balance that a reference has, before its user row is made.
abbrev pub balance_of : ℕ → Asset → Db → Decimal
balance_of user_ref asset db = Ledger.available_balance (resolve_user user_ref db) asset db

pub available_balance_lem :
    (user_ref : ℕ) (asset : Asset) (db : Db)
    → available_balance user_ref asset db
      ≡ (ok (balance_of user_ref asset db), after_ensure user_ref db)
unfolding available_balance Ledger.available_balance
available_balance_lem user_ref asset db = ground (arith, ensure_user_row_lem user_ref db)

-- A reference that is known already changes nothing.
pub ensure_known :
    (user_ref id : ℕ) (db : Db)
    → known_user user_ref db.users ≡ some id
    → ensure_user_row user_ref db ≡ (ok id, db)
unfolding ensure_user_row
ensure_known user_ref id db h = ground arith

pub available_balance_known :
    (user_ref id : ℕ) (asset : Asset) (db : Db)
    → known_user user_ref db.users ≡ some id
    → available_balance user_ref asset db ≡ (ok (Ledger.available_balance id asset db), db)
unfolding available_balance
available_balance_known user_ref id asset db h = ground (arith, ensure_known user_ref id db h)

abbrev pub lock_row : ℕ → Asset → Decimal → Lock
lock_row uid asset amount = record {
  user_id = uid;
  asset = asset;
  amount = amount;
  status = locked;
}

abbrev pub after_lock : ℕ → ℕ → Asset → Decimal → Db → Db
after_lock escrow_id uid asset amount db = record db {
  escrow_locks = (escrow_id, lock_row uid asset amount) ∷ db.escrow_locks;
  ledger_entries =
      entry user (some uid) asset (neg amount) escrow_lock escrow_id ∷ db.ledger_entries;
}

-- Locking for a user that is known, where the escrow has no lock yet: the balance decides.
pub lock_for_escrow_lem :
    (escrow_id user_ref id : ℕ) (asset : Asset) (amount : Decimal) (db : Db)
    → known_user user_ref db.users ≡ some id
    → known_user id db.users ≡ some id
    → find escrow_id db.escrow_locks ≡ none
    → lt (Ledger.available_balance id asset db) amount ≡ false
    → lock_for_escrow escrow_id user_ref asset amount db
      ≡ (ok tt, after_lock escrow_id id asset amount db)
unfolding lock_for_escrow
lock_for_escrow_lem escrow_id user_ref id asset amount db known known' fresh enough =
    ground (arith, ensure_known user_ref id db known, available_balance_known id id asset db known')
