-- ===== src/Wallet/Locks.antt =====
-- wallet_service.py: the buyer's funds that an open escrow holds.
pub mod Effects
use escrow_hub.Common.{ℕ, ◌≡◌, Bool, true, false, not, Option, none, some, ◌∷◌, if◌then◌else◌, ◌||◌}
use escrow_hub.Decimal.{Decimal, neg, lt}
use escrow_hub.Asset.{Asset}
use escrow_hub.Outcome.{insufficient_balance, escrow_lock_missing, integrity_error}
use escrow_hub.Table.{find, update}
use escrow_hub.Tenant.{is_some}
use escrow_hub.Ledger.{add_entry, is_locked}
use escrow_hub.Wallet.Users.{ensure_user_row, available_balance}
use escrow_hub.Db.{
  Db, Action, pure, raise, gets, raise_if, modify, ◌>>=◌, ◌>>◌, Lock, LockStatus, locked, released,
  user, platform_revenue, bot_owner_revenue, escrow_lock, escrow_unlock, escrow_release,
  platform_fee, bot_fee, escrow_ref,
}

-- INSERT INTO escrow_locks: the escrow's id is the primary key.
unfoldable pub insert_lock : ℕ → Lock → Action (Unit {0})
insert_lock escrow_id lock = do
  raise_if (is_some (← gets (λ db. find escrow_id db.escrow_locks))) integrity_error
  modify (λ db. record db { escrow_locks = (escrow_id, lock) ∷ db.escrow_locks })

-- UPDATE escrow_locks SET status='released' WHERE escrow_id=?
abbrev pub set_released : Lock → Lock
set_released l = record l { status = released }

unfoldable pub mark_released : ℕ → Action (Unit {0})
mark_released escrow_id =
    modify λ db. record db { escrow_locks = update escrow_id set_released db.escrow_locks }

-- The lock of an escrow, if its funds are still locked.
abbrev pub held_lock : Option Lock → Action Lock
held_lock none db = raise escrow_lock_missing db
held_lock (some l) db = if is_locked l.status then pure l db else raise escrow_lock_missing db

unfoldable pub lock_for_escrow : ℕ → ℕ → Asset → Decimal → Action (Unit {0})
unfolding insert_lock add_entry
lock_for_escrow escrow_id user_id asset amount = do
  resolved_user_id ← ensure_user_row user_id
  available ← available_balance resolved_user_id asset
  raise_if (lt available amount) insufficient_balance
  insert_lock escrow_id
      (record { user_id = resolved_user_id; asset = asset; amount = amount; status = locked })
  add_entry user (some resolved_user_id) (some resolved_user_id) asset (neg amount) escrow_lock
      escrow_ref escrow_id

unfoldable pub release_escrow : ℕ → ℕ → Decimal → Decimal → Decimal → ℕ → Asset → Action (Unit {0})
unfolding mark_released add_entry
release_escrow escrow_id seller_id platform_amount bot_amount seller_payout bot_owner_id asset = do
  _ ← held_lock (← gets (λ db. find escrow_id db.escrow_locks))
  mark_released escrow_id
  add_entry user (some seller_id) (some seller_id) asset seller_payout escrow_release escrow_ref
      escrow_id
  add_entry platform_revenue none none asset platform_amount platform_fee escrow_ref escrow_id
  add_entry bot_owner_revenue (some bot_owner_id) (some bot_owner_id) asset bot_amount bot_fee
      escrow_ref escrow_id

unfoldable pub cancel_escrow_lock : ℕ → Action (Unit {0})
unfolding mark_released add_entry
cancel_escrow_lock escrow_id = do
  l ← held_lock (← gets (λ db. find escrow_id db.escrow_locks))
  mark_released escrow_id
  add_entry user (some l.user_id) (some l.user_id) l.asset l.amount escrow_unlock escrow_ref
      escrow_id
