-- ===== src/Escrow/Conservation.antt =====
-- What the escrow operations do to the sum of all accounts and locks.
use escrow_hub.Common.{
  pos, ◌-ℤ◌, ==_refl, some, ℕ, ◌≤◌, ◌≡◌, refl, sym, ap, ap₂, subst, ◌∙◌, List, arith, ℤ, ◌+ℤ◌,
  int_laws,
}
use escrow_hub.Text.{Text}
use escrow_hub.Asset.{Asset}
use escrow_hub.Decimal.{Decimal, units, ◌+ᵈ◌}
use escrow_hub.Decimal.Units.{units-neg, units-+ᵈ, places-+ᵈ}
use escrow_hub.Settings.{Settings}
use escrow_hub.Fee.{FeeBreakdown, money}
use escrow_hub.Fee.Bounds.{IsPercent, IsNonneg, Shares, calculate_total_fees-Shares}
use escrow_hub.Outcome.{ok}
use escrow_hub.Table.{find}
use escrow_hub.Wallet.Locks.Effects.{lock_row}
use escrow_hub.Wallet.Users.Resolve.{resolve_user}
use escrow_hub.Escrow.Book.{pay, create-book_lem, refunded-book}
use escrow_hub.Ledger.Sums.{
  book, total_units, total_units-append, holdings, counted, of_asset, entry_amount, total-released,
}
use escrow_hub.Db.{Db, Lock, EscrowRow, EscrowStatus, LedgerEntry, locked}
use escrow_hub.Escrow.Create.{create_body}
use escrow_hub.Escrow.Settle.{release_body, cancel_body, cancel_mutual_body}
use escrow_hub.Escrow.Linked.{fresh_lock, its_own}
use escrow_hub.Escrow.Effects.{
  Settles, refund, payout, create_body-ok, cancel_body-ok, cancel_mutual_body-ok, after_create,
}
use escrow_hub.Escrow.Payout.{release_body-ok}
use escrow_hub.Escrow.Life.{IsSound}

-- The bookings of an end, against the lock that it lets go.
Settles-holdings :
    (n : ℕ) (asset : Asset) {id : ℕ} {row : EscrowRow} {l : Lock} {s : EscrowStatus}
    {paid : List LedgerEntry} {db db' : Db}
    → Settles id row l s paid db db'
    → holdings n asset db' +ℤ counted n asset l.asset l.amount
      ≡ holdings n asset db +ℤ total_units n (of_asset asset) entry_amount paid
unfolding holdings
Settles-holdings n asset {id} {row} {l} {s} {paid} {db} {db'} d =
    rw
      (d.locks, d.ledger, total_units-append n (of_asset asset) entry_amount paid db.ledger_entries)
      (grind (int_laws, total-released n id asset l db.escrow_locks d.lock_found d.held))

+ℤ_cancel : (x y c d : ℤ) → x +ℤ c ≡ y +ℤ d → c ≡ d → x ≡ y
+ℤ_cancel x y c d e f = grind int_laws

total-refund :
    (n id : ℕ) (asset : Asset) (l : Lock)
    → counted n asset l.asset l.amount ≡ total_units n (of_asset asset) entry_amount (refund id l)
unfolding total_units
total-refund n id asset l = grind int_laws

opened-holdings :
    (n bot_id buyer_id seller_id : ℕ) (asset : Asset) (amount : Decimal) (text : Text) (db : Db)
    (counting : Asset)
    → holdings n counting (after_create bot_id buyer_id seller_id asset amount text db)
      ≡ holdings n counting db
unfolding holdings total_units
opened-holdings n bot_id buyer_id seller_id asset amount text db counting =
    grind (int_laws, units-neg n amount)

new_lock :
    (bot_id buyer_id seller_id : ℕ) (asset : Asset) (amount : Decimal) (text : Text) (db : Db)
    → find db.next_escrow (after_create bot_id buyer_id seller_id asset amount text db).escrow_locks
      ≡ some (lock_row (resolve_user buyer_id db) asset amount)
unfolding find
new_lock bot_id buyer_id seller_id asset amount text db = rw (==_refl db.next_escrow) refl

-- A creation that returns, with locks in step with the escrows, moves the amount from the buyer's
-- account into the escrow: the escrow has a lock that holds the amount in its asset for the
-- buyer's user, that user's balance falls by the amount and no other balance of any user changes,
-- and the holdings of every asset stay what they were.
pub create_body-holdings :
    (n bot_id buyer_id seller_id : ℕ) (asset : Asset) (amount : Decimal) (text : Text) (db : Db)
    {id : ℕ} (counting : Asset)
    → IsSound db
    → (create_body bot_id buyer_id seller_id asset amount text db).0 ≡ ok id
    → let db' = (create_body bot_id buyer_id seller_id asset amount text db).1 in
      (find id db'.escrow_locks ≡ some (lock_row (resolve_user buyer_id db) asset amount))
      × ((u : ℕ)
          → book n db' u counting
            ≡ pay (resolve_user buyer_id db) asset (pos 0 -ℤ units n amount) (book n db) u counting)
      × (holdings n counting db' ≡ holdings n counting db)
create_body-holdings n bot_id buyer_id seller_id asset amount text db counting v h =
    let (named, _, after) =
      create_body-ok bot_id buyer_id seller_id asset amount text db (fresh_lock v) h in
    rw (named, after)
      (
        new_lock bot_id buyer_id seller_id asset amount text db,
        λ u. create-book_lem n bot_id buyer_id seller_id asset amount text db u counting,
        opened-holdings n bot_id buyer_id seller_id asset amount text db counting,
      )

-- What an end that refunds has done: the lock was held, its user has the locked amount back, no
-- other balance of any user has changed, and the holdings stay.
pub record Refunds (n escrow_id : ℕ) (counting : Asset) (db db' : Db) : Type 0 where
  pub lock : Lock
  pub lock_found : find escrow_id db.escrow_locks ≡ some lock
  pub held : lock.status ≡ locked
  pub balances :
      (u : ℕ)
      → book n db' u counting
        ≡ pay lock.user_id lock.asset (units n lock.amount) (book n db) u counting
  pub kept : holdings n counting db' ≡ holdings n counting db

Settles-Refunds :
    (n : ℕ) (counting : Asset) {id : ℕ} {row : EscrowRow} {l : Lock} {s : EscrowStatus}
    {db db' : Db}
    → Settles id row l s (refund id l) db db'
    → Refunds n id counting db db'
Settles-Refunds n counting {id} {l = l} d = record {
  lock = l;
  lock_found = d.lock_found;
  held = d.held;
  balances = λ u. refunded-book n u counting d;
  kept = +ℤ_cancel _ _ _ _ (Settles-holdings n counting d) (total-refund n id counting l);
}

-- A cancellation that returns has found the escrow's lock held and pays it back: the user that it
-- was locked for gets the locked amount in its asset, no other balance of any user changes, and
-- the holdings of every asset stay what they were.
pub cancel_body-holdings :
    (n escrow_id actor : ℕ) (db : Db) (counting : Asset)
    → (cancel_body escrow_id actor db).0 ≡ ok tt
    → Refunds n escrow_id counting db (cancel_body escrow_id actor db).1
cancel_body-holdings n escrow_id actor db counting h =
    let (row, l, d, _, _) = cancel_body-ok escrow_id actor db h in Settles-Refunds n counting d

-- A cancellation by consent that returns has found the escrow's lock held and pays it back: the
-- user that it was locked for gets the locked amount in its asset, no other balance of any user
-- changes, and the holdings of every asset stay what they were.
pub cancel_mutual_body-holdings :
    (n escrow_id requester responder : ℕ) (db : Db) (counting : Asset)
    → (cancel_mutual_body escrow_id requester responder db).0 ≡ ok tt
    → Refunds n escrow_id counting db (cancel_mutual_body escrow_id requester responder db).1
cancel_mutual_body-holdings n escrow_id requester responder db counting h =
    let (row, l, d, _) = cancel_mutual_body-ok escrow_id requester responder db h in
    Settles-Refunds n counting d

-- A breakdown in units: its parts add up to the rounded amount.
Shares-units :
    (n : ℕ) (amount : Decimal) (fees : FeeBreakdown)
    → 2 ≤ n
    → Shares amount fees
    → units n fees.platform_fee +ℤ units n fees.bot_fee +ℤ units n fees.seller_payout
      ≡ units n (money amount)
Shares-units n amount fees fine v =
    let p : fees.platform_fee.places ≤ n = omega (arith, v.platform_places) in
    let b : fees.bot_fee.places ≤ n = omega (arith, v.bot_places) in
    let s : fees.seller_payout.places ≤ n = omega (arith, v.payout_places) in
    ap₂ ◌+ℤ◌ (sym (units-+ᵈ n fees.platform_fee fees.bot_fee p b)) refl
    ∙ sym (
        units-+ᵈ n (fees.platform_fee +ᵈ fees.bot_fee) fees.seller_payout
          (places-+ᵈ n fees.platform_fee fees.bot_fee p b) s)
    ∙ ap (units n) (subst (λ t. t +ᵈ fees.seller_payout ≡ money amount) v.total v.whole)

total-payout :
    (n id seller owner : ℕ) (asset counting : Asset) (fees : FeeBreakdown) (amount : Decimal)
    → units n fees.platform_fee +ℤ units n fees.bot_fee +ℤ units n fees.seller_payout
      ≡ units n amount
    → total_units n (of_asset counting) entry_amount (payout id seller owner asset fees)
      ≡ counted n counting asset amount
unfolding total_units
total-payout n id seller owner asset counting fees amount h = grind int_laws

-- A release that returns, with a platform fee from 0 to 3 percent, an amount that is not
-- negative and locks in step with the escrows, pays out the locked amount rounded to
-- hundredths: counted in units of two places or more, the holdings of the asset lose the
-- amount and gain the rounded amount, and every other asset's stay.
pub release_body-holdings :
    (n : ℕ) (settings : Settings) (escrow_id actor : ℕ) (db : Db) (counting : Asset)
    {row : EscrowRow} {fees : FeeBreakdown}
    → 2 ≤ n
    → IsPercent 3 settings.escrow_platform_fee_percent
    → IsSound db
    → IsNonneg row.amount
    → (release_body settings escrow_id actor db).0 ≡ ok (row, fees)
    → holdings n counting (release_body settings escrow_id actor db).1
        +ℤ counted n counting row.asset row.amount
      ≡ holdings n counting db +ℤ counted n counting row.asset (money row.amount)
release_body-holdings n settings escrow_id actor db counting {row} {fees} fine percent v nonneg h =
    let (l, tenant, p, d, _, _) = release_body-ok settings escrow_id actor db h in
    let shares = calculate_total_fees-Shares _ _ _ percent nonneg p.priced in
    let (amount, asset, _) = its_own v escrow_id d.found d.lock_found in
    ap₂
      (λ a b.
        holdings n counting (release_body settings escrow_id actor db).1 +ℤ counted n counting a b)
      (sym asset) (sym amount)
    ∙ Settles-holdings n counting d
    ∙ ap (λ t. holdings n counting db +ℤ t)
        (total-payout n escrow_id row.seller_id tenant.owner_user_id row.asset counting fees
          (money row.amount) (Shares-units n row.amount fees fine shares))
