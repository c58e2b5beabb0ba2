-- ===== src/Escrow/Balances.antt =====
-- What the escrow operations do to the balance of each user: the balances as a book.
use escrow_hub.Common.{
  ℕ, ◌≤◌, ◌≡◌, refl, sym, ap, subst, ◌∙◌, List, ◌++◌, ℤ, pos, ◌-ℤ◌, ◌≤ℤ◌, int_laws, some, ==_refl,
  some, ==_refl,
}
use escrow_hub.Text.{Text}
use escrow_hub.Asset.{Asset}
use escrow_hub.Decimal.{Decimal, units}
use escrow_hub.Decimal.Units.{ge→units-le}
use escrow_hub.Settings.{Settings}
use escrow_hub.Fee.{FeeBreakdown}
use escrow_hub.Outcome.{ok}
use escrow_hub.Ledger.{of_user}
use escrow_hub.Ledger
use escrow_hub.Table.{find}
use escrow_hub.Wallet.Locks.Effects.{lock_row}
use escrow_hub.Escrow.Book.{pay, own_pay, create-book_lem, refund-book}
use escrow_hub.Escrow.Returns.{found_same, cancel_returns, buyer-participant}
use escrow_hub.Ledger.Sums.{
  book, total_units, entry_amount, Fine, units-sum_where, places-sum_where,
}
use escrow_hub.Db.{Db, EscrowRow, LedgerEntry}
use escrow_hub.Wallet.Users.Resolve.{resolve_user}
use escrow_hub.Escrow.Create.{create_body}
use escrow_hub.Escrow.Settle.{release_body, cancel_body}
use escrow_hub.Escrow.Linked.{fresh_lock, open-AreLinked}
use escrow_hub.Escrow.Effects.{
  refund, payout, create_body-ok, cancel_body-ok, after_create, new_row,
}
use escrow_hub.Escrow.Payout.{release_body-ok}
use escrow_hub.Escrow.Life.{IsSound}

payout-book :
    (n id seller owner : ℕ) (asset : Asset) (fees : FeeBreakdown) (rows : List LedgerEntry) (u : ℕ)
    (a : Asset)
    → total_units n (of_user u a) entry_amount (payout id seller owner asset fees ++ rows)
      ≡ pay seller asset
          (units n fees.seller_payout)
          (λ v b. total_units n (of_user v b) entry_amount rows)
          u
          a
unfolding total_units
payout-book n id seller owner asset fees rows u a = grind int_laws

-- A creation that returns, with locks in step with the escrows, debits the buyer's user alone,
-- by exactly the amount and in the escrow's asset; counted in units of which every amount is a
-- whole number, that user's balance does not go below zero.
pub create_body-book :
    (n bot_id buyer_id seller_id : ℕ) (asset : Asset) (amount : Decimal) (text : Text) (db : Db)
    {id : ℕ}
    → IsSound db
    → Fine n entry_amount db.ledger_entries
    → amount.places ≤ n
    → (create_body bot_id buyer_id seller_id asset amount text db).0 ≡ ok id
    → let db' = (create_body bot_id buyer_id seller_id asset amount text db).1 in
      ((u : ℕ) (a : Asset)
        → book n db' u a
          ≡ pay (resolve_user buyer_id db) asset (pos 0 -ℤ units n amount) (book n db) u a)
      × (pos 0 ≤ℤ book n db' (resolve_user buyer_id db) asset)
unfolding Ledger.available_balance Ledger.net_user_ledger_balance
create_body-book n bot_id buyer_id seller_id asset amount text db v fine places h =
    let uid : ℕ = resolve_user buyer_id db in
    let db' : Db = (create_body bot_id buyer_id seller_id asset amount text db).1 in
    let (_, enough, after) =
      create_body-ok bot_id buyer_id seller_id asset amount text db (fresh_lock v) h in
    let each : (u : ℕ) (a : Asset)
        → book n db' u a ≡ pay uid asset (pos 0 -ℤ units n amount) (book n db) u a =
      λ u a. rw after (create-book_lem n bot_id buyer_id seller_id asset amount text db u a) in
    let covers : units n amount ≤ℤ book n db uid asset =
      subst (λ (x : ℤ). units n amount ≤ℤ x)
        (units-sum_where n (of_user uid asset) entry_amount db.ledger_entries fine)
        (ge→units-le n (Ledger.available_balance uid asset db) amount
          (places-sum_where n (of_user uid asset) entry_amount db.ledger_entries fine) places
          enough) in
    (
      each,
      subst (λ (x : ℤ). pos 0 ≤ℤ x) (sym (each uid asset ∙ own_pay uid asset _ (book n db)))
          (omega (int_laws, covers)),
    )

-- A release that returns credits the seller alone, by exactly the payout of its fee breakdown
-- and in the escrow's asset: no other balance of any user changes.
pub release_body-book :
    (n : ℕ) (settings : Settings) (escrow_id actor : ℕ) (db : Db) {row : EscrowRow}
    {fees : FeeBreakdown}
    → (release_body settings escrow_id actor db).0 ≡ ok (row, fees)
    → (u : ℕ) (a : Asset)
    → book n (release_body settings escrow_id actor db).1 u a
      ≡ pay row.seller_id row.asset (units n fees.seller_payout) (book n db) u a
release_body-book n settings escrow_id actor db {row} {fees} h u a =
    let (l, tenant, _, d, _, _) = release_body-ok settings escrow_id actor db h in
    ap (total_units n (of_user u a) entry_amount) d.ledger
    ∙ payout-book n escrow_id row.seller_id tenant.owner_user_id row.asset fees db.ledger_entries u
        a

paid_back :
    (n bot_id buyer_id seller_id : ℕ) (asset : Asset) (amount : Decimal) (text : Text) (db : Db)
    (u : ℕ) (a : Asset)
    → pay
        (resolve_user buyer_id db)
        asset
        (units n amount)
        (book n (after_create bot_id buyer_id seller_id asset amount text db))
        u
        a
      ≡ book n db u a
paid_back n bot_id buyer_id seller_id asset amount text db u a =
    let debited = create-book_lem n bot_id buyer_id seller_id asset amount text db u a in
    grind int_laws

cancelled_book :
    (n bot_id buyer_id seller_id : ℕ) (asset : Asset) (amount : Decimal) (text : Text) (db : Db)
    → IsSound db
    → let after = after_create bot_id buyer_id seller_id asset amount text db in
      ((cancel_body db.next_escrow buyer_id after).0 ≡ ok tt)
      × ((u : ℕ) (a : Asset)
          → book n (cancel_body db.next_escrow buyer_id after).1 u a ≡ book n db u a)
unfolding find
cancelled_book n bot_id buyer_id seller_id asset amount text db v =
    let after = after_create bot_id buyer_id seller_id asset amount text db in
    let row = new_row bot_id buyer_id seller_id asset amount text in
    let found : find db.next_escrow after.escrows ≡ some row = rw (==_refl db.next_escrow) refl in
    let locked_as : find db.next_escrow after.escrow_locks
        ≡ some (lock_row (resolve_user buyer_id db) asset amount) =
      rw (==_refl db.next_escrow) refl in
    let done =
      cancel_returns db.next_escrow after found buyer_id (open-AreLinked v _ _ refl refl refl) refl
        (buyer-participant row) in
    let (_, l, d, _, _) = cancel_body-ok db.next_escrow buyer_id after done in
    let same : l ≡ lock_row (resolve_user buyer_id db) asset amount =
      found_same d.lock_found locked_as in
    (
      done,
      λ u a.
          ap (total_units n (of_user u a) entry_amount) d.ledger
          ∙ ap
              (λ k.
                total_units n (of_user u a) entry_amount
                  (refund db.next_escrow k ++ after.ledger_entries))
              same
          ∙ refund-book n db.next_escrow (lock_row (resolve_user buyer_id db) asset amount)
              after.ledger_entries u a
          ∙ paid_back n bot_id buyer_id seller_id asset amount text db u a,
    )

-- With locks in step with the escrows, an escrow that has just been created can be cancelled
-- by its buyer, and every balance of every user is then what it was before.
pub cancel_body-create_body :
    (n bot_id buyer_id seller_id : ℕ) (asset : Asset) (amount : Decimal) (text : Text) (db : Db)
    {id : ℕ}
    → IsSound db
    → (create_body bot_id buyer_id seller_id asset amount text db).0 ≡ ok id
    → let db' = (create_body bot_id buyer_id seller_id asset amount text db).1 in
      ((cancel_body id buyer_id db').0 ≡ ok tt)
      × ((u : ℕ) (a : Asset) → book n (cancel_body id buyer_id db').1 u a ≡ book n db u a)
cancel_body-create_body n bot_id buyer_id seller_id asset amount text db v h =
    let (named, _, after) =
      create_body-ok bot_id buyer_id seller_id asset amount text db (fresh_lock v) h in
    rw (named, after) (cancelled_book n bot_id buyer_id seller_id asset amount text db v)
