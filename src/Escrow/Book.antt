-- ===== src/Escrow/Book.antt =====
-- The balances of the users as a book, and what a creation and a refund do to it.
use escrow_hub.Common.{
  ℕ, ◌≡◌, refl, ap, ◌∙◌, ◌&&◌, ◌==◌, if◌then◌else◌, List, ◌++◌, ℤ, pos, ◌+ℤ◌, ◌-ℤ◌, int_laws,
  ==_refl,
}
use escrow_hub.Text.{Text}
use escrow_hub.Asset.{Asset, asset_eq, asset_eq_refl}
use escrow_hub.Decimal.{Decimal, units}
use escrow_hub.Decimal.Units.{units-neg}
use escrow_hub.Ledger.{of_user}
use escrow_hub.Ledger.Sums.{Book, book, total_units, entry_amount}
use escrow_hub.Db.{Db, Lock, LedgerEntry, EscrowRow, EscrowStatus}
use escrow_hub.Wallet.Users.Resolve.{resolve_user}
use escrow_hub.Escrow.Effects.{Settles, refund, after_create}

-- A payment to one user in one asset; a negative one is a debit.
abbrev pub pay : ℕ → Asset → ℤ → Book → Book
pay to asset amount b user_id a =
    if to == user_id && asset_eq asset a then b user_id a +ℤ amount else b user_id a

pub own_pay :
    (to : ℕ) (asset : Asset) (amount : ℤ) (b : Book)
    → pay to asset amount b to asset ≡ b to asset +ℤ amount
own_pay to asset amount b = rw (==_refl to, asset_eq_refl asset) refl

pub create-book_lem :
    (n bot_id buyer_id seller_id : ℕ) (asset : Asset) (amount : Decimal) (text : Text) (db : Db)
    (u : ℕ) (a : Asset)
    → book n (after_create bot_id buyer_id seller_id asset amount text db) u a
      ≡ pay (resolve_user buyer_id db) asset (pos 0 -ℤ units n amount) (book n db) u a
unfolding total_units
create-book_lem n bot_id buyer_id seller_id asset amount text db u a =
    grind (int_laws, units-neg n amount)

pub refund-book :
    (n id : ℕ) (l : Lock) (rows : List LedgerEntry) (u : ℕ) (a : Asset)
    → total_units n (of_user u a) entry_amount (refund id l ++ rows)
      ≡ pay l.user_id l.asset
          (units n l.amount)
          (λ v b. total_units n (of_user v b) entry_amount rows)
          u
          a
unfolding total_units
refund-book n id l rows u a = grind int_laws

-- The end of an escrow whose lock is refunded: the lock's user gets back what was locked.
pub refunded-book :
    (n : ℕ) {id : ℕ} {row : EscrowRow} {l : Lock} {s : EscrowStatus} {db db' : Db} (u : ℕ)
    (a : Asset)
    → Settles id row l s (refund id l) db db'
    → book n db' u a ≡ pay l.user_id l.asset (units n l.amount) (book n db) u a
refunded-book n {id} {l = l} {db = db} u a d =
    ap (total_units n (of_user u a) entry_amount) d.ledger
    ∙ refund-book n id l db.ledger_entries u a
