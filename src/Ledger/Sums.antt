-- ===== src/Ledger/Sums.antt =====
-- Sums over the ledger and over the locks, in units of 10 ^ -n.
use escrow_hub.Common.{
  ℕ, ◌≤◌, ◌≡◌, ap, ◌∙◌, Bool-cases, inl, inr, Bool, ◌&&◌, some, List, [], ◌∷◌, ◌++◌, ℤ, pos, ◌+ℤ◌,
  arith, int_laws, if◌then◌else◌,
}
use escrow_hub.Decimal.{Decimal, units}
use escrow_hub.Decimal.Units.{units-+ᵈ, units-of_ℕ, places-+ᵈ}
use escrow_hub.Asset.{Asset, asset_eq}
use escrow_hub.Table.{Table, find, update}
use escrow_hub.Wallet.Locks.{set_released}
use escrow_hub.Db.{Db, LedgerEntry, Lock, locked}
use escrow_hub.Ledger.{sum_where, is_locked, of_user}

-- Every amount is a whole number of units.
abbrev pub Fine {ℓ} : {A : Type ℓ} → ℕ → (A → Decimal) → List A → Type 0
Fine n amount [] = Unit {0}
Fine n amount (x ∷ xs) = ((amount x).places ≤ n) × Fine n amount xs

abbrev pub entry_amount : LedgerEntry → Decimal
entry_amount e = e.amount

abbrev pub lock_amount : ℕ × Lock → Decimal
lock_amount row = row.1.amount

abbrev pub IsFine : ℕ → Db → Type 0
IsFine n db = Fine n entry_amount db.ledger_entries × Fine n lock_amount db.escrow_locks

module _ {ℓ} {A : Type ℓ} (n : ℕ) (p : A → Bool) (amount : A → Decimal) where
  pub places-sum_where : (xs : List A) → Fine n amount xs → (sum_where p amount xs).places ≤ n
  unfolding sum_where
  places-sum_where [] h = omega arith
  places-sum_where (x ∷ xs) h =
      ground (arith, places-sum_where xs h.1, places-+ᵈ n (sum_where p amount xs) (amount x))

  -- The sum in units.
  unfoldable pub total_units : List A → ℤ
  total_units [] = pos 0
  total_units (x ∷ xs) = if p x then total_units xs +ℤ units n (amount x) else total_units xs

  pub units-sum_where :
      (xs : List A) → Fine n amount xs → units n (sum_where p amount xs) ≡ total_units xs
  unfolding sum_where total_units
  units-sum_where [] h = units-of_ℕ 0 n ∙ omega int_laws
  units-sum_where (x ∷ xs) h = elim (Bool-cases (p x)) [
    | inl e ↦ rw e (
        units-+ᵈ n (sum_where p amount xs) (amount x) (places-sum_where xs h.1) h.0
        ∙ ap (λ t. t +ℤ units n (amount x)) (units-sum_where xs h.1))
    | inr e ↦ rw e (units-sum_where xs h.1)
  ]

  pub total_units-append :
      (xs ys : List A) → total_units (xs ++ ys) ≡ total_units xs +ℤ total_units ys
  unfolding total_units
  total_units-append [] ys = omega int_laws
  total_units-append (x ∷ xs) ys = grind (int_laws, total_units-append xs ys)

abbrev pub of_asset : Asset → LedgerEntry → Bool
of_asset asset e = asset_eq e.asset asset

abbrev pub held_of_asset : Asset → ℕ × Lock → Bool
held_of_asset asset (_, l) = asset_eq l.asset asset && is_locked l.status

-- All accounts of an asset together, with what its escrows hold.
unfoldable pub holdings : ℕ → Asset → Db → ℤ
holdings n asset db =
    total_units n (of_asset asset) entry_amount db.ledger_entries
    +ℤ total_units n (held_of_asset asset) lock_amount db.escrow_locks

-- An amount in units, if it is in the asset that is counted.
abbrev pub counted : ℕ → Asset → Asset → Decimal → ℤ
counted n asset a d = if asset_eq a asset then units n d else pos 0

-- A released lock counts no more.
pub total-released :
    (n k : ℕ) (asset : Asset) (l : Lock) (t : Table Lock)
    → find k t ≡ some l
    → l.status ≡ locked
    → total_units n (held_of_asset asset) lock_amount (update k set_released t)
        +ℤ counted n asset l.asset l.amount
      ≡ total_units n (held_of_asset asset) lock_amount t
unfolding total_units find update
total-released n k asset l [] h held = absurd (cc)
total-released n k asset l ((j, m) ∷ t) h held = grind (int_laws, total-released n k asset l t)

-- Releasing a lock and making entries.
pub Fine-append {ℓ} :
    {A : Type ℓ} (n : ℕ) (amount : A → Decimal) (xs ys : List A)
    → Fine n amount xs
    → Fine n amount ys
    → Fine n amount (xs ++ ys)
Fine-append n amount [] ys h k = k
Fine-append n amount (x ∷ xs) ys h k = (h.0, Fine-append n amount xs ys h.1 k)

-- The available balance of a user in an asset, in units of 10 ^ -n.
abbrev pub Book : Type 0
Book = ℕ → Asset → ℤ

abbrev pub book : ℕ → Db → Book
book n db user_id asset = total_units n (of_user user_id asset) entry_amount db.ledger_entries
