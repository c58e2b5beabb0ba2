-- ===== src/Db.antt =====
-- The database that the services share (infra/db/schema.sql), and what runs on it.
mod Rows
pub mod Transaction
pub use Rows.*
use escrow_hub.Common.{ℕ, Bool, true, false, Option, none, some, List, [], ◌∷◌, if◌then◌else◌}
use escrow_hub.Table.{Table}
use escrow_hub.Outcome.{Error, Result, ok, err}

-- `next_…` is what AUTOINCREMENT gives to the next row.
pub record Db : Type 0 where
  pub users : Table User
  pub next_user : ℕ
  pub bots : Table Bot
  pub escrows : Table EscrowRow
  pub next_escrow : ℕ
  pub escrow_locks : Table Lock
  pub active_cancel_requests : Table CancelRequest
  pub disputes : Table Dispute
  pub escrow_events : List (ℕ × Event)
  pub admin_actions : List AdminAction
  pub ledger_entries : List LedgerEntry
  pub deposits : Table Deposit
  pub next_deposit : ℕ
  pub withdrawals : Table Withdrawal
  pub next_withdrawal : ℕ
  pub wallet_addresses : Table WalletAddress
  pub next_wallet_address : ℕ

-- Statements run in order; what was written before an exception stays in the open transaction.
abbrev pub Action {ℓ} : Type ℓ → Type ℓ
Action A = Db → Result A × Db

module _ {ℓ} {A : Type ℓ} where
  abbrev pub pure : A → Action A
  pure a db = (ok a, db)

  abbrev pub raise : Error → Action A
  raise e db = (err e, db)

  abbrev pub gets : (Db → A) → Action A
  gets f db = (ok (f db), db)

  abbrev pub or_raise : Option A → Error → Action A
  or_raise none e = raise e
  or_raise (some a) e = pure a

  abbrev pub lift : Result A → Action A
  lift r db = (r, db)

infixl 5 ◌>>=◌ ◌>>◌
abbrev pub ◌>>=◌ {ℓ κ} : {A : Type ℓ} {B : Type κ} → Action A → (A → Action B) → Action B
◌>>=◌ m f db = let (r, db') = m db in elim r [ ok a ↦ f a db' | err e ↦ (err e, db') ]

abbrev pub ◌>>◌ {ℓ} : {B : Type ℓ} → Action (Unit {0}) → Action B → Action B
m >> k = m >>= λ _. k

abbrev pub raise_if : Bool → Error → Action (Unit {0})
raise_if c e db = (if c then err e else ok tt, db)

abbrev pub modify : (Db → Db) → Action (Unit {0})
modify f db = (ok tt, f db)

-- `if test: m`
abbrev pub run_if : Bool → Action (Unit {0}) → Action (Unit {0})
run_if c m db = if c then m db else (ok tt, db)
