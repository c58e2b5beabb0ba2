-- ===== src/Db/Transaction.antt =====
-- A sqlite3 connection, and the block that every service method runs its statements in:
-- BEGIN IMMEDIATE … COMMIT or ROLLBACK where no transaction is open, SAVEPOINT … RELEASE or
-- ROLLBACK TO inside one.
use escrow_hub.Common.{◌≡◌, refl, sym, Bool, true, false, not, arith, if◌then◌else◌}
use escrow_hub.Outcome.{Error, Result, ok, err}
use escrow_hub.Db.{Db, Action}

-- `working` is what this connection reads; `committed` is what is durable.
pub record Connection : Type 0 where
  pub committed : Db
  pub working : Db
  pub in_transaction : Bool

abbrev pub Call {ℓ} : Type ℓ → Type ℓ
Call A = Connection → Result A × Connection

abbrev pub commit : Connection → Connection
commit c = record { committed = c.working; working = c.working; in_transaction = false }

abbrev pub rollback : Connection → Connection
rollback c = record { committed = c.committed; working = c.committed; in_transaction = false }

-- How the block ends: `managed_tx` chooses between the transaction and the savepoint.
abbrev finish {ℓ} : {A : Type ℓ} → Bool → Connection → Result A × Db → Result A × Connection
finish true c (ok a, db) = (ok a, commit (record c { working = db }))
finish true c (err e, db) = (err e, rollback (record c { working = db }))
finish false c (ok a, db) = (ok a, record c { working = db })
finish false c (err e, db) = (err e, c)

unfoldable pub transaction {ℓ} : {A : Type ℓ} → Action A → Call A
transaction body c = let managed_tx = not c.in_transaction in finish managed_tx c (body c.working)

-- Statements outside such a block: the first that writes opens a transaction that stays open.
unfoldable pub statement {ℓ} : {A : Type ℓ} → Bool → Action A → Call A
statement writes body c =
    let (r, db) = body c.working in
    (r, record c { working = db; in_transaction = if writes then true else c.in_transaction })

abbrev pub pure {ℓ} : {A : Type ℓ} → A → Call A
pure a c = (ok a, c)

abbrev pub lift {ℓ} : {A : Type ℓ} → Result A → Call A
lift r c = (r, c)

-- What a statement that only reads gives.
abbrev pub reads {ℓ} : {A : Type ℓ} → (Db → Result A) → Call A
reads f c = (f c.working, c)

infixl 5 ◌>>=◌ ◌>>◌
abbrev pub ◌>>=◌ {ℓ κ} : {A : Type ℓ} {B : Type κ} → Call A → (A → Call B) → Call B
◌>>=◌ m f c = let (r, c') = m c in elim r [ ok a ↦ f a c' | err e ↦ (err e, c') ]

abbrev pub ◌>>◌ {ℓ} : {B : Type ℓ} → Call (Unit {0}) → Call B → Call B
m >> k = m >>= λ _. k

-- Outside a transaction nothing is pending.
pub record IsSettled (c : Connection) : Type 0 where
  pub settled : c.in_transaction ≡ false → c.working ≡ c.committed

not-eq-true : (b : Bool) → not b ≡ true → b ≡ false
not-eq-true b h = ground arith

not-eq-false : (b : Bool) → not b ≡ false → b ≡ true
not-eq-false b h = ground arith

module _ {ℓ} {A : Type ℓ} where
  finish_err :
      (managed : Bool) (c : Connection) (r : Result A × Db) {e : Error}
      → IsSettled c
      → not c.in_transaction ≡ managed
      → (finish managed c r).0 ≡ err e
      → ((finish managed c r).1.working ≡ c.working)
        × ((finish managed c r).1.committed ≡ c.committed)
        × ((finish managed c r).1.in_transaction ≡ c.in_transaction)
  finish_err true c (ok a, db) s m h = absurd (cc)
  finish_err true c (err e, db) s m h =
      let closed = not-eq-true c.in_transaction m in (sym (s.settled closed), refl, sym closed)
  finish_err false c (ok a, db) s m h = absurd (cc)
  finish_err false c (err e, db) s m h = (refl, refl, refl)

  finish_ok :
      (managed : Bool) (c : Connection) (r : Result A × Db) {a : A}
      → not c.in_transaction ≡ managed
      → (finish managed c r).0 ≡ ok a
      → (r.0 ≡ ok a)
        × ((finish managed c r).1.working ≡ r.1)
        × ((finish managed c r).1.committed ≡ (if c.in_transaction then c.committed else r.1))
        × ((finish managed c r).1.in_transaction ≡ c.in_transaction)
  finish_ok true c (ok a, db) m h =
      let closed = not-eq-true c.in_transaction m in (h, refl, rw closed, sym closed)
  finish_ok true c (err e, db) m h = absurd (cc)
  finish_ok false c (ok a, db) m h = (h, refl, rw (not-eq-false c.in_transaction m), refl)
  finish_ok false c (err e, db) m h = absurd (cc)

  finish-IsSettled :
      (managed : Bool) (c : Connection) (r : Result A × Db)
      → IsSettled c
      → not c.in_transaction ≡ managed
      → IsSettled (finish managed c r).1
  finish-IsSettled true c (ok a, db) s m = record { settled = λ _. refl }
  finish-IsSettled true c (err e, db) s m = record { settled = λ _. refl }
  finish-IsSettled false c (ok a, db) s m = record { settled = λ h. absurd (ground (arith, m, h)) }
  finish-IsSettled false c (err e, db) s m = s

  finish-returns :
      (managed : Bool) (c : Connection) (r : Result A × Db) {a : A}
      → r.0 ≡ ok a
      → (finish managed c r).1.working ≡ r.1
  finish-returns true c (ok a, db) h = refl
  finish-returns true c (err e, db) h = absurd (cc)
  finish-returns false c (ok a, db) h = refl
  finish-returns false c (err e, db) h = absurd (cc)

  finish-result :
      (managed : Bool) (c : Connection) (r : Result A × Db) → (finish managed c r).0 ≡ r.0
  finish-result true c (ok a, db) = refl
  finish-result true c (err e, db) = refl
  finish-result false c (ok a, db) = refl
  finish-result false c (err e, db) = refl

  pub transaction-result :
      (body : Action A) (c : Connection) → (transaction body c).0 ≡ (body c.working).0
  unfolding transaction
  transaction-result body c = finish-result (not c.in_transaction) c (body c.working)

  -- What a block whose statements all return leaves to be read.
  pub transaction-returns :
      (body : Action A) (c : Connection) {a : A}
      → (body c.working).0 ≡ ok a
      → (transaction body c).1.working ≡ (body c.working).1
  unfolding transaction
  transaction-returns body c h = finish-returns (not c.in_transaction) c (body c.working) h

  -- A block that raises on a settled connection leaves it as it was found: in no transaction
  -- the rollback returns to what is committed, inside one the savepoint returns to what was
  -- there.
  pub transaction_err :
      (body : Action A) (c : Connection) {e : Error}
      → IsSettled c
      → (transaction body c).0 ≡ err e
      → ((transaction body c).1.working ≡ c.working)
        × ((transaction body c).1.committed ≡ c.committed)
        × ((transaction body c).1.in_transaction ≡ c.in_transaction)
  unfolding transaction
  transaction_err body c s h = finish_err (not c.in_transaction) c (body c.working) s refl h

  -- A block that returns keeps what its statements wrote, and makes it durable exactly where it
  -- opened the transaction itself.
  pub transaction_ok :
      (body : Action A) (c : Connection) {a : A}
      → (transaction body c).0 ≡ ok a
      → ((body c.working).0 ≡ ok a)
        × ((transaction body c).1.working ≡ (body c.working).1)
        × ((transaction body c).1.committed
            ≡ (if c.in_transaction then c.committed else (body c.working).1))
        × ((transaction body c).1.in_transaction ≡ c.in_transaction)
  unfolding transaction
  transaction_ok body c h = finish_ok (not c.in_transaction) c (body c.working) refl h

  pub transaction-IsSettled :
      (body : Action A) (c : Connection) → IsSettled c → IsSettled (transaction body c).1
  unfolding transaction
  transaction-IsSettled body c s = finish-IsSettled (not c.in_transaction) c (body c.working) s refl
