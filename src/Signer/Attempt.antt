-- ===== src/Signer/Attempt.antt =====
-- signer_service.py: a body with a handler for what it raises.
use escrow_hub.Common.{ℕ, ◌≡◌, refl, true, arith}
use escrow_hub.Outcome.{Error, Result, ok, err}
use escrow_hub.Db.{Db, Action, pure, ◌>>◌}
use escrow_hub.Signer.{attempt}
use escrow_hub.Wallet.Vault.{Vault}
use escrow_hub.Signer.Handled.{
  AllOpen, Keeps, Ends, is_stored, is_handled, reads-Keeps, >>=-Keeps, Ends->>=,
}

-- The action always returns.
pub record Finishes {ℓ} {A : Type ℓ} (m : Action A) : Type ℓ where
  pub finishes : (db : Db) → (a : A) × ((m db).0 ≡ ok a)

-- `try` with a handler that always returns.
module _ (m : Action (Unit {0})) (k : Error → Action (Unit {0})) where
  tried_stored :
      (j : ℕ) (r : Result (Unit {0}) × Db)
      → ((e : Error) → Keeps (k e))
      → is_stored j r.1 ≡ true
      → (let r' : Result ℕ × Db = elim r.0 [ ok _ ↦ (ok 1, r.1) | err e ↦ (k e >> pure 0) r.1 ] in
          is_stored j r'.1 ≡ true)
  tried_stored j (ok _, db) keeps h = h
  tried_stored j (err e, db) keeps h =
      (>>=-Keeps (k e) (λ _. pure 0) (keeps e) λ _. reads-Keeps (pure 0) λ db. refl).stored j db h

  tried_handled :
      (j : ℕ) (r : Result (Unit {0}) × Db)
      → ((e : Error) → Keeps (k e))
      → is_handled j r.1 ≡ true
      → (let r' : Result ℕ × Db = elim r.0 [ ok _ ↦ (ok 1, r.1) | err e ↦ (k e >> pure 0) r.1 ] in
          is_handled j r'.1 ≡ true)
  tried_handled j (ok _, db) keeps h = h
  tried_handled j (err e, db) keeps h =
      (>>=-Keeps (k e) (λ _. pure 0) (keeps e) λ _. reads-Keeps (pure 0) λ db. refl).handled j db h

  tried_readable :
      (v : Vault) (r : Result (Unit {0}) × Db)
      → ((e : Error) → Keeps (k e))
      → AllOpen v r.1.withdrawals
      → (let r' : Result ℕ × Db = elim r.0 [ ok _ ↦ (ok 1, r.1) | err e ↦ (k e >> pure 0) r.1 ] in
          AllOpen v r'.1.withdrawals)
  tried_readable v (ok _, db) keeps h = h
  tried_readable v (err e, db) keeps h =
      (>>=-Keeps (k e) (λ _. pure 0) (keeps e) λ _. reads-Keeps (pure 0) λ db. refl).readable v db h

  pub attempt-Keeps : Keeps m → ((e : Error) → Keeps (k e)) → Keeps (attempt m k)
  attempt-Keeps km kk = record {
    stored = λ j db h. tried_stored j (m db) kk (km.stored j db h);
    handled = λ j db h. tried_handled j (m db) kk (km.handled j db h);
    readable = λ v db h. tried_readable v (m db) kk (km.readable v db h);
  }

  tried-Finishes :
      (r : Result (Unit {0}) × Db)
      → ((e : Error) → Finishes (k e))
      → (let r' : Result ℕ × Db = elim r.0 [ ok _ ↦ (ok 1, r.1) | err e ↦ (k e >> pure 0) r.1 ] in
          (n : ℕ) × (r'.0 ≡ ok n))
  tried-Finishes (ok _, db) f = (1, refl)
  tried-Finishes (err e, db) f = let (u, returns) = (f e).finishes db in (0, ground arith)

  pub attempt-Finishes : ((e : Error) → Finishes (k e)) → Finishes (attempt m k)
  attempt-Finishes f = record { finishes = λ db. tried-Finishes (m db) f }

  tried-Ends :
      (id : ℕ) (r : Result (Unit {0}) × Db) (n : ℕ)
      → ((a : Unit {0}) → r.0 ≡ ok a → is_handled id r.1 ≡ true)
      → ((e : Error) → Ends id (k e))
      → is_stored id r.1 ≡ true
      → (let r' : Result ℕ × Db = elim r.0 [ ok _ ↦ (ok 1, r.1) | err e ↦ (k e >> pure 0) r.1 ] in
          r'.0 ≡ ok n → is_handled id r'.1 ≡ true)
  tried-Ends id (ok a, db) n done ek h = λ returns. done a refl
  tried-Ends id (err e, db) n done ek h =
      (Ends->>= (k e) (λ _. pure 0) (ek e) λ _. reads-Keeps (pure 0) λ db. refl).ends db n h

  pub attempt-Ends :
      {id : ℕ} → Keeps m → Ends id m → ((e : Error) → Ends id (k e)) → Ends id (attempt m k)
  attempt-Ends {id} km em ek = record {
    ends = λ db n h returns.
        tried-Ends id (m db) n (λ a r. em.ends db a h r) ek (km.stored id db h) returns;
  }
