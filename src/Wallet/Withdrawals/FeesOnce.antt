-- ===== src/Wallet/Withdrawals/FeesOnce.antt =====
-- The entries of a withdrawal's platform fee: how many a step leaves.
use escrow_hub.Common.{
  ℕ, suc, ◌≤◌, ◌≡◌, refl, subst, Bool, true, false, Bool-cases, Option, none, some, Option-cases,
  inl, inr, List, [], ◌∷◌, arith, if◌then◌else◌, ◌==◌,
}
use escrow_hub.Decimal.{zero_amount, lt}
use escrow_hub.Table.{find}
use escrow_hub.Outcome.{ok}
use escrow_hub.Db.{Db, Action, Withdrawal, LedgerEntry}
use escrow_hub.Wallet.Withdrawals.Fees.{
  books_platform_fee, any_entry, withdrawal_fee_booked, book_fee,
  book_withdrawal_platform_fee_if_needed, actual_fee, fee_delta, book_delta, book_user_fee,
  settle_fee, needs_settlement, settle_withdrawal_network_fee_if_needed,
}

-- How many entries pass a test.
unfoldable pub count {ℓ} : {A : Type ℓ} → (A → Bool) → List A → ℕ
count p [] = 0
count p (x ∷ xs) = if p x then suc (count p xs) else count p xs

any_entry-count :
    (p : LedgerEntry → Bool) (es : List LedgerEntry) → any_entry p es ≡ false → count p es ≡ 0
unfolding any_entry count
any_entry-count p [] h = refl
any_entry-count p (e ∷ es) h = ground (arith, any_entry-count p es)

book_fee-count :
    (k id : ℕ) (o : Option Withdrawal) (db : Db)
    → count (books_platform_fee k) (book_fee id o db).1.ledger_entries
      ≤ suc (count (books_platform_fee k) db.ledger_entries)
unfolding book_fee count
book_fee-count k id none db = omega arith
book_fee-count k id (some w) db = elim (Bool-cases (lt zero_amount w.platform_fee_amount)) [
  | inl e ↦ rw e (ground arith)
  | inr e ↦ rw e (omega arith)
]

-- The entry of another withdrawal does not count.
book_fee_other :
    (k id : ℕ) (o : Option Withdrawal) (db : Db)
    → (id == k) ≡ false
    → count (books_platform_fee k) (book_fee id o db).1.ledger_entries
      ≡ count (books_platform_fee k) db.ledger_entries
unfolding book_fee count
book_fee_other k id none db h = refl
book_fee_other k id (some w) db h = elim (Bool-cases (lt zero_amount w.platform_fee_amount)) [
  | inl e ↦ rw e (ground arith)
  | inr e ↦ rw e refl
]

abbrev pub fees_booked : ℕ → Db → ℕ
fees_booked k db = count (books_platform_fee k) db.ledger_entries

-- What an action keeps: no withdrawal has its platform fee booked twice.
pub record KeepsOnce {ℓ} {A : Type ℓ} (m : Action A) : Type ℓ where
  pub keeps : (k : ℕ) (db : Db) → fees_booked k db ≤ 1 → fees_booked k (m db).1 ≤ 1

pub book-KeepsOnce : (id : ℕ) → KeepsOnce (book_withdrawal_platform_fee_if_needed id)
unfolding book_withdrawal_platform_fee_if_needed withdrawal_fee_booked
book-KeepsOnce id = record { keeps = λ k db h. once k db h }
  where
    once :
        (k : ℕ) (db : Db)
        → fees_booked k db ≤ 1
        → fees_booked k (book_withdrawal_platform_fee_if_needed id db).1 ≤ 1
    once k db h = elim (Bool-cases (any_entry (books_platform_fee id) db.ledger_entries)) [
      | inl booked ↦ rw booked h
      | inr unbooked ↦ rw unbooked (elim (Bool-cases (id == k)) [
        | inl same ↦
            let one : id ≡ k = ground arith in
            let free : any_entry (books_platform_fee k) db.ledger_entries ≡ false =
              subst (λ j. any_entry (books_platform_fee j) db.ledger_entries ≡ false) one
                unbooked in
            omega (
              arith,
              any_entry-count (books_platform_fee k) db.ledger_entries free,
              book_fee-count k id (find id db.withdrawals) db,
            )
        | inr other ↦ omega (arith, h, book_fee_other k id (find id db.withdrawals) db other)
      ])
    ]

-- The settlement of the network's fee books no platform fee.
settle_fee-fees_booked :
    (k now id : ℕ) (w : Withdrawal) (db : Db)
    → fees_booked k (settle_fee now id w db).1 ≡ fees_booked k db
unfolding settle_fee book_delta book_user_fee count
settle_fee-fees_booked k now id w db = elim (Bool-cases (lt zero_amount (actual_fee w))) [
  | inl p ↦ elim (Bool-cases (lt (fee_delta w) zero_amount)) [
    | inl q ↦ rw (p, q) (ground arith)
    | inr q ↦ elim (Bool-cases (lt zero_amount (fee_delta w))) [
      | inl r ↦ rw (p, q, r) (ground arith)
      | inr r ↦ rw (p, q, r) (ground arith)
    ]
  ]
  | inr p ↦ elim (Bool-cases (lt (fee_delta w) zero_amount)) [
    | inl q ↦ rw (p, q) (ground arith)
    | inr q ↦ elim (Bool-cases (lt zero_amount (fee_delta w))) [
      | inl r ↦ rw (p, q, r) (ground arith)
      | inr r ↦ rw (p, q, r) (ground arith)
    ]
  ]
]

module _ (now : ℕ) (force : Bool) (id : ℕ) (db : Db) where
  pub settles_unknown :
      find id db.withdrawals ≡ none
      → settle_withdrawal_network_fee_if_needed now force id db ≡ (ok tt, db)
  unfolding settle_withdrawal_network_fee_if_needed
  settles_unknown e = ground arith

  pub settles_not :
      {w : Withdrawal}
      → find id db.withdrawals ≡ some w
      → needs_settlement force id w db ≡ false
      → settle_withdrawal_network_fee_if_needed now force id db ≡ (ok tt, db)
  unfolding settle_withdrawal_network_fee_if_needed
  settles_not e n = ground arith

  pub settles :
      {w : Withdrawal}
      → find id db.withdrawals ≡ some w
      → needs_settlement force id w db ≡ true
      → settle_withdrawal_network_fee_if_needed now force id db ≡ settle_fee now id w db
  unfolding settle_withdrawal_network_fee_if_needed
  settles e n = ground arith

pub settle-KeepsOnce :
    (now : ℕ) (force : Bool) (id : ℕ)
    → KeepsOnce (settle_withdrawal_network_fee_if_needed now force id)
settle-KeepsOnce now force id = record {
  keeps = λ k db h. elim (Option-cases (find id db.withdrawals)) [
    | inl e ↦ rw (settles_unknown now force id db e) h
    | inr (w, e) ↦ elim (Bool-cases (needs_settlement force id w db)) [
      | inl n ↦ rw (settles now force id db e n, settle_fee-fees_booked k now id w db) h
      | inr n ↦ rw (settles_not now force id db e n) h
    ]
  ];
}
