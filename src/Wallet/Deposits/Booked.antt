-- ===== src/Wallet/Deposits/Booked.antt =====
-- What a report of a transfer books.
use escrow_hub.Common.{
  ℕ, ◌≤◌, ◌*◌, pow10, ◌≡◌, refl, sym, ap, subst, ◌∙◌, Bool, false, Bool-cases, Option-cases, inl,
  inr, ℤ, pos, ◌+ℤ◌, ◌≤ℤ◌, int_laws, arith, if◌then◌else◌,
}
use escrow_hub.Asset.{Asset, asset_eq, asset_eq_refl}
use escrow_hub.Decimal.{Decimal, zero_amount, units, lt}
use escrow_hub.Decimal.Units.{ge→units-le, units-of_ℕ}
use escrow_hub.Outcome.{Result, ok, ok-injective}
use escrow_hub.Table.{find_where}
use escrow_hub.Db.{Db}
use escrow_hub.Ledger.Sums.{holdings, total_units}
use escrow_hub.Wallet.Charges.Split.{Splits}
use escrow_hub.Wallet.Deposits.{
  Transfer, Amounts, has_key, is_credited, credit_body, book_deposit, insert_deposit,
}
use escrow_hub.Wallet.Deposits.Once.{
  report_credited, report_seen, report_final, report_new_final, report_new_seen, inserted,
  credited_db,
}

-- An amount that is not below zero.
pub nonneg_of : (n : ℕ) (d : Decimal) → d.places ≤ n → lt d zero_amount ≡ false → pos 0 ≤ℤ units n d
nonneg_of n d h e =
    subst (λ (t : ℤ). t ≤ℤ units n d) (units-of_ℕ 0 n ∙ zero_product)
      (ge→units-le n d zero_amount h (omega arith) e)
  where
    zero_product : pos (0 * pow10 n) ≡ pos 0
    zero_product = omega int_laws

-- An amount that is not negative and not booked is zero.
pub not_booked :
    (n : ℕ) (d : Decimal)
    → d.places ≤ n
    → pos 0 ≤ℤ units n d
    → lt zero_amount d ≡ false
    → units n d ≡ pos 0
not_booked n d h nonneg e =
    let le : units n d ≤ℤ pos 0 =
      subst (λ (t : ℤ). units n d ≤ℤ t) (units-of_ℕ 0 n ∙ zero_product)
        (ge→units-le n zero_amount d (omega arith) h e) in
    omega (int_laws, le, nonneg)
  where
    zero_product : pos (0 * pow10 n) ≡ pos 0
    zero_product = omega int_laws

module _ (n user_id : ℕ) (asset : Asset) (a : Amounts) (id : ℕ) (db : Db) where
  booked_nothing_else :
      (counting : Asset)
      → asset_eq asset counting ≡ false
      → holdings n counting (book_deposit user_id asset a id db).1 ≡ holdings n counting db
  unfolding book_deposit holdings total_units
  booked_nothing_else counting e = elim (Bool-cases (lt zero_amount a.net)) [
    | inl p ↦ elim (Bool-cases (lt zero_amount a.fee)) [
      | inl q ↦ rw (p, q, e) refl
      | inr q ↦ rw (p, q, e) refl
    ]
    | inr p ↦ elim (Bool-cases (lt zero_amount a.fee)) [
      | inl q ↦ rw (p, q, e) refl
      | inr q ↦ rw (p, q) refl
    ]
  ]

  booked_gross :
      Splits n a.gross a.fee a.net
      → holdings n asset (book_deposit user_id asset a id db).1
        ≡ holdings n asset db +ℤ units n a.gross
  unfolding book_deposit holdings total_units
  booked_gross v = elim (Bool-cases (lt zero_amount a.net)) [
    | inl p ↦ elim (Bool-cases (lt zero_amount a.fee)) [
      | inl q ↦ rw (p, q) (grind (int_laws, asset_eq_refl asset, v.whole))
      | inr q ↦
          rw (p, q)
            (grind (
              int_laws,
              asset_eq_refl asset,
              v.whole,
              not_booked n a.fee v.fee_places v.fee_nonneg q,
            ))
    ]
    | inr p ↦ elim (Bool-cases (lt zero_amount a.fee)) [
      | inl q ↦
          rw (p, q)
            (grind (
              int_laws,
              asset_eq_refl asset,
              v.whole,
              not_booked n a.net v.net_places v.net_nonneg p,
            ))
      | inr q ↦
          rw (p, q)
            (grind (
              int_laws,
              asset_eq_refl asset,
              v.whole,
              not_booked n a.net v.net_places v.net_nonneg p,
              not_booked n a.fee v.fee_places v.fee_nonneg q,
            ))
    ]
  ]

module _ (n user_id : ℕ) (t : Transfer) (a : Amounts) (db : Db)
    (v : Splits n a.gross a.fee a.net) where
  abbrev Adds : Bool → Db → Type 0
  Adds credits after =
      holdings n t.asset after
      ≡ (if credits then holdings n t.asset db +ℤ units n a.gross else holdings n t.asset db)

  as_told :
      {b credits : Bool} {after : Db}
      → credit_body user_id t a db ≡ (ok b, after)
      → Adds b after
      → (credit_body user_id t a db).0 ≡ ok credits
      → Adds credits (credit_body user_id t a db).1
  as_told {b} {credits} {after} e adds h =
      let same : b ≡ credits = ok-injective (sym (ap (λ (r : Result Bool × Db). r.0) e) ∙ h) in
      subst (λ b'. Adds b' (credit_body user_id t a db).1) same
        (subst (Adds b) (sym (ap (λ (r : Result Bool × Db). r.1) e)) adds)

  -- What a report that returns adds to its asset's holdings, where its fee and its net amount
  -- split its gross amount: the gross amount where it returns True, nothing where it returns
  -- False.
  pub credit_body-holdings :
      (credits : Bool)
      → (credit_body user_id t a db).0 ≡ ok credits
      → holdings n t.asset (credit_body user_id t a db).1
        ≡ (if credits then holdings n t.asset db +ℤ units n a.gross else holdings n t.asset db)
  unfolding insert_deposit
  credit_body-holdings credits h =
      elim (Option-cases (find_where (has_key t.unique_key) db.deposits)) [
        | inl absent ↦ elim (Bool-cases t.finalized) [
          | inl final ↦
              as_told (report_new_final user_id t a db absent final)
                (booked_gross n user_id t.asset a db.next_deposit (inserted user_id t a db) v
                  ∙ ap (λ x. x +ℤ units n a.gross) (unchanged (inserted user_id t a db) refl refl))
                h
          | inr early ↦
              as_told (report_new_seen user_id t a db absent early) (unchanged _ refl refl) h
        ]
        | inr ((id, d), found) ↦ elim (Bool-cases (is_credited d.status)) [
          | inl done ↦ as_told (report_credited user_id t a db found done) (unchanged _ refl refl) h
          | inr undone ↦ elim (Bool-cases t.finalized) [
            | inl final ↦
                as_told (report_final user_id t a db found undone final)
                  (booked_gross n user_id t.asset a id (credited_db id t a db) v
                    ∙ ap (λ x. x +ℤ units n a.gross) (unchanged (credited_db id t a db) refl refl))
                  h
            | inr early ↦
                as_told (report_seen user_id t a db found undone early) (unchanged _ refl refl) h
          ]
        ]
      ]
    where
      unchanged :
          (after : Db)
          → after.ledger_entries ≡ db.ledger_entries
          → after.escrow_locks ≡ db.escrow_locks
          → holdings n t.asset after ≡ holdings n t.asset db
      unchanged after e f = unfold holdings in rw (e, f) refl
