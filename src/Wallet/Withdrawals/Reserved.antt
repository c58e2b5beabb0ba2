-- ===== src/Wallet/Withdrawals/Reserved.antt =====
-- What a withdrawal request that returns has checked and written.
use escrow_hub.Common.{
  ℕ, ◌≤◌, ◌≡◌, refl, sym, ap, ap₂, subst, ◌∙◌, ==_refl, ℤ, pos, ◌+ℤ◌, ◌-ℤ◌, ◌≤ℤ◌, int_laws, some,
  Bool, false, Bool-cases, inl, inr, arith, ◌∷◌,
}
use escrow_hub.Text.{Text}
use escrow_hub.Asset.{Asset, asset_eq_refl}
use escrow_hub.Decimal.{Decimal, lt, neg, units}
use escrow_hub.Decimal.Units.{places-neg, units-neg, ge→units-le}
use escrow_hub.Ledger.Sums.{Fine, entry_amount, total_units, units-sum_where, places-sum_where}
use escrow_hub.Outcome.{ok, Result-cases}
use escrow_hub.Settings.{Settings}
use escrow_hub.Outside.{Outside}
use escrow_hub.Ledger
use escrow_hub.Wallet.Vault.{encrypt_field}
use escrow_hub.Wallet.Users.{assert_not_frozen}
use escrow_hub.Wallet.Charges.{
  withdrawal_total_debit, withdrawal_platform_fee, withdrawal_network_fee,
}
use escrow_hub.Wallet.Withdrawals.Request.{
  Ticket, withdrawal_body, check_limits, insert_withdrawal, set_key, with_key, new_withdrawal,
  build_withdrawal_idempotency_key,
}
use escrow_hub.Table.{Table, find, update}
use escrow_hub.Db.{Db, LedgerEntry, Withdrawal, user, withdrawal_reserve, withdrawal_ref}

module _ (o : Outside) (s : Settings) (user_id : ℕ) (asset : Asset) (amount : Decimal)
    (destination : Text) (db : Db) where
  -- The entry of the reserve.
  abbrev pub reserve_entry : LedgerEntry
  reserve_entry = record {
    account_type = user;
    account_owner_id = some user_id;
    user_id = some user_id;
    asset = asset;
    amount = neg (withdrawal_total_debit s asset amount);
    entry_type = withdrawal_reserve;
    ref_type = withdrawal_ref;
    ref_id = db.next_withdrawal;
  }

  abbrev key : Text
  key = build_withdrawal_idempotency_key o db.next_withdrawal user_id asset amount destination

  abbrev unkeyed : Text → Withdrawal
  unkeyed encrypted =
      new_withdrawal o.now user_id asset amount (withdrawal_platform_fee s asset amount)
        (withdrawal_network_fee s asset) encrypted

  -- The row, with its key.
  abbrev pub reserved_row : Text → Withdrawal
  reserved_row encrypted = with_key key (unkeyed encrypted)

  -- What has held, and the row and the ledger afterwards.
  pub record Reserved (t : Ticket) (after : Db) : Type 0 where
    pub encrypted : Text
    pub number : t.id ≡ db.next_withdrawal
    pub rows :
        after.withdrawals
        ≡ update db.next_withdrawal
            (with_key key)
            ((db.next_withdrawal, unkeyed encrypted) ∷ db.withdrawals)
    pub not_frozen : (assert_not_frozen user_id db).0 ≡ ok tt
    pub within_limits : check_limits o s user_id asset amount db ≡ ok tt
    pub covered :
        lt (Ledger.available_balance user_id asset db) (withdrawal_total_debit s asset amount)
        ≡ false
    pub ledger : after.ledger_entries ≡ reserve_entry ∷ db.ledger_entries

  keyed :
      (id : ℕ) (f : Withdrawal → Withdrawal) (w : Withdrawal) (rows : Table Withdrawal)
      → find id (update id f ((id, w) ∷ rows)) ≡ some (f w)
  unfolding find update
  keyed id f w rows = rw (==_refl id) (rw (==_refl id) refl)

  -- The request's own row.
  pub found_row :
      {t : Ticket} {after : Db} (v : Reserved t after)
      → find t.id after.withdrawals ≡ some (reserved_row v.encrypted)
  found_row v =
      rw (v.number, v.rows)
        (keyed db.next_withdrawal (with_key key) (unkeyed v.encrypted) db.withdrawals)

  frozen_same : (assert_not_frozen user_id db).1 ≡ db
  unfolding assert_not_frozen
  frozen_same = refl

  pub withdrawal_body-Reserved :
      {t : Ticket}
      → (withdrawal_body o s user_id asset amount destination db).0 ≡ ok t
      → Reserved t (withdrawal_body o s user_id asset amount destination db).1
  unfolding withdrawal_body insert_withdrawal set_key
  withdrawal_body-Reserved {t} h = elim (Result-cases (assert_not_frozen user_id db).0) [
    | inr (e, x) ↦ absurd (ground (arith, frozen_same))
    | inl (_, x) ↦ elim (Result-cases (check_limits o s user_id asset amount db)) [
      | inr (e, y) ↦ absurd (ground (arith, frozen_same))
      | inl (_, y) ↦
          elim (Bool-cases (
            lt (Ledger.available_balance user_id asset db)
              (withdrawal_total_debit s asset amount))) [
                | inl z ↦ absurd (ground (arith, frozen_same))
                | inr z ↦ elim (Result-cases (encrypt_field o.vault destination)) [
                  | inr (e, k) ↦ absurd (ground (arith, frozen_same))
                  | inl (encrypted, k) ↦ record {
                    encrypted = encrypted;
                    number = ground (arith, frozen_same);
                    rows = ground (arith, frozen_same);
                    not_frozen = ground arith;
                    within_limits = ground arith;
                    covered = z;
                    ledger = ground (arith, frozen_same);
                  }
                ]
              ]
    ]
  ]

  -- A withdrawal request that returns lowers the user's available balance by exactly the total
  -- debit, and not below zero, counted in units of which every amount of the ledger and the
  -- debit are whole numbers.
  pub withdrawal_body-available :
      (n : ℕ) {t : Ticket}
      → Fine n entry_amount db.ledger_entries
      → (withdrawal_total_debit s asset amount).places ≤ n
      → (withdrawal_body o s user_id asset amount destination db).0 ≡ ok t
      → let after =
          Ledger.available_balance user_id asset
            (withdrawal_body o s user_id asset amount destination db).1 in
        (units n after
          ≡ units n (Ledger.available_balance user_id asset db)
            -ℤ units n (withdrawal_total_debit s asset amount))
        × (pos 0 ≤ℤ units n after)
  unfolding Ledger.available_balance Ledger.net_user_ledger_balance
  withdrawal_body-available n fine places h =
      let v = withdrawal_body-Reserved h in
      let debit : Decimal = withdrawal_total_debit s asset amount in
      let before : Decimal = Ledger.available_balance user_id asset db in
      let mine : LedgerEntry → Bool = Ledger.of_user user_id asset in
      let fine' : (reserve_entry.amount.places ≤ n) × Fine n entry_amount db.ledger_entries =
        (omega (arith, places-neg debit, places), fine) in
      let counted : total_units n mine entry_amount (reserve_entry ∷ db.ledger_entries)
          ≡ total_units n mine entry_amount db.ledger_entries +ℤ units n (neg debit) =
        unfold total_units in rw (==_refl user_id, asset_eq_refl asset) refl in
      let lower : units n (
            Ledger.available_balance user_id asset
              (withdrawal_body o s user_id asset amount destination db).1)
          ≡ units n before -ℤ units n debit =
        ap (λ es. units n (Ledger.net_user_ledger_balance user_id asset es)) v.ledger
        ∙ units-sum_where n mine entry_amount (reserve_entry ∷ db.ledger_entries) fine'
        ∙ counted
        ∙ ap₂ ◌+ℤ◌ (sym (units-sum_where n mine entry_amount db.ledger_entries fine))
            (units-neg n debit)
        ∙ omega int_laws in
      let le : units n debit ≤ℤ units n before =
        ge→units-le n before debit (places-sum_where n mine entry_amount db.ledger_entries fine)
          places v.covered in
      (lower, subst (λ (x : ℤ). pos 0 ≤ℤ x) (sym lower) (omega (int_laws, le)))
