-- ===== src/Wallet/Withdrawals/Refund.antt =====
-- A withdrawal that is requested and fails: what was reserved comes back.
use escrow_hub.Common.{ℕ, ◌≤◌, ◌≡◌, sym, ap, ◌∙◌, ℤ, ◌-◌, scale, pow10, int_laws, some, arith, ◌∷◌}
use escrow_hub.Text.{Text}
use escrow_hub.Asset.{Asset, quantum_places}
use escrow_hub.Decimal.{Decimal, ◌+ᵈ◌, units, quantize}
use escrow_hub.Decimal.Units.{units-neg, units-units, places-+ᵈ}
use escrow_hub.Decimal.Rounding.{quantize-units, places-quantize}
use escrow_hub.Outcome.{ok}
use escrow_hub.Settings.{Settings}
use escrow_hub.Outside.{Outside}
use escrow_hub.Table.{find}
use escrow_hub.Ledger.{of_user, reserved_amount}
use escrow_hub.Ledger.Sums.{book, total_units, entry_amount}
use escrow_hub.Db.{Db, LedgerEntry, Withdrawal, user, withdrawal_release, withdrawal_ref}
use escrow_hub.Wallet.Charges.{
  quantize_asset, withdrawal_total_debit, withdrawal_platform_fee, withdrawal_network_fee,
}
use escrow_hub.Wallet.Charges.Split.{places-at_least_zero}
use escrow_hub.Wallet.Withdrawals.Request.{Ticket, withdrawal_body}
use escrow_hub.Wallet.Withdrawals.Marks.{change, fail_row, mark_withdrawal_failed}
use escrow_hub.Wallet.Withdrawals.Reserved.{
  reserved_row, reserve_entry, found_row, withdrawal_body-Reserved,
}

-- The entry that pays a reserve back.
abbrev release_entry : ℕ → Withdrawal → LedgerEntry
release_entry id w = record {
  account_type = user;
  account_owner_id = some w.user_id;
  user_id = some w.user_id;
  asset = w.asset;
  amount = reserved_amount w;
  entry_type = withdrawal_release;
  ref_type = withdrawal_ref;
  ref_id = id;
}

failed-ledger :
    (o : Outside) (id : ℕ) (reason : Text) (db : Db) {w : Withdrawal}
    → find id db.withdrawals ≡ some w
    → (mark_withdrawal_failed o id reason db).1.ledger_entries
      ≡ release_entry id w ∷ db.ledger_entries
unfolding mark_withdrawal_failed fail_row change
failed-ledger o id reason db e = ground (arith, e)

module _ (s : Settings) (asset : Asset) (amount : Decimal) where
  -- The sum that the row reserves, before it is rounded.
  abbrev reserved_sum : Decimal
  reserved_sum = amount +ᵈ withdrawal_platform_fee s asset amount +ᵈ withdrawal_network_fee s asset

  platform_fee-places : (withdrawal_platform_fee s asset amount).places ≤ quantum_places asset
  unfolding withdrawal_platform_fee quantize_asset
  platform_fee-places =
      places-at_least_zero (quantum_places asset) _
        (omega (arith, places-quantize (quantum_places asset) _))

  network_fee-places : (withdrawal_network_fee s asset).places ≤ quantum_places asset
  unfolding withdrawal_network_fee quantize_asset
  network_fee-places = omega (arith, places-quantize (quantum_places asset) _)

  reserved_sum-places :
      amount.places ≤ quantum_places asset → reserved_sum.places ≤ quantum_places asset
  reserved_sum-places h = places-+ᵈ _ _ _ (places-+ᵈ _ _ _ h platform_fee-places) network_fee-places

  -- Rounding changes nothing.
  debit-units :
      (n : ℕ)
      → amount.places ≤ quantum_places asset
      → quantum_places asset ≤ n
      → units n (withdrawal_total_debit s asset amount) ≡ units n reserved_sum
  unfolding withdrawal_total_debit quantize_asset
  debit-units n h le =
      let q : ℕ = quantum_places asset in
      let whole = reserved_sum-places h in
      sym (
        units-units q n (quantize q reserved_sum) (omega (arith, places-quantize q reserved_sum))
          le)
      ∙ ap (λ (x : ℤ). scale x (pow10 (n - q))) (quantize-units q reserved_sum whole)
      ∙ units-units q n reserved_sum whole le

module _ (o : Outside) (s : Settings) (user_id : ℕ) (asset : Asset) (amount : Decimal)
    (destination : Text) (db : Db) where
  back_and_forth :
      (n id : ℕ) (encrypted : Text) (u : ℕ) (a : Asset)
      → units n (withdrawal_total_debit s asset amount) ≡ units n (reserved_sum s asset amount)
      → total_units n (of_user u a) entry_amount (
          release_entry id (reserved_row o s user_id asset amount destination db encrypted)
          ∷ reserve_entry o s user_id asset amount destination db
          ∷ db.ledger_entries)
        ≡ book n db u a
  unfolding total_units
  back_and_forth n id encrypted u a same =
      grind (int_laws, same, units-neg n (withdrawal_total_debit s asset amount))

  -- A withdrawal that is requested and then fails leaves the balance of every user in every asset
  -- as it was before the request, if its amount has no finer places than its asset; balances are
  -- counted in the asset's units or finer ones.
  pub mark_withdrawal_failed-withdrawal_body :
      (n : ℕ) (reason : Text) (u : ℕ) (a : Asset) {t : Ticket}
      → amount.places ≤ quantum_places asset
      → quantum_places asset ≤ n
      → (withdrawal_body o s user_id asset amount destination db).0 ≡ ok t
      → let requested = (withdrawal_body o s user_id asset amount destination db).1 in
        book n (mark_withdrawal_failed o t.id reason requested).1 u a ≡ book n db u a
  mark_withdrawal_failed-withdrawal_body n reason u a {t} places le h =
      let v = withdrawal_body-Reserved o s user_id asset amount destination db h in
      let requested : Db = (withdrawal_body o s user_id asset amount destination db).1 in
      let row = found_row o s user_id asset amount destination db v in
      ap (total_units n (of_user u a) entry_amount) (
        failed-ledger o t.id reason requested row
        ∙ ap
            (λ es.
              release_entry t.id (reserved_row o s user_id asset amount destination db v.encrypted)
              ∷ es)
            v.ledger)
      ∙ back_and_forth n t.id v.encrypted u a (debit-units s asset amount n places le)
