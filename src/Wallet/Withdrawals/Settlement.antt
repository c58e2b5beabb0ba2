-- ===== src/Wallet/Withdrawals/Settlement.antt =====
-- wallet_service.py: `_settle_withdrawal_network_fee_if_needed`, against the estimate that was reserved.
use escrow_hub.Common.{
  ap₂, false, ℤ, Bool, true, Option, none, some, ◌&&◌, if◌then◌else◌, refl, ◌==◌, ap, ℕ, ◌≤◌, ◌≡◌,
  ◌∙◌, false, Bool-cases, inl, inr, pos, ◌+ℤ◌, ◌-ℤ◌, ◌≤ℤ◌, int_laws, arith,
}
use escrow_hub.Asset.{Asset, asset_eq, quantum_places, asset_eq_refl}
use escrow_hub.Decimal.{Decimal, zero_amount, units, neg, ◌-ᵈ◌, lt, quantize}
use escrow_hub.Decimal.Units.{units-neg, units--ᵈ, places-+ᵈ, places-neg}
use escrow_hub.Decimal.Rounding.{quantize-units, places-quantize}
use escrow_hub.Ledger.{is_user, column_is}
use escrow_hub.Escrow.Book.{pay}
use escrow_hub.Db.{AccountType, user, platform_revenue, LedgerEntry, Db, Withdrawal}
use escrow_hub.Ledger.Sums.{
  held_of_asset, lock_amount, book, entry_amount, counted, holdings, total_units,
}
use escrow_hub.Wallet.Charges.{quantize_asset}
use escrow_hub.Wallet.Deposits.Booked.{not_booked, nonneg_of}
use escrow_hub.Wallet.Withdrawals.Fees.{
  is_platform, actual_fee, fee_delta, settle_fee, book_delta, book_user_fee,
}

abbrev pub estimate : Withdrawal → Decimal
estimate w = quantize_asset w.asset w.network_fee_amount

le_places : (q : ℕ) (d : Decimal) → (quantize q d).places ≤ q
le_places q d = let same = places-quantize q d in omega (arith, same)

delta-units :
    (q : ℕ) (a e : Decimal)
    → a.places ≤ q
    → e.places ≤ q
    → units q (quantize q (a -ᵈ e)) ≡ units q a -ℤ units q e
unfolding ◌-ᵈ◌
delta-units q a e ha he =
    quantize-units q (a -ᵈ e) (places-+ᵈ q a (neg e) ha (omega (arith, places-neg e, he)))
    ∙ units--ᵈ q a e ha he

-- A difference that is neither negative nor positive is zero.
no_delta :
    (q : ℕ) (d : Decimal)
    → d.places ≤ q
    → lt d zero_amount ≡ false
    → lt zero_amount d ≡ false
    → units q d ≡ pos 0
no_delta q d h below above = not_booked q d h (nonneg_of q d h below) above

abbrev of_account : (AccountType → Option ℕ → Asset → Bool) → LedgerEntry → Bool
of_account g e = g e.account_type e.account_owner_id e.asset

-- The revenue of the platform in an asset, in units of 10 ^ -n.
abbrev pub revenue : ℕ → Db → Asset → ℤ
revenue n db a =
    total_units n (λ e. is_platform e.account_type && asset_eq e.asset a) entry_amount
      db.ledger_entries

module _ (now id : ℕ) (w : Withdrawal) (db : Db) where
  abbrev q : ℕ
  q = quantum_places w.asset

  delta-fees : units q (fee_delta w) ≡ units q (actual_fee w) -ℤ units q (estimate w)
  unfolding quantize_asset
  delta-fees = delta-units q (actual_fee w) (estimate w) (le_places q _) (le_places q _)

  places-actual : (actual_fee w).places ≤ q
  unfolding quantize_asset
  places-actual = le_places q _

  places-delta : (fee_delta w).places ≤ q
  unfolding quantize_asset
  places-delta = le_places q _

  -- What the accounts of a kind gain, in any test of an entry's account and asset.
  settled-total :
      (g : AccountType → Option ℕ → Asset → Bool)
      → pos 0 ≤ℤ units (quantum_places w.asset) (actual_fee w)
      → total_units q (of_account g) entry_amount (settle_fee now id w db).1.ledger_entries
        ≡ total_units q (of_account g) entry_amount db.ledger_entries
          +ℤ (if g platform_revenue none w.asset then units q (actual_fee w) else pos 0)
          +ℤ (if g user (some w.user_id) w.asset
              then units q (estimate w) -ℤ units q (actual_fee w)
              else pos 0)
  unfolding settle_fee book_delta book_user_fee total_units
  settled-total g nonneg = elim (Bool-cases (lt zero_amount (actual_fee w))) [
    | inl p ↦ elim (Bool-cases (lt (fee_delta w) zero_amount)) [
      | inl r ↦ rw (p, r) (grind (int_laws, delta-fees, units-neg q (fee_delta w)))
      | inr r ↦ elim (Bool-cases (lt zero_amount (fee_delta w))) [
        | inl s ↦ rw (p, r, s) (grind (int_laws, delta-fees, units-neg q (fee_delta w)))
        | inr s ↦
            rw (p, r, s) (grind (int_laws, delta-fees, no_delta q (fee_delta w) places-delta r s))
      ]
    ]
    | inr p ↦ elim (Bool-cases (lt (fee_delta w) zero_amount)) [
      | inl r ↦
          rw (p, r)
            (grind (
              int_laws,
              delta-fees,
              units-neg q (fee_delta w),
              not_booked q (actual_fee w) places-actual nonneg p,
            ))
      | inr r ↦ elim (Bool-cases (lt zero_amount (fee_delta w))) [
        | inl s ↦
            rw (p, r, s)
              (grind (
                int_laws,
                delta-fees,
                units-neg q (fee_delta w),
                not_booked q (actual_fee w) places-actual nonneg p,
              ))
        | inr s ↦
            rw (p, r, s)
              (grind (
                int_laws,
                delta-fees,
                no_delta q (fee_delta w) places-delta r s,
                not_booked q (actual_fee w) places-actual nonneg p,
              ))
      ]
    ]
  ]

  settled-locks : (settle_fee now id w db).1.escrow_locks ≡ db.escrow_locks
  unfolding settle_fee book_delta book_user_fee
  settled-locks = elim (Bool-cases (lt zero_amount (actual_fee w))) [
    | inl p ↦ elim (Bool-cases (lt (fee_delta w) zero_amount)) [
      | inl r ↦ rw (p, r) refl
      | inr r ↦ elim (Bool-cases (lt zero_amount (fee_delta w))) [
        | inl s ↦ rw (p, r, s) refl
        | inr s ↦ rw (p, r, s) refl
      ]
    ]
    | inr p ↦ elim (Bool-cases (lt (fee_delta w) zero_amount)) [
      | inl r ↦ rw (p, r) refl
      | inr r ↦ elim (Bool-cases (lt zero_amount (fee_delta w))) [
        | inl s ↦ rw (p, r, s) refl
        | inr s ↦ rw (p, r, s) refl
      ]
    ]
  ]

  paid_to :
      (test : Bool) (x amount : ℤ)
      → x +ℤ pos 0 +ℤ (if test then amount else pos 0) ≡ (if test then x +ℤ amount else x)
  paid_to true x amount = omega int_laws
  paid_to false x amount = omega int_laws

  adds_up :
      (x y actual estimate : ℤ) → x +ℤ actual +ℤ (estimate -ℤ actual) +ℤ y ≡ x +ℤ y +ℤ estimate
  adds_up x y actual estimate = omega int_laws

  -- The settlement of a network fee that is not negative, in the units of its asset: the platform's
  -- revenue in that asset grows by what the network took, the withdrawal's user gets the estimate
  -- that was reserved less what the network took, which may be a debit, no other balance of any
  -- user and no other asset's revenue changes, and the holdings of the asset grow by the estimate.
  pub settle_fee-holdings :
      (u : ℕ) (a : Asset)
      → pos 0 ≤ℤ units (quantum_places w.asset) (actual_fee w)
      → let after = (settle_fee now id w db).1 in
        let q = quantum_places w.asset in
        (revenue q after a ≡ revenue q db a +ℤ counted q a w.asset (actual_fee w))
        × (book q after u a
            ≡ pay w.user_id w.asset
                (units q (estimate w) -ℤ units q (actual_fee w))
                (book q db)
                u
                a)
        × (holdings q w.asset after ≡ holdings q w.asset db +ℤ units q (estimate w))
  unfolding holdings
  settle_fee-holdings u a nonneg = (
    settled-total (λ account owner asset. is_platform account && asset_eq asset a) nonneg
        ∙ omega int_laws,
    settled-total (λ account owner asset. is_user account && column_is owner u && asset_eq asset a)
          nonneg
        ∙ paid_to (w.user_id == u && asset_eq w.asset a) _ _,
    ap₂ ◌+ℤ◌ (settled-total (λ account owner asset. asset_eq asset w.asset) nonneg)
          (ap (total_units q (held_of_asset w.asset) lock_amount) settled-locks)
        ∙ rw (asset_eq_refl w.asset) (adds_up _ _ _ _),
  )
