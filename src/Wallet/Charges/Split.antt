-- ===== src/Wallet/Charges/Split.antt =====
-- How a deposit is shared between the user and the platform.
use escrow_hub.Common.{
  ℕ, ◌≤◌, ◌≡◌, refl, sym, ap, subst, ◌∙◌, Bool-cases, inl, inr, arith, ℤ, pos, ◌+ℤ◌, ◌-ℤ◌, ◌≤ℤ◌,
  int_laws,
}
use escrow_hub.Asset.{Asset, quantum_places}
use escrow_hub.Decimal.{Decimal, zero_amount, neg, units, ◌-ᵈ◌, ◌*ᵈ◌, div_hundred, lt, quantize}
use escrow_hub.Decimal.Units.{units-of_ℕ, units--ᵈ, places-+ᵈ, places-neg, ge→units-le, lt→units-lt}
use escrow_hub.Decimal.Rounding.{
  quantize-quantize, quantize-units, quantize-nonneg, places-quantize,
}
use escrow_hub.Fee.Bounds.{IsNonneg}
use escrow_hub.Settings.{Settings}
use escrow_hub.Wallet.Charges.{
  quantize_asset, at_least_zero, at_most, deposit_platform_fee, deposit_net_credit,
}

units_zero : (n : ℕ) → units n zero_amount ≡ pos 0
units_zero n = units-of_ℕ 0 n ∙ omega int_laws

module _ (n : ℕ) (d : Decimal) (h : d.places ≤ n) where
  pub places-at_least_zero : (at_least_zero d).places ≤ n
  places-at_least_zero = ground arith

  pub at_least_zero-nonneg : pos 0 ≤ℤ units n (at_least_zero d)
  at_least_zero-nonneg = elim (Bool-cases (lt d zero_amount)) [
    | inl e ↦ rw (e, units_zero n) (omega arith)
    | inr e ↦ rw e (
        subst (λ (t : ℤ). t ≤ℤ units n d) (units_zero n)
          (ge→units-le n d zero_amount h (omega arith) e))
  ]

  pub at_least_zero_keeps : pos 0 ≤ℤ units n d → units n (at_least_zero d) ≡ units n d
  at_least_zero_keeps nonneg = elim (Bool-cases (lt d zero_amount)) [
    | inl e ↦
        let below : units n d +ℤ pos 1 ≤ℤ pos 0 =
          subst (λ (t : ℤ). units n d +ℤ pos 1 ≤ℤ t) (units_zero n)
            (lt→units-lt n d zero_amount h (omega arith) e) in
        absurd (omega (int_laws, below, nonneg))
    | inr e ↦ rw e refl
  ]

module _ (n : ℕ) (top d : Decimal) (ht : top.places ≤ n) (h : d.places ≤ n) where
  places-at_most : (at_most top d).places ≤ n
  places-at_most = ground arith

  at_most-le : units n (at_most top d) ≤ℤ units n top
  at_most-le = elim (Bool-cases (lt top d)) [
    | inl e ↦ rw e (omega arith)
    | inr e ↦ rw e (ge→units-le n top d ht h e)
  ]

  at_most-nonneg : pos 0 ≤ℤ units n top → pos 0 ≤ℤ units n d → pos 0 ≤ℤ units n (at_most top d)
  at_most-nonneg a b = elim (Bool-cases (lt top d)) [ inl e ↦ rw e a | inr e ↦ rw e b ]

-- A deposit's fee and net credit, in the asset's units.
pub record Splits (n : ℕ) (gross fee net : Decimal) : Type 0 where
  pub fee_nonneg : pos 0 ≤ℤ units n fee
  pub net_nonneg : pos 0 ≤ℤ units n net
  pub fee_places : fee.places ≤ n
  pub net_places : net.places ≤ n
  pub whole : units n fee +ℤ units n net ≡ units n gross

gross-Splits :
    (n : ℕ) (gross raw : Decimal)
    → gross.places ≤ n
    → raw.places ≤ n
    → pos 0 ≤ℤ units n gross
    → let fee = at_most gross (at_least_zero raw) in
      Splits n gross fee (quantize n (at_least_zero (gross -ᵈ fee)))
gross-Splits n gross raw hg hr nonneg =
    let floor : Decimal = at_least_zero raw in
    let fee : Decimal = at_most gross floor in
    let hf : floor.places ≤ n = places-at_least_zero n raw hr in
    let hfee : fee.places ≤ n = places-at_most n gross floor hg hf in
    let rest : Decimal = gross -ᵈ fee in
    let hrest : rest.places ≤ n = places--ᵈ n gross fee hg hfee in
    let exact : units n rest ≡ units n gross -ℤ units n fee = units--ᵈ n gross fee hg hfee in
    let le : units n fee ≤ℤ units n gross = at_most-le n gross floor hg hf in
    let rest_nonneg : pos 0 ≤ℤ units n rest =
      subst (λ (t : ℤ). pos 0 ≤ℤ t) (sym exact) (omega (int_laws, le)) in
    let kept : units n (quantize n (at_least_zero rest)) ≡ units n gross -ℤ units n fee =
      quantize-units n (at_least_zero rest) (places-at_least_zero n rest hrest)
      ∙ at_least_zero_keeps n rest hrest rest_nonneg
      ∙ exact in
    record {
      fee_nonneg = at_most-nonneg n gross floor hg hf nonneg (at_least_zero-nonneg n raw hr);
      net_nonneg = subst (λ (t : ℤ). pos 0 ≤ℤ t) (sym kept) (omega (int_laws, le));
      fee_places = hfee;
      net_places =
          le_refl n (quantize n (at_least_zero rest)) (places-quantize n (at_least_zero rest));
      whole = ap (λ t. units n fee +ℤ t) kept ∙ omega int_laws;
    }
  where
    le_refl : (n : ℕ) (d : Decimal) → d.places ≡ n → d.places ≤ n
    le_refl n d same = omega arith

    places--ᵈ : (n : ℕ) (a b : Decimal) → a.places ≤ n → b.places ≤ n → (a -ᵈ b).places ≤ n
    places--ᵈ n a b ha hb =
        unfold ◌-ᵈ◌ in places-+ᵈ n a (neg b) ha (omega (arith, places-neg b, hb))

module _ (settings : Settings) (asset : Asset) (gross : Decimal)
    (same : quantize_asset asset gross ≡ gross) where
  abbrev raw_fee : Decimal
  raw_fee = quantize_asset asset (div_hundred (gross *ᵈ settings.deposit_platform_fee_percent))

  fee_of : deposit_platform_fee settings asset gross ≡ at_most gross (at_least_zero raw_fee)
  unfolding deposit_platform_fee
  fee_of = ap (λ (x : Decimal). at_most x (at_least_zero raw_fee)) same

  net_of :
      deposit_net_credit settings asset gross
      ≡ quantize_asset asset (at_least_zero (gross -ᵈ at_most gross (at_least_zero raw_fee)))
  unfolding deposit_net_credit
  net_of =
      ap
        (λ (x : Decimal).
          quantize_asset asset (at_least_zero (x -ᵈ deposit_platform_fee settings asset x)))
        same
      ∙ ap (λ (x : Decimal). quantize_asset asset (at_least_zero (gross -ᵈ x))) fee_of

  split_at_places :
      pos 0 ≤ℤ units (quantum_places asset) gross
      → gross.places ≤ quantum_places asset
      → Splits
          (quantum_places asset)
          gross
          (deposit_platform_fee settings asset gross)
          (deposit_net_credit settings asset gross)
  split_at_places nonneg places =
      rw (fee_of, net_of)
        (unfold quantize_asset in
          gross-Splits (quantum_places asset) gross raw_fee places (le_refl _ raw_fee (places_raw))
            nonneg)
    where
      places_raw : raw_fee.places ≡ quantum_places asset
      places_raw = unfold quantize_asset in places-quantize (quantum_places asset) _

      le_refl : (n : ℕ) (d : Decimal) → d.places ≡ n → d.places ≤ n
      le_refl n d same = omega arith

-- The fee and the net credit of a deposit that is not negative: neither is negative, and
-- together they are the deposit, rounded to the asset's places, whatever percentage is
-- configured.
pub deposit-Splits :
    (settings : Settings) (asset : Asset) (amount : Decimal)
    → IsNonneg amount
    → let gross = quantize_asset asset amount in
      Splits
        (quantum_places asset)
        gross
        (deposit_platform_fee settings asset gross)
        (deposit_net_credit settings asset gross)
unfolding quantize_asset
deposit-Splits settings asset amount nonneg =
    let q : ℕ = quantum_places asset in
    split_at_places settings asset (quantize_asset asset amount) (quantize-quantize q amount)
      (quantize-nonneg q amount nonneg) (le_refl q (quantize q amount) (places-quantize q amount))
  where
    le_refl : (n : ℕ) (d : Decimal) → d.places ≡ n → d.places ≤ n
    le_refl n d same = omega arith
