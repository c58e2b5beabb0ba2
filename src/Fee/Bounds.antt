-- ===== src/Fee/Bounds.antt =====
-- What the parties of an escrow get: the parts of a fee breakdown, in hundredths.
use native.Mathlib.Nat.{le_of_mul-le-mul_right, mul-pos, mul-le-mul_left, mul-le-mul_right}
use escrow_hub.Common.{
  ℕ, zero, suc, ◌+◌, ◌-◌, ◌*◌, ◌≤◌, ◌<◌, ◌≡◌, refl, sym, ap, ap₂, subst, ◌∙◌, arith, ℤ, pos, negsuc,
  ◌≤ℤ◌, pow10, pow10_pos, pow10-add, half_up, half_up_bounds, half_up_exact, half_up_mono, ltb_ℤ,
}
use escrow_hub.Decimal.{Decimal, of_ℕ, lt, quantize, ◌*ᵈ◌, ◌+ᵈ◌, ◌-ᵈ◌, div_hundred}
use escrow_hub.Decimal.Units.{lt-units, units_self, units-of_ℕ}
use escrow_hub.Decimal.Rounding.{
  fraction, rounded, rounded_self, quantize-fraction, percent-fraction, fraction-+ᵈ, quantize-sub,
}
use escrow_hub.Outcome.{ok, ok-injective, >>=-eq-ok}
use escrow_hub.Fee.{
  FeeBreakdown, money, validate_bot_extra_fee_percent, calculate_platform_fee,
  calculate_bot_extra_fee, calculate_total_fees,
}

-- How a percentage compares with a whole number of percent.
lt-of_ℕ :
    (c : ℤ) (r k : ℕ) → lt (record { coeff = c; places = r }) (of_ℕ k) ≡ ltb_ℤ c (pos (k * pow10 r))
lt-of_ℕ c r k =
    lt-units r (record { coeff = c; places = r }) (of_ℕ k) (omega arith) (omega arith)
    ∙ ap₂ ltb_ℤ (units_self c r) (units-of_ℕ k r)

of_ℕ-lt :
    (c : ℤ) (r k : ℕ) → lt (of_ℕ k) (record { coeff = c; places = r }) ≡ ltb_ℤ (pos (k * pow10 r)) c
of_ℕ-lt c r k =
    lt-units r (of_ℕ k) (record { coeff = c; places = r }) (omega arith) (omega arith)
    ∙ ap₂ ltb_ℤ (units-of_ℕ k r) (units_self c r)

-- A percentage is accepted exactly from 0 to 3.
accepts :
    (m r : ℕ) → m ≤ 3 * pow10 r → validate_bot_extra_fee_percent (fraction m r) ≡ ok (fraction m r)
unfolding validate_bot_extra_fee_percent
accepts m r h = rw (lt-of_ℕ (pos m) r 0, of_ℕ-lt (pos m) r 3) (ground arith)

pub accepted_range :
    (c : ℤ) (r : ℕ) {q : Decimal}
    → validate_bot_extra_fee_percent (record { coeff = c; places = r }) ≡ ok q
    → (m : ℕ) × (c ≡ pos m) × (m ≤ 3 * pow10 r)
unfolding validate_bot_extra_fee_percent
accepted_range (pos m) r e = (m, refl, ground (arith, lt-of_ℕ (pos m) r 0, of_ℕ-lt (pos m) r 3))
accepted_range (negsuc m) r e = absurd (ground (arith, lt-of_ℕ (negsuc m) r 0))

-- A fee in cents: pct percent of n / 10 ^ p, for pct = m / 10 ^ r.
abbrev fee_cents : ℕ → ℕ → ℕ → ℕ → ℕ
fee_cents n p m r = rounded 2 (n * m) (p + r + 2)

fee-fraction :
    (n p m r : ℕ)
    → money (div_hundred (fraction n p *ᵈ fraction m r)) ≡ fraction (fee_cents n p m r) 2
unfolding money
fee-fraction n p m r =
    ap (quantize 2) (percent-fraction n p m r) ∙ quantize-fraction 2 (n * m) (p + r + 2)

-- At three percent or less the rounded fee is at most six percent: a fee of one cent needs half a
-- cent of exact fee.
half_up-le_twice : (x d : ℕ) → 0 < d → d * half_up x d ≤ 2 * x
half_up-le_twice x d h = by_size (half_up x d) (half_up_bounds x d h).0
  where
    by_size : (f : ℕ) → 2 * d * f ≤ 2 * x + d → d * f ≤ 2 * x
    by_size zero le = omega arith
    by_size (suc f) le = omega arith

fee_cents-le : (n p m r : ℕ) → m ≤ 3 * pow10 r → fee_cents n p m r * pow10 p ≤ 6 * n
fee_cents-le n p m r h =
    let d : ℕ = pow10 (p + r + 2) in
    let f : ℕ = fee_cents n p m r in
    let whole : d ≡ pow10 p * pow10 r * pow10 2 =
      pow10-add (p + r) 2 ∙ ap (λ t. t * pow10 2) (pow10-add p r) in
    let twice : d * f ≤ 2 * (n * m * pow10 2) =
      half_up-le_twice (n * m * pow10 2) d (pow10_pos _) in
    let capped : n * m * pow10 2 ≤ n * (3 * pow10 r) * pow10 2 =
      mul-le-mul_right (pow10 2) (mul-le-mul_left n h) in
    le_of_mul-le-mul_right {k = pow10 r * pow10 2} (omega (arith, ap (λ (t : ℕ). t * f) whole))
      (mul-pos (pow10_pos r) (pow10_pos 2))

-- Two such fees are covered by the amount.
fees_covered :
    (n p m r m' r' : ℕ)
    → m ≤ 3 * pow10 r
    → m' ≤ 3 * pow10 r'
    → (fee_cents n p m r + fee_cents n p m' r') * pow10 p ≤ n * pow10 2
unfolding pow10
fees_covered n p m r m' r' h h' = omega (arith, fee_cents-le n p m r h, fee_cents-le n p m' r' h')

money_whole : (k : ℕ) → money (fraction k 2) ≡ fraction k 2
unfolding money
money_whole k = quantize-fraction 2 k 2 ∙ ap (λ t. fraction t 2) (rounded_self 2 k)

money_rest :
    (n p t : ℕ)
    → t * pow10 p ≤ n * pow10 2
    → money (fraction n p -ᵈ fraction t 2) ≡ fraction (rounded 2 n p - t) 2
unfolding money
money_rest n p t h = quantize-sub 2 n p t h

-- A whole number of cents within the amount is within the rounded amount.
le-rounded : (n p t : ℕ) → t * pow10 p ≤ n * pow10 2 → t ≤ rounded 2 n p
le-rounded n p t h = omega (
  arith,
  half_up_exact t (pow10 p) (pow10_pos p),
  half_up_mono (t * pow10 p) (n * pow10 2) (pow10 p) (pow10_pos p) h,
)

-- The breakdown of an amount that is not negative, computed.
total_fees :
    (n p m r m' r' : ℕ)
    → m ≤ 3 * pow10 r
    → m' ≤ 3 * pow10 r'
    → let f = fee_cents n p m r in
      let g = fee_cents n p m' r' in
      calculate_total_fees (fraction m r) (fraction n p) (fraction m' r')
      ≡ ok (record {
        platform_fee = fraction f 2;
        bot_fee = fraction g 2;
        total_fee = fraction (f + g) 2;
        seller_payout = fraction (rounded 2 n p - (f + g)) 2;
      })
unfolding calculate_total_fees calculate_platform_fee calculate_bot_extra_fee
total_fees n p m r m' r' h h' =
    rw (accepts m' r' h', fee-fraction n p m r, fee-fraction n p m' r')
      (simp (
        fraction-+ᵈ,
        money_whole,
        money_rest n p (fee_cents n p m r + fee_cents n p m' r') (fees_covered n p m r m' r' h h'),
      ))

abbrev pub IsNonneg : Decimal → Type 0
IsNonneg d = pos 0 ≤ℤ d.coeff

-- From 0 to k percent.
pub record IsPercent (k : ℕ) (d : Decimal) : Type 0 where
  pub nonneg : IsNonneg d
  pub capped : d.coeff ≤ℤ pos (k * pow10 d.places)

-- What a breakdown must satisfy: no part is negative, each is in hundredths, the total is the sum of the two fees, and
-- the fees and the payout share out the amount, rounded to hundredths, with nothing left over.
pub record Shares (amount : Decimal) (fees : FeeBreakdown) : Type 0 where
  pub platform_nonneg : IsNonneg fees.platform_fee
  pub bot_nonneg : IsNonneg fees.bot_fee
  pub payout_nonneg : IsNonneg fees.seller_payout
  pub platform_places : fees.platform_fee.places ≡ 2
  pub bot_places : fees.bot_fee.places ≡ 2
  pub payout_places : fees.seller_payout.places ≡ 2
  pub total : fees.total_fee ≡ fees.platform_fee +ᵈ fees.bot_fee
  pub whole : fees.total_fee +ᵈ fees.seller_payout ≡ money amount

money-fraction : (n p : ℕ) → money (fraction n p) ≡ fraction (rounded 2 n p) 2
unfolding money
money-fraction n p = quantize-fraction 2 n p

total_fees-Shares :
    (n p m r m' r' : ℕ) {fees : FeeBreakdown}
    → m ≤ 3 * pow10 r
    → m' ≤ 3 * pow10 r'
    → calculate_total_fees (fraction m r) (fraction n p) (fraction m' r') ≡ ok fees
    → Shares (fraction n p) fees
total_fees-Shares n p m r m' r' h h' e =
    let f : ℕ = fee_cents n p m r in
    let g : ℕ = fee_cents n p m' r' in
    let rest : f + g + (rounded 2 n p - (f + g)) ≡ rounded 2 n p =
      omega (arith, le-rounded n p (f + g) (fees_covered n p m r m' r' h h')) in
    subst (Shares (fraction n p)) (ok-injective (sym (total_fees n p m r m' r' h h') ∙ e)) (record {
      platform_nonneg = omega arith;
      bot_nonneg = omega arith;
      payout_nonneg = omega arith;
      platform_places = refl;
      bot_places = refl;
      payout_places = refl;
      total = sym (fraction-+ᵈ f g 2);
      whole =
          fraction-+ᵈ (f + g) (rounded 2 n p - (f + g)) 2
          ∙ ap (λ t. fraction t 2) rest
          ∙ sym (money-fraction n p);
    })

accepted_percent :
    (platform_percent amount bot_percent : Decimal) {fees : FeeBreakdown}
    → calculate_total_fees platform_percent amount bot_percent ≡ ok fees
    → (m : ℕ) × (bot_percent.coeff ≡ pos m) × (m ≤ 3 * pow10 bot_percent.places)
unfolding calculate_total_fees calculate_bot_extra_fee
accepted_percent platform_percent amount bot_percent e =
    let (_, e', _) = >>=-eq-ok (calculate_bot_extra_fee amount bot_percent) _ e in
    let (_, e'', _) = >>=-eq-ok (validate_bot_extra_fee_percent bot_percent) _ e' in
    accepted_range bot_percent.coeff bot_percent.places e''

by_sign :
    (a c b : ℤ) (p r r' : ℕ) {fees : FeeBreakdown}
    → IsPercent 3 (record { coeff = c; places = r })
    → pos 0 ≤ℤ a
    → (m : ℕ) × (b ≡ pos m) × (m ≤ 3 * pow10 r')
    → calculate_total_fees
        (record { coeff = c; places = r })
        (record { coeff = a; places = p })
        (record { coeff = b; places = r' })
      ≡ ok fees
    → Shares (record { coeff = a; places = p }) fees
by_sign (pos n) (pos m) b p r r' v nonneg (m', bm, cap) e =
    total_fees-Shares n p m r m' r' (omega arith) cap (rw bm at e)
by_sign (pos n) (negsuc m) b p r r' v nonneg (m', bm, cap) e = absurd (omega arith)
by_sign (negsuc n) (pos m) b p r r' v nonneg (m', bm, cap) e = absurd (omega arith)
by_sign (negsuc n) (negsuc m) b p r r' v nonneg (m', bm, cap) e = absurd (omega arith)

-- With a platform fee from 0 to 3 percent and an amount that is not negative, every fee
-- breakdown that the service returns shares the amount out among the platform, the bot's owner
-- and the seller: no part is negative, and the parts add up to the amount rounded to
-- hundredths.
pub calculate_total_fees-Shares :
    (platform_percent amount bot_percent : Decimal) {fees : FeeBreakdown}
    → IsPercent 3 platform_percent
    → IsNonneg amount
    → calculate_total_fees platform_percent amount bot_percent ≡ ok fees
    → Shares amount fees
calculate_total_fees-Shares platform_percent amount bot_percent v nonneg e =
    by_sign amount.coeff platform_percent.coeff bot_percent.coeff amount.places
      platform_percent.places bot_percent.places v nonneg
      (accepted_percent platform_percent amount bot_percent e) e
