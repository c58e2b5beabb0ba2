-- ===== src/Decimal/Rounding.antt =====
-- Rounding of amounts that are not negative.
use escrow_hub.Common.{
  ℕ, suc, ◌+◌, ◌-◌, ◌*◌, ◌≤◌, max, ◌≡◌, refl, sym, ap, subst, ◌∙◌, arith, ℤ, pos, negsuc, sub_ℕ,
  ◌≤ℤ◌, ◌*ℤ◌, scale, on_magnitude, pow10, pow10_pos, pow10-add, half_up, half_up-mul, half_up-add,
  half_up_exact, int_laws, -ℤ_parts, pos_part-scale, neg_part-scale,
}
use native.Mathlib.Nat.{le_of_mul-le-mul_right, mul-le-mul_right}
use escrow_hub.Decimal.Units.{units_self}
use escrow_hub.Decimal.{Decimal, units, ◌+ᵈ◌, ◌-ᵈ◌, ◌*ᵈ◌, neg, div_hundred, quantize}

-- n / 10 ^ p
abbrev pub fraction : ℕ → ℕ → Decimal
fraction n p = record { coeff = pos n; places = p }

-- The nearest number of units 10 ^ -q to n / 10 ^ p.
abbrev pub rounded : ℕ → ℕ → ℕ → ℕ
rounded q n p = half_up (n * pow10 q) (pow10 p)

pub quantize-fraction : (q n p : ℕ) → quantize q (fraction n p) ≡ fraction (rounded q n p) q
unfolding quantize on_magnitude
quantize-fraction q n p = refl

pub percent-fraction :
    (n p m r : ℕ) → div_hundred (fraction n p *ᵈ fraction m r) ≡ fraction (n * m) (p + r + 2)
unfolding div_hundred ◌*ᵈ◌ ◌*ℤ◌
percent-fraction n p m r = ground arith

-- A number of units 10 ^ -q is its own rounding.
pub rounded_self : (q n : ℕ) → rounded q n q ≡ n
rounded_self q n = half_up_exact n (pow10 q) (pow10_pos q)

Decimal-eq : {a b : Decimal} → a.coeff ≡ b.coeff → a.places ≡ b.places → a ≡ b
Decimal-eq e f = λ i. record { coeff = e i; places = f i }

pow10-sub : (m p : ℕ) → p ≤ m → pow10 (m - p) * pow10 p ≡ pow10 m
pow10-sub m p h =
    let whole : m - p + p ≡ m = omega arith in sym (pow10-add (m - p) p) ∙ ap pow10 whole

meet : (p q : ℕ) → pow10 (max p q - p) * pow10 p ≡ pow10 (max p q - q) * pow10 q
meet p q = pow10-sub (max p q) p (omega arith) ∙ sym (pow10-sub (max p q) q (omega arith))

pub fraction-+ᵈ : (m n q : ℕ) → fraction m q +ᵈ fraction n q ≡ fraction (m + n) q
unfolding ◌+ᵈ◌ units scale
fraction-+ᵈ m n q =
    let same : max q q - q ≡ 0 = omega arith in
    Decimal-eq (rw (ap pow10 same) (unfold pow10 in omega int_laws)) (omega arith)

sub-add : (a b : ℕ) → b ≤ a → a - b + b ≡ a
sub-add a b h = omega arith

-- The common denominator of a difference.
fraction-sub :
    (q n p m : ℕ)
    → m * pow10 p ≤ n * pow10 q
    → let k = pow10 (max p q - p) in
      let l = pow10 (max p q - q) in
      (m * l ≤ n * k) × (fraction n p -ᵈ fraction m q ≡ fraction (n * k - m * l) (max p q))
unfolding ◌-ᵈ◌ ◌+ᵈ◌ units neg
fraction-sub q n p m h =
    let k : ℕ = pow10 (max p q - p) in
    let l : ℕ = pow10 (max p q - q) in
    let same : k * pow10 p ≡ l * pow10 q = meet p q in
    let le : m * l ≤ n * k =
      le_of_mul-le-mul_right (omega (arith, mul-le-mul_right k h, ap (λ (t : ℕ). m * t) same))
        (pow10_pos q) in
    (
      le,
      Decimal-eq
          (omega (
            int_laws,
            pos_part-scale,
            neg_part-scale,
            ap (λ (t : ℕ). t * l) (-ℤ_parts (pos 0) (pos m)),
          ))
          refl,
    )

-- Taking off a whole number of units commutes with the rounding.
pub quantize-sub :
    (q n p m : ℕ)
    → m * pow10 p ≤ n * pow10 q
    → quantize q (fraction n p -ᵈ fraction m q) ≡ fraction (rounded q n p - m) q
quantize-sub q n p m h =
    let k : ℕ = pow10 (max p q - p) in
    let l : ℕ = pow10 (max p q - q) in
    let t : ℕ = pow10 (max p q) in
    let (le, e) = fraction-sub q n p m h in
    let tk : pow10 p * k ≡ t = omega (arith, pow10-sub (max p q) p (omega arith)) in
    let tl : l * pow10 q ≡ t = pow10-sub (max p q) q (omega arith) in
    let x : ℕ = (n * k - m * l) * pow10 q in
    let split : x + m * t ≡ n * pow10 q * k =
      omega (
        arith,
        ap (λ (y : ℕ). y * pow10 q) (sub-add (n * k) (m * l) le),
        ap (λ (y : ℕ). m * y) tl,
      ) in
    let cancel : half_up (n * pow10 q * k) (pow10 p * k) ≡ rounded q n p =
      half_up-mul (n * pow10 q) (pow10 p) k (pow10_pos p) (pow10_pos _) in
    let shifted : half_up (x + m * t) t ≡ half_up x t + m = half_up-add x t m (pow10_pos _) in
    let total : half_up x t + m ≡ rounded q n p =
      sym shifted
      ∙ ap (λ (y : ℕ). half_up y t) split
      ∙ ap (half_up (n * pow10 q * k)) (sym tk)
      ∙ cancel in
    ap (quantize q) e
    ∙ quantize-fraction q (n * k - m * l) (max p q)
    ∙ ap (λ (y : ℕ). fraction y q) (omega (arith, total))

half_up-scale : (n p q : ℕ) → p ≤ q → half_up (n * pow10 q) (pow10 p) ≡ n * pow10 (q - p)
half_up-scale n p q h =
    let apart : q - p + p ≡ q = omega arith in
    let whole : pow10 q ≡ pow10 (q - p) * pow10 p = sym (ap pow10 apart) ∙ pow10-add (q - p) p in
    let product : n * pow10 q ≡ n * pow10 (q - p) * pow10 p =
      ap (λ (t : ℕ). n * t) whole ∙ omega arith in
    ap (λ (t : ℕ). half_up t (pow10 p)) product
    ∙ half_up_exact (n * pow10 (q - p)) (pow10 p) (pow10_pos p)

-- Rounding to places that an amount has room for only writes it with them.
pub quantize_exact : (q : ℕ) (d : Decimal) → d.places ≤ q → (quantize q d).coeff ≡ units q d
unfolding quantize units scale on_magnitude
quantize_exact q d h = by_sign d.coeff d.places h
  where
    by_sign :
        (c : ℤ) (p : ℕ)
        → p ≤ q
        → on_magnitude (λ n. half_up (n * pow10 q) (pow10 p)) c ≡ scale c (pow10 (q - p))
    by_sign (pos n) p le = ap pos (half_up-scale n p q le)
    by_sign (negsuc n) p le = ap (sub_ℕ 0) (half_up-scale (suc n) p q le)

pub places-quantize : (q : ℕ) (d : Decimal) → (quantize q d).places ≡ q
unfolding quantize
places-quantize q d = refl

pub units_at_places : (q : ℕ) (e : Decimal) → e.places ≡ q → units q e ≡ e.coeff
units_at_places q e same = subst (λ t. units t e ≡ e.coeff) same (units_self e.coeff e.places)

pub quantize-units : (q : ℕ) (d : Decimal) → d.places ≤ q → units q (quantize q d) ≡ units q d
quantize-units q d h = units_at_places q (quantize q d) (places-quantize q d) ∙ quantize_exact q d h

pub quantize-quantize : (q : ℕ) (d : Decimal) → quantize q (quantize q d) ≡ quantize q d
quantize-quantize q d =
    let same = places-quantize q d in
    Decimal-eq
      (quantize_exact q (quantize q d) (omega (arith, same))
        ∙ units_at_places q (quantize q d) same)
      (places-quantize q (quantize q d) ∙ sym same)

-- Rounding keeps the sign.
pub quantize-nonneg : (q : ℕ) (d : Decimal) → pos 0 ≤ℤ d.coeff → pos 0 ≤ℤ units q (quantize q d)
quantize-nonneg q d h =
    subst (λ (t : ℤ). pos 0 ≤ℤ t) (sym (units_at_places q (quantize q d) (places-quantize q d)))
      (coeff_nonneg d.coeff d.places h)
  where
    coeff_nonneg :
        (c : ℤ) (p : ℕ)
        → pos 0 ≤ℤ c
        → pos 0 ≤ℤ (quantize q (record { coeff = c; places = p })).coeff
    coeff_nonneg (pos n) p le = unfold quantize on_magnitude in omega arith
    coeff_nonneg (negsuc n) p le = absurd (omega arith)
