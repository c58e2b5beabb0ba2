-- ===== src/Decimal/Units.antt =====
-- Amounts read as whole numbers of a unit 10 ^ -n: there the operations are those of the integers.
use escrow_hub.Common.{
  ℕ, ◌+◌, ◌-◌, ◌*◌, ◌≤◌, ◌<◌, max, ◌≡◌, refl, sym, ap, ap₂, ◌∙◌, inl, inr, Bool-cases, true, false,
  arith, ℤ, pos, pos_part, neg_part, ◌+ℤ◌, ◌-ℤ◌, scale, ◌≤ℤ◌, ltb, ltb_ℤ, pow10, pow10_pos,
  pow10-add, +ℤ_parts, -ℤ_parts, pos_part-scale, neg_part-scale, int_laws, ltb→lt, lt→ltb, ltb→ge,
  ge→ltb,
}
use native.Mathlib.Nat.{mul-lt-mul_of_pos_right, mul-le-mul_right}
use escrow_hub.Decimal.{Decimal, of_ℕ, units, ◌+ᵈ◌, ◌-ᵈ◌, neg, lt}

ruleset scale_laws = (int_laws, pos_part-scale, neg_part-scale)

scale-scale : (a : ℤ) (j k : ℕ) → scale (scale a j) k ≡ scale a (j * k)
scale-scale a j k = omega (
  scale_laws,
  ap (λ (t : ℕ). t * k) (pos_part-scale a j),
  ap (λ (t : ℕ). t * k) (neg_part-scale a j),
)

scale-+ℤ : (a b : ℤ) (k : ℕ) → scale (a +ℤ b) k ≡ scale a k +ℤ scale b k
scale-+ℤ a b k = omega (scale_laws, ap (λ (t : ℕ). t * k) (+ℤ_parts a b))

pub units-units :
    (m n : ℕ) (a : Decimal) → a.places ≤ m → m ≤ n → scale (units m a) (pow10 (n - m)) ≡ units n a
unfolding units
units-units m n a h k =
    let apart : m - a.places + (n - m) ≡ n - a.places = omega arith in
    scale-scale a.coeff (pow10 (m - a.places)) (pow10 (n - m))
    ∙ ap (scale a.coeff) (sym (pow10-add (m - a.places) (n - m)) ∙ ap pow10 apart)

pub units-+ᵈ :
    (n : ℕ) (a b : Decimal)
    → a.places ≤ n
    → b.places ≤ n
    → units n (a +ᵈ b) ≡ units n a +ℤ units n b
unfolding units ◌+ᵈ◌
units-+ᵈ n a b ha hb =
    let m : ℕ = max a.places b.places in
    scale-+ℤ (units m a) (units m b) (pow10 (n - m))
    ∙ ap₂ ◌+ℤ◌ (units-units m n a (omega arith) (omega arith))
        (units-units m n b (omega arith) (omega arith))

pub units-neg : (n : ℕ) (a : Decimal) → units n (neg a) ≡ pos 0 -ℤ units n a
unfolding units neg
units-neg n a =
    let k : ℕ = pow10 (n - a.places) in
    omega (scale_laws, ap (λ (t : ℕ). t * k) (-ℤ_parts (pos 0) a.coeff))

ltb-mul : (p q k : ℕ) → 0 < k → ltb (p * k) (q * k) ≡ ltb p q
ltb-mul p q k h = elim (Bool-cases (ltb p q)) [
  | inl less ↦ rw less (lt→ltb _ _ (mul-lt-mul_of_pos_right (ltb→lt p q less) h))
  | inr not_less ↦ rw not_less (ge→ltb _ _ (mul-le-mul_right k (ltb→ge p q not_less)))
]

ltb_ℤ-scale : (a b : ℤ) (k : ℕ) → 0 < k → ltb_ℤ (scale a k) (scale b k) ≡ ltb_ℤ a b
ltb_ℤ-scale a b k h =
    ap₂ ltb (omega scale_laws) (omega scale_laws)
    ∙ ltb-mul (pos_part a + neg_part b) (pos_part b + neg_part a) k h

pub lt-units :
    (n : ℕ) (a b : Decimal) → a.places ≤ n → b.places ≤ n → lt a b ≡ ltb_ℤ (units n a) (units n b)
unfolding lt
lt-units n a b ha hb =
    let m : ℕ = max a.places b.places in
    sym (ltb_ℤ-scale (units m a) (units m b) (pow10 (n - m)) (pow10_pos (n - m)))
    ∙ ap₂ ltb_ℤ (units-units m n a (omega arith) (omega arith))
        (units-units m n b (omega arith) (omega arith))

-- A comparison says how the amounts lie in units, whichever way it goes.
pub lt→units-lt :
    (n : ℕ) (a b : Decimal)
    → a.places ≤ n
    → b.places ≤ n
    → lt a b ≡ true
    → units n a +ℤ pos 1 ≤ℤ units n b
lt→units-lt n a b ha hb e = omega (int_laws, ltb→lt _ _ (sym (lt-units n a b ha hb) ∙ e))

pub ge→units-le :
    (n : ℕ) (a b : Decimal) → a.places ≤ n → b.places ≤ n → lt a b ≡ false → units n b ≤ℤ units n a
ge→units-le n a b ha hb e = ltb→ge _ _ (sym (lt-units n a b ha hb) ∙ e)

pub units--ᵈ :
    (n : ℕ) (a b : Decimal)
    → a.places ≤ n
    → b.places ≤ n
    → units n (a -ᵈ b) ≡ units n a -ℤ units n b
unfolding ◌-ᵈ◌
units--ᵈ n a b ha hb =
    units-+ᵈ n a (neg b) ha (places_neg b hb) ∙ rw (units-neg n b) (omega int_laws)
  where
    places_neg : (b : Decimal) → b.places ≤ n → (neg b).places ≤ n
    places_neg b h = h

pub places-+ᵈ : (n : ℕ) (a b : Decimal) → a.places ≤ n → b.places ≤ n → (a +ᵈ b).places ≤ n
unfolding ◌+ᵈ◌
places-+ᵈ n a b ha hb = omega arith

pub places-neg : (a : Decimal) → (neg a).places ≡ a.places
unfolding neg
places-neg a = refl

pub units_self : (c : ℤ) (n : ℕ) → units n (record { coeff = c; places = n }) ≡ c
unfolding units pow10
units_self c n =
    let same : n - n ≡ 0 = omega arith in ap (λ t. scale c (pow10 t)) same ∙ omega scale_laws

pub units-of_ℕ : (k n : ℕ) → units n (of_ℕ k) ≡ pos (k * pow10 n)
unfolding units scale
units-of_ℕ k n = let same : n - 0 ≡ n = omega arith in ap (λ t. pos (k * pow10 t)) same
